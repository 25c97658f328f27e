-- ===== src/Chaos/Safe.antt =====
-- What the checks of src/fairlane/chaos/invariants.py find after a run of the system.
use fairlane.Prelude.{
  ℕ, ◌≡◌, refl, ap, ◌∙◌, Bool, true, false, some, List, [], ◌∷◌, ◌++◌, All, length, arith,
  Bool-cases, Option-cases, inl, inr, str_eq,
}
use fairlane.Models.{Task, TaskEvent, is_dead, is_succeeded}
use fairlane.Database.{Schema, Db}
use fairlane.Scheduler.Queue.{Rooms}
use fairlane.Worker.Failure.{retry_row, dead_row}
use fairlane.Worker.Process.{started_row, succeeded_row}
use fairlane.Scheduler.Poll.{requeued_row}
use fairlane.Reaper.Reclaim.{exhausted, reclaimed_row}
use fairlane.Api.Tasks.{Request, new_task, created_event}
use fairlane.Api.Replay.{replayed_row}
use fairlane.System.Rowwise.{Lettered, Effected, Rowwise, Everywhere}
use fairlane.System.Rowwise.Transactions.{Rowwise-Closed}
use fairlane.System.Run.{Run, Run-Held}
use fairlane.Chaos.{
  Check, has_created, without_letter, without_event, without_effect, check_invariants, unless_any,
}

-- A DEAD row has a dead letter, a demo task that has SUCCEEDED a side effect, and every row the event
-- of its creation.
pub record IsRecorded (S : Schema) (d : Db S) (t : Task) : Type 0 where
  pub letter : is_dead t.status ≡ true → Lettered S d t.id
  pub effect : is_succeeded t.status ≡ true → str_eq t.task_type "demo" ≡ true → Effected S d t.id
  pub event : has_created t.id d.events ≡ true

has_created-append :
    (id : ℕ) (es vs : List TaskEvent) → has_created id es ≡ true → has_created id (es ++ vs) ≡ true
unfolding has_created
has_created-append id [] vs h = absurd (cc)
has_created-append id (e ∷ es) vs h = let k = has_created-append id es vs in ground arith

has_created-new :
    (r : Request) (es : List TaskEvent) → has_created r.new_id (es ++ created_event r ∷ []) ≡ true
unfolding has_created created_event
has_created-new r [] = ground arith
has_created-new r (e ∷ es) = let k = has_created-new r es in ground arith

-- A row that is neither DEAD nor has SUCCEEDED needs no more than the event.
unfinished :
    (S : Schema) (d : Db S) (t v : Task)
    → is_dead v.status ≡ false
    → is_succeeded v.status ≡ false
    → v.id ≡ t.id
    → IsRecorded S d t
    → IsRecorded S d v
unfinished S d t v a b i r = record {
  letter = λ x. absurd (cc);
  effect = λ x y. absurd (cc);
  event = ap (λ id. has_created id d.events) i ∙ r.event;
}

reclaimed_row-IsRecorded :
    (S : Schema) (d : Db S) (t : Task) (now : ℕ)
    → (exhausted t ≡ true → Lettered S d t.id)
    → IsRecorded S d t
    → IsRecorded S d (reclaimed_row now t)
unfolding reclaimed_row
reclaimed_row-IsRecorded S d t now i v = elim (Bool-cases (exhausted t)) [
  | inl e ↦ rw e (record { letter = λ x. i e; effect = λ x y. absurd (cc); event = v.event })
  | inr e ↦ rw e (unfinished S d t _ refl refl refl v)
]

IsRecorded-Rowwise : (S : Schema) → Rowwise S (IsRecorded S)
unfolding started_row succeeded_row retry_row dead_row requeued_row replayed_row new_task
IsRecorded-Rowwise S = record {
  grows = λ d after t g v. record {
    letter = λ x. g.letters t.id (v.letter x);
    effect = λ x y. g.effects t.id (v.effect x y);
    event = rw g.events (has_created-append t.id d.events g.more v.event);
  };
  created = λ d es r c e. record {
    letter = λ x. absurd (cc);
    effect = λ x y. absurd (cc);
    event = rw e (has_created-new r es);
  };
  throttled = λ d t at v. unfinished S d t _ refl refl refl v;
  started = λ d t now worker v. unfinished S d t _ refl refl refl v;
  succeeded = λ d t now worker o f v. record {
    letter = λ x. absurd (cc);
    effect = λ x y. f y;
    event = v.event;
  };
  retried = λ d t x at m v. unfinished S d t _ refl refl refl v;
  died =
      λ d t x now m i v. record { letter = λ y. i; effect = λ y z. absurd (cc); event = v.event };
  reclaimed = λ d t now n i v. reclaimed_row-IsRecorded S d t now i v;
  requeued = λ d t p v. record { letter = v.letter; effect = v.effect; event = v.event };
  replayed = λ d t b e v. unfinished S d t _ refl refl refl v;
}

-- A query that no row of the table passes finds nothing.
none_passes :
    (P : Task → Type 0) (p : Task → Bool) (ts : List Task)
    → All (λ t. (p t ≡ true) × P t) ts
    → ((t : Task) → P t → p t ≡ false)
    → ts ≡ []
none_passes P p [] a n = refl
none_passes P p (t ∷ ts) a n = absurd (cc (a.0.0, n t a.0.1))

pub select_none :
    (S : Schema) (p : Task → Bool) (rows : S.tasks.Rows)
    → ((t : Task) → S.tasks.find t.id rows ≡ some t → p t ≡ false)
    → S.tasks.select p rows ≡ []
select_none S p rows n = none_passes _ p _ (S.tasks.select_sound p rows) n

-- The three queries row by row.
module _ {S : Schema} (d : Db S) (t : Task) (v : IsRecorded S d t) where
  pub without_letter-IsRecorded : without_letter d t ≡ false
  unfolding without_letter
  without_letter-IsRecorded = elim (Bool-cases (is_dead t.status)) [
    | inl e ↦ elim (Option-cases (S.dead_letters.find t.id d.dead_letters)) [
      | inl n ↦ absurd (cc (v.letter e, n))
      | inr (u, f) ↦ rw (e, f) refl
    ]
    | inr e ↦ rw e refl
  ]

  pub without_event-IsRecorded : without_event d t ≡ false
  unfolding without_event
  without_event-IsRecorded = rw v.event refl

  pub without_effect-IsRecorded : without_effect d t ≡ false
  unfolding without_effect
  without_effect-IsRecorded = elim (Bool-cases (is_succeeded t.status)) [
    | inl e ↦ elim (Bool-cases (str_eq t.task_type "demo")) [
      | inl y ↦ elim (Option-cases (S.side_effects.find t.id d.side_effects)) [
        | inl n ↦ absurd (cc (v.effect e y, n))
        | inr (u, f) ↦ rw (e, y, f) refl
      ]
      | inr y ↦ rw (e, y) refl
    ]
    | inr e ↦ rw e refl
  ]

-- An entry of the report that passes with nothing counted.
abbrev pub passed : Check
passed = record { pass = true; count = 0 }

-- In every run from a database whose rows are recorded, whatever the services answer: at the end
-- every DEAD task has a dead letter, every demo task that has SUCCEEDED a side effect, and every
-- task the event of its creation. Those three checks of the chaos test pass, with nothing counted.
pub Run-check_invariants :
    {S : Schema} {R : Rooms} {d e : Db S} (p95 : List Task → List ℕ)
    → Run S R d e
    → Everywhere S (IsRecorded S) d
    → (let report = check_invariants p95 e in
        Everywhere S (IsRecorded S) e
        × (report.dlq_correctness ≡ passed)
        × (report.at_least_once ≡ passed)
        × (report.event_order ≡ passed))
unfolding check_invariants
Run-check_invariants {S} {e = e} p95 run h =
    let g : Everywhere S (IsRecorded S) e =
      Run-Held (Everywhere S (IsRecorded S)) (Rowwise-Closed _ (IsRecorded-Rowwise S)) run h in
    let empty : (p : Task → Bool)
        → ((t : Task) → IsRecorded S e t → p t ≡ false)
        → unless_any (length (S.tasks.select p e.tasks)) ≡ passed =
      λ p n.
        ap (λ (ts : List Task). unless_any (length ts))
          (select_none S p e.tasks (λ t f. n t (g t.id t f))) in
    (
      g,
      empty (without_letter e) (without_letter-IsRecorded e),
      empty (without_effect e) (without_effect-IsRecorded e),
      empty (without_event e) (without_event-IsRecorded e),
    )
