-- ===== src/System/Persists.antt =====
-- What src/fairlane never changes of a task: the transactions keep every row, and who it is.
use mathlib.Core.Path.{subst}
use fairlane.Prelude.{
  ℕ, String, ◌≡◌, ◌≢◌, refl, sym, ap, ◌∙◌, Option, none, some, List, [], ◌∷◌, All, Bool-cases, inl,
  inr, ◌==◌, arith, str_eq, if-cases,
}
use fairlane.Models.{Task}
use fairlane.Database.{Schema, Db}
use fairlane.Scheduler.Queue.{Rooms}
use fairlane.Scheduler.Poll.{requeued_row, Polling, requeue, requeue_all}
use fairlane.Worker.Failure.{retry_row, dead_row}
use fairlane.Worker.Process.{started_row, succeeded_row, run_side_effect}
use fairlane.Reaper.Reclaim.{
  terminal, exhausted, reclaimed_row, Session, reclaim_task, reclaim_row, reclaim_id, reclaim_ids,
  opened_on,
}
use fairlane.Api.Replay.{replayed_row}
use fairlane.System.Closed.{Closed, polling}
use fairlane.System.Rows.{found_self}

-- What a task keeps for ever.
pub record Identity : Type 0 where
  pub id : ℕ
  pub tenant_id : String
  pub task_type : String
  pub priority : ℕ
  pub max_attempts : ℕ
  pub created_at : ℕ
  pub idempotency_key : Option String

abbrev pub identity : Task → Identity
identity t = record {
  id = t.id;
  tenant_id = t.tenant_id;
  task_type = t.task_type;
  priority = t.priority;
  max_attempts = t.max_attempts;
  created_at = t.created_at;
  idempotency_key = t.idempotency_key;
}

-- Every row is still there, with the same identity.
abbrev pub Persists : (S : Schema) → S.tasks.Rows → S.tasks.Rows → Type 0
Persists S rows after =
    (id : ℕ) (t : Task)
    → S.tasks.find id rows ≡ some t
    → (u : Task) × (S.tasks.find id after ≡ some u) × (identity u ≡ identity t)

reclaimed_row-identity : (now : ℕ) (t : Task) → identity (reclaimed_row now t) ≡ identity t
unfolding reclaimed_row
reclaimed_row-identity now t = elim (Bool-cases (exhausted t)) [
  | inl e ↦ rw e refl
  | inr e ↦ rw e refl
]

module _ (S : Schema) where
  pub Persists-refl : (rows : S.tasks.Rows) → Persists S rows rows
  Persists-refl rows id t f = (t, f, refl)

  Persists-trans : (a b c : S.tasks.Rows) → Persists S a b → Persists S b c → Persists S a c
  Persists-trans a b c p q id t f =
      let (u, g, i) = p id t f in let (v, h, j) = q id u g in (v, h, j ∙ i)

  pub Persists-update :
      (v u : Task) (rows : S.tasks.Rows)
      → S.tasks.find u.id rows ≡ some u
      → identity v ≡ identity u
      → Persists S rows (S.tasks.update v rows)
  Persists-update v u rows g i id t f =
      let k : v.id ≡ u.id = ap (λ (x : Identity). x.id) i in
      elim (Bool-cases (v.id == id)) [
        | inl e ↦
            let q : v.id ≡ id = ground arith in
            let s = S.tasks.find_update_self v u rows (ap (λ j. S.tasks.find j rows) k ∙ g) in
            let r : S.tasks.find u.id rows ≡ some t =
              subst (λ j. S.tasks.find j rows ≡ some t) (sym q ∙ k) f in
            let w : u ≡ t = cc in
            (v, subst (λ j. S.tasks.find j (S.tasks.update v rows) ≡ some v) q s, i ∙ ap identity w)
        | inr e ↦
            let n : v.id ≢ id = λ q. ground arith in
            (t, S.tasks.find_update_ne id v rows n ∙ f, refl)
      ]

  Persists-insert :
      (v : Task) (rows after : S.tasks.Rows)
      → S.tasks.insert v rows ≡ some after
      → Persists S rows after
  Persists-insert v rows after i id t f =
      let n : v.id ≢ id = λ q.
        let g : S.tasks.find v.id rows ≡ some t =
          subst (λ j. S.tasks.find j rows ≡ some t) (sym q) f in
        absurd (cc (S.tasks.insert_taken v t rows g, i)) in
      (t, S.tasks.find_insert_ne id v rows after i n ∙ f, refl)

module _ {S : Schema} (now : ℕ) (dead_worker : String) where
  reclaim_row-Persists :
      (id : ℕ) (o : Option Task) (s : Session S)
      → S.tasks.find id s.tasks ≡ o
      → Persists S s.tasks (reclaim_row now dead_worker o s).tasks
  unfolding reclaim_row reclaim_task
  reclaim_row-Persists id none s f = Persists-refl S s.tasks
  reclaim_row-Persists id (some t) s f = elim (Bool-cases (terminal t.status)) [
    | inl e ↦ rw e (Persists-refl S s.tasks)
    | inr e ↦ rw e (
        let k = S.tasks.find_key id s.tasks t f in
        Persists-update S _ t s.tasks (ap (λ j. S.tasks.find j s.tasks) k ∙ f)
          (reclaimed_row-identity now t))
  ]

  reclaim_id-Persists :
      (o : Option ℕ) (s : Session S) → Persists S s.tasks (reclaim_id now dead_worker o s).tasks
  unfolding reclaim_id
  reclaim_id-Persists none s = Persists-refl S s.tasks
  reclaim_id-Persists (some id) s = reclaim_row-Persists id _ s refl

  reclaim_ids-Persists :
      (parse : String → Option ℕ) (xs : List String) (s : Session S)
      → Persists S s.tasks (reclaim_ids now dead_worker parse xs s).tasks
  unfolding reclaim_ids
  reclaim_ids-Persists parse [] s = Persists-refl S s.tasks
  reclaim_ids-Persists parse (x ∷ xs) s =
      Persists-trans S _ _ _ (reclaim_id-Persists (parse x) s) (reclaim_ids-Persists parse xs _)

-- The overdue rows were read before the first of them was put back.
requeue_all-Persists :
    {S : Schema} {R : Rooms} (Q : Task → Type 0) (now : ℕ) (ts : List Task) (rows : S.tasks.Rows)
    (p : Polling S R)
    → All (λ t. Q t × (S.tasks.find t.id rows ≡ some t)) ts
    → Persists S rows p.tasks
    → Persists S rows (requeue_all now ts p).tasks
unfolding requeue_all requeue requeued_row
requeue_all-Persists Q now [] rows p a h = h
requeue_all-Persists {S} Q now (t ∷ ts) rows p a h =
    let (u, f, i) = h t.id t a.0.1 in
    let k = S.tasks.find_key t.id p.tasks u f in
    requeue_all-Persists Q now ts rows (requeue now t p) a.1 (
      Persists-trans S _ _ _ h
        (Persists-update S _ u p.tasks (ap (λ j. S.tasks.find j p.tasks) k ∙ f) (sym i)))

side-tasks : {S : Schema} (t : Task) (d : Db S) → (run_side_effect t d).tasks ≡ d.tasks
unfolding run_side_effect
side-tasks {S} t d =
    if-cases (λ (x : Db S). x.tasks ≡ d.tasks) (str_eq t.task_type "demo") _ _ (λ _. refl)
      (λ _. refl)

-- No transaction loses a row that was there at the start, or changes who it is.
pub Persists-Closed : {S : Schema} (rows : S.tasks.Rows) → Closed S (λ d. Persists S rows d.tasks)
unfolding started_row succeeded_row retry_row dead_row replayed_row
Persists-Closed {S} rows =
    let put : (d : Db S) (v t : Task)
        → S.tasks.find t.id d.tasks ≡ some t
        → identity v ≡ identity t
        → Persists S rows d.tasks
        → Persists S rows (S.tasks.update v d.tasks) =
      λ d v t f i h. Persists-trans S _ _ _ h (Persists-update S v t d.tasks f i) in
    record {
      created = λ d r c after i h. Persists-trans S _ _ _ h (Persists-insert S _ d.tasks after i);
      throttled = λ d t at e f h. put d _ t f refl h;
      started = λ d t now worker e f h. put d _ t f refl h;
      succeeded = λ d t r now worker e f o y h.
          rw (side-tasks t d) (put d _ r (found_self S t.id r d f) refl h);
      retried = λ d t x at e f m h. put d _ t f refl h;
      died = λ d t x now e v l f m q i h. put d _ t f refl h;
      reclaimed = λ d parse now dead_worker ids l i h.
          Persists-trans S _ _ _ h (reclaim_ids-Persists now dead_worker parse ids (opened_on d));
      polled = λ d locked now q h. Persists-trans S _ _ _ h (
          requeue_all-Persists _ now _ d.tasks (polling d q) (S.tasks.select_sound _ d.tasks)
            (Persists-refl S d.tasks));
      replayed = λ d t b now e v f m g h. put d _ t f refl h;
      dispatched = λ d now ts h. h;
      aside = λ d workers limits h. h;
    }
