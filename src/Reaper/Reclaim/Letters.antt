-- ===== src/Reaper/Reclaim/Letters.antt =====
-- The dead letters of a reclamation (src/fairlane/reaper.py).
use mathlib.Core.Path.{subst}
use fairlane.Prelude.{
  In, All-In, ℕ, String, ◌≡◌, ◌≢◌, refl, sym, ap, ◌∙◌, true, false, Option, none, some, List, [],
  ◌∷◌, ◌++◌, Bool-cases, Option-cases, inl, inr,
}
use fairlane.Models.{Task, DeadLetter}
use fairlane.Retry.{Exception}
use fairlane.Answer.{raise}
use fairlane.Database.{Schema}
use fairlane.Scheduler.Queue.{Rooms}
use fairlane.Reaper.Reclaim.{
  terminal, exhausted, poison_letter, Session, reclaim_task, reclaim_row, reclaim_id, reclaim_ids,
  Fleet, opened, Circumstances, collected, processed, commit_session, after_commit, insert_all,
  reclaim_tasks_from_dead_worker,
}
use fairlane.Reaper.Reclaim.Rows.{Apart, reclaim_id-miss}

In-append_left : {A : Type 0} (a : A) (l k : List A) → In a l → In a (l ++ k)
In-append_left a [] k i = absurd i
In-append_left a (x ∷ l) k (inl e) = inl e
In-append_left a (x ∷ l) k (inr i) = inr (In-append_left a l k i)

pub In-append_last : {A : Type 0} (a : A) (l : List A) → In a (l ++ a ∷ [])
In-append_last a [] = inl refl
In-append_last a (x ∷ l) = inr (In-append_last a l)

-- A dead letter whose task id is taken makes the insertion fail, wherever it stands.
insert_all-taken :
    (S : Schema) (d u : DeadLetter) (ds : List DeadLetter) (rows : S.dead_letters.Rows)
    → In d ds
    → S.dead_letters.find d.task_id rows ≡ some u
    → insert_all S ds rows ≡ none
unfolding insert_all
insert_all-taken S d u [] rows i t = absurd i
insert_all-taken S d u (x ∷ ds) rows i t = elim (Option-cases (S.dead_letters.insert x rows)) [
  | inl h ↦ rw (h, insert_all) refl
  | inr (after, h) ↦
      let ne : x.task_id ≢ d.task_id = λ q.
        let z : S.dead_letters.find x.task_id rows ≡ some u =
          subst (λ k. S.dead_letters.find k rows ≡ some u) (sym q) t in
        absurd (cc (S.dead_letters.insert_taken x u rows z, h)) in
      rw (h, insert_all)
        (elim i [
          | inl e ↦ absurd (ne (ap (λ (y : DeadLetter). y.task_id) (sym e)))
          | inr k ↦
              insert_all-taken S d u ds after k
                (S.dead_letters.find_insert_ne d.task_id x rows after h ne ∙ t)
        ])
]

module _ {S : Schema} (now : ℕ) (dead_worker : String) where
  pub reclaim_row-letters :
      (d : DeadLetter) (o : Option Task) (s : Session S)
      → In d s.letters
      → In d (reclaim_row now dead_worker o s).letters
  unfolding reclaim_row reclaim_task
  reclaim_row-letters d none s i = i
  reclaim_row-letters d (some t) s i = elim (Bool-cases (terminal t.status)) [
    | inl e ↦ rw e i
    | inr e ↦ rw e (elim (Bool-cases (exhausted t)) [
      | inl x ↦ rw x (In-append_left d s.letters _ i)
      | inr x ↦ rw x i
    ])
  ]

  pub reclaim_id-letters :
      (d : DeadLetter) (o : Option ℕ) (s : Session S)
      → In d s.letters
      → In d (reclaim_id now dead_worker o s).letters
  unfolding reclaim_id
  reclaim_id-letters d none s i = i
  reclaim_id-letters d (some id) s i = reclaim_row-letters d _ s i

  pub reclaim_ids-letters :
      (d : DeadLetter) (parse : String → Option ℕ) (xs : List String) (s : Session S)
      → In d s.letters
      → In d (reclaim_ids now dead_worker parse xs s).letters
  unfolding reclaim_ids
  reclaim_ids-letters d parse [] s i = i
  reclaim_ids-letters d parse (x ∷ xs) s i =
      reclaim_ids-letters d parse xs _ (reclaim_id-letters d (parse x) s i)

  reclaim_id-poison :
      (id : ℕ) (t : Task) (o : Option ℕ) (s : Session S)
      → o ≡ some id
      → S.tasks.find id s.tasks ≡ some t
      → terminal t.status ≡ false
      → exhausted t ≡ true
      → In (poison_letter now dead_worker t) (reclaim_id now dead_worker o s).letters
  unfolding reclaim_id reclaim_row reclaim_task
  reclaim_id-poison id t none s p f a e = absurd (cc)
  reclaim_id-poison id t (some i) s p f a e =
      let q : S.tasks.find i s.tasks ≡ some t = cc in
      rw q (rw a (rw e (In-append_last _ s.letters)))

  -- The dead letter of a task whose attempts are used up is among those that the session adds.
  reclaim_ids-poison :
      (id : ℕ) (t : Task) (parse : String → Option ℕ) (x : String) (xs : List String)
      (s : Session S)
      → Apart parse xs
      → In x xs
      → parse x ≡ some id
      → S.tasks.find id s.tasks ≡ some t
      → terminal t.status ≡ false
      → exhausted t ≡ true
      → In (poison_letter now dead_worker t) (reclaim_ids now dead_worker parse xs s).letters
  unfolding reclaim_ids
  reclaim_ids-poison id t parse x [] s d i p f a e = absurd i
  reclaim_ids-poison id t parse x (y ∷ ys) s d (inl k) p f a e =
      reclaim_ids-letters _ parse ys _
        (reclaim_id-poison id t (parse y) s (ap parse (sym k) ∙ p) f a e)
  reclaim_ids-poison id t parse x (y ∷ ys) s d (inr k) p f a e =
      reclaim_ids-poison id t parse x ys (reclaim_id now dead_worker (parse y) s) d.1 k p
        (reclaim_id-miss now dead_worker id s (parse y)
            (λ q. All-In (λ z. (j : ℕ) → parse y ≡ some j → parse z ≢ some j) ys d.0 k id q p)
          ∙ f)
        a e

-- A reclamation in which the attempts of some named task are used up, while that task has a dead
-- letter already, commits nothing at all: it raises, the rows, events and waiting rooms are as
-- before, and no task is delivered again; yet the claimed messages are acknowledged and deleted.
pub reclaim-aborts :
    (S : Schema) {R : Rooms} (parse : String → Option ℕ) (C : Circumstances S)
    (dead_worker : String) (show : ℕ → String) (f : Fleet S R) (x : String) (id : ℕ) (t : Task)
    (u : DeadLetter)
    → Apart parse (collected S parse show C dead_worker f).ids
    → In x (collected S parse show C dead_worker f).ids
    → parse x ≡ some id
    → S.tasks.find id f.db.tasks ≡ some t
    → terminal t.status ≡ false
    → exhausted t ≡ true
    → S.dead_letters.find t.id f.db.dead_letters ≡ some u
    → (let (answer, after) = reclaim_tasks_from_dead_worker S parse show C dead_worker f in
        ((e : Exception) × (answer ≡ raise e))
        × (after.db ≡ f.db)
        × (after.queue ≡ f.queue)
        × (after.acked ≡ (collected S parse show C dead_worker f).acked ++ f.acked))
unfolding reclaim_tasks_from_dead_worker processed commit_session after_commit poison_letter
reclaim-aborts S parse C dead_worker show f x id t u a i p h n e d =
    let ids = (collected S parse show C dead_worker f).ids in
    let s = processed S parse C dead_worker ids f in
    let k : insert_all S s.letters f.db.dead_letters ≡ none =
      insert_all-taken S (poison_letter C.now dead_worker t) u s.letters f.db.dead_letters
        (reclaim_ids-poison C.now dead_worker id t parse x ids (opened f) a i p h n e) d in
    rw k ((_, refl), refl, refl, refl)
