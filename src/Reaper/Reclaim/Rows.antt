-- ===== src/Reaper/Reclaim/Rows.antt =====
-- The rows after a reclamation (src/fairlane/reaper.py).
use fairlane.Prelude.{
  Bool, true, false, leb, ◌+◌, ℕ, String, ◌≡◌, ◌≢◌, refl, sym, ap, ◌∙◌, Option, none, some, List,
  [], ◌∷◌, ◌++◌, All, arith, Bool-cases, inl, inr, if◌then◌else◌,
}
use fairlane.Models.{Task, TaskStatus}
use fairlane.Retry.{Exception}
use fairlane.Answer.{Answer, ok}
use fairlane.Database.{Schema, Db}
use fairlane.Scheduler.Queue.{Rooms}
use fairlane.Worker.Failure.Outcome.{find-update}
use fairlane.Reaper.Reclaim.{
  terminal, reclaimed_row, Session, reclaim_task, reclaim_row, reclaim_id, reclaim_ids, Fleet,
  opened, Circumstances, collected, processed, commit_session, after_commit,
  reclaim_tasks_from_dead_worker,
}

abbrev pub over : TaskStatus → Bool
over TaskStatus.succeeded = true
over TaskStatus.dead = true
over TaskStatus.pending = false
over TaskStatus.running = false
over TaskStatus.failed = false

-- What reclaiming makes of a row: nothing of one that is missing or finished; another one is
-- unlocked with one more attempt, and DEAD if that was the last one.
abbrev pub reclaimed : ℕ → Option Task → Option Task
reclaimed now none = none
reclaimed now (some t) =
    if over t.status
    then some t
    else (if leb t.max_attempts (t.attempts + 1)
        then some (record t {
          status = TaskStatus.dead;
          finished_at = some now;
          next_retry_at = none;
          attempts = t.attempts + 1;
          locked_by = none;
          locked_at = none;
        })
        else some (record t {
          status = TaskStatus.pending;
          next_retry_at = none;
          attempts = t.attempts + 1;
          locked_by = none;
          locked_at = none;
        }))

-- The same in the words of the code.
abbrev as_coded : ℕ → Option Task → Option Task
as_coded now none = none
as_coded now (some t) = if terminal t.status then some t else some (reclaimed_row now t)

terminal-over : (s : TaskStatus) → terminal s ≡ over s
terminal-over TaskStatus.succeeded = refl
terminal-over TaskStatus.dead = refl
terminal-over TaskStatus.pending = refl
terminal-over TaskStatus.running = refl
terminal-over TaskStatus.failed = refl

reclaimed-as_coded : (now : ℕ) (o : Option Task) → as_coded now o ≡ reclaimed now o
unfolding reclaimed_row
reclaimed-as_coded now none = refl
reclaimed-as_coded now (some t) =
    rw (terminal-over t.status) (elim (Bool-cases (leb t.max_attempts (t.attempts + 1))) [
      | inl h ↦ rw h refl
      | inr h ↦ rw h refl
    ])

-- No two of the texts name the same task.
abbrev pub Apart : (String → Option ℕ) → List String → Type 0
Apart parse [] = Unit
Apart parse (x ∷ xs) =
    All (λ y. (id : ℕ) → parse x ≡ some id → parse y ≢ some id) xs × Apart parse xs

reclaimed_row-id : (now : ℕ) (t : Task) → (reclaimed_row now t).id ≡ t.id
unfolding reclaimed_row
reclaimed_row-id now t = ground arith

apart_miss :
    (parse : String → Option ℕ) (x : String) (id : ℕ) (xs : List String)
    → parse x ≡ some id
    → All (λ y. (i : ℕ) → parse x ≡ some i → parse y ≢ some i) xs
    → All (λ y. parse y ≢ some id) xs
apart_miss parse x id [] p a = tt
apart_miss parse x id (y ∷ ys) p a = (a.0 id p, apart_miss parse x id ys p a.1)

module _ {S : Schema} (now : ℕ) (dead_worker : String) where
  reclaim_row-hit :
      (id : ℕ) (s : Session S) (o : Option Task)
      → S.tasks.find id s.tasks ≡ o
      → S.tasks.find id (reclaim_row now dead_worker o s).tasks ≡ as_coded now o
  unfolding reclaim_row reclaim_task
  reclaim_row-hit id s none h = h
  reclaim_row-hit id s (some t) h = elim (Bool-cases (terminal t.status)) [
    | inl e ↦ rw e h
    | inr e ↦ rw e (find-update S id s.tasks t _ h (reclaimed_row-id now t))
  ]

  reclaim_row-miss :
      (id : ℕ) (s : Session S) (o : Option Task)
      → ((t : Task) → o ≡ some t → t.id ≢ id)
      → S.tasks.find id (reclaim_row now dead_worker o s).tasks ≡ S.tasks.find id s.tasks
  unfolding reclaim_row reclaim_task
  reclaim_row-miss id s none h = refl
  reclaim_row-miss id s (some t) h = elim (Bool-cases (terminal t.status)) [
    | inl e ↦ rw e refl
    | inr e ↦ rw e (
        S.tasks.find_update_ne id (reclaimed_row now t) s.tasks
          (λ k. h t refl (sym (reclaimed_row-id now t) ∙ k)))
  ]

  pub reclaim_id-miss :
      (id : ℕ) (s : Session S) (o : Option ℕ)
      → o ≢ some id
      → S.tasks.find id (reclaim_id now dead_worker o s).tasks ≡ S.tasks.find id s.tasks
  unfolding reclaim_id
  reclaim_id-miss id s none n = refl
  reclaim_id-miss id s (some i) n =
      reclaim_row-miss id s _ (λ t h k. n (ap some (sym (S.tasks.find_key i s.tasks t h) ∙ k)))

  reclaim_id-hit :
      (id : ℕ) (s : Session S) (o : Option ℕ)
      → o ≡ some id
      → S.tasks.find id (reclaim_id now dead_worker o s).tasks
        ≡ as_coded now (S.tasks.find id s.tasks)
  unfolding reclaim_id
  reclaim_id-hit id s none h = absurd (cc)
  reclaim_id-hit id s (some i) h = let e : i ≡ id = cc in rw e (reclaim_row-hit id s _ refl)

  module _ (parse : String → Option ℕ) where
    pub reclaim_ids-miss :
        (id : ℕ) (xs : List String) (s : Session S)
        → All (λ x. parse x ≢ some id) xs
        → S.tasks.find id (reclaim_ids now dead_worker parse xs s).tasks ≡ S.tasks.find id s.tasks
    unfolding reclaim_ids
    reclaim_ids-miss id [] s a = refl
    reclaim_ids-miss id (x ∷ xs) s a =
        reclaim_ids-miss id xs (reclaim_id now dead_worker (parse x) s) a.1
        ∙ reclaim_id-miss id s (parse x) a.0

    -- The rows that the texts name, after the session.
    abbrev pub Named : Session S → Session S → String → Type 0
    Named s s' x =
        (id : ℕ)
        → parse x ≡ some id
        → S.tasks.find id s'.tasks ≡ as_coded now (S.tasks.find id s.tasks)

    Named-skip :
        (x : String) (s s' : Session S) (xs : List String)
        → All (λ y. (i : ℕ) → parse x ≡ some i → parse y ≢ some i) xs
        → All (Named (reclaim_id now dead_worker (parse x) s) s') xs
        → All (Named s s') xs
    Named-skip x s s' [] a n = tt
    Named-skip x s s' (y ∷ ys) a n = (
      λ id p. n.0 id p ∙ ap (as_coded now) (reclaim_id-miss id s (parse x) (λ q. a.0 id q p)),
      Named-skip x s s' ys a.1 n.1,
    )

    pub reclaim_ids-Named :
        (xs : List String) (s : Session S)
        → Apart parse xs
        → All (Named s (reclaim_ids now dead_worker parse xs s)) xs
    unfolding reclaim_ids
    reclaim_ids-Named [] s a = tt
    reclaim_ids-Named (x ∷ xs) s a =
        let s1 = reclaim_id now dead_worker (parse x) s in
        (
          λ id p.
              reclaim_ids-miss id xs s1 (apart_miss parse x id xs p a.0)
              ∙ reclaim_id-hit id s (parse x) p,
          Named-skip x s (reclaim_ids now dead_worker parse xs s1) xs a.0
              (reclaim_ids-Named xs s1 a.1),
        )

coded_all :
    (S : Schema) (now : ℕ) (parse : String → Option ℕ) (before after : S.tasks.Rows)
    (xs : List String)
    → All
        (λ x.
          (id : ℕ)
          → parse x ≡ some id
          → S.tasks.find id after ≡ as_coded now (S.tasks.find id before))
        xs
    → All
        (λ x.
          (id : ℕ)
          → parse x ≡ some id
          → S.tasks.find id after ≡ reclaimed now (S.tasks.find id before))
        xs
coded_all S now parse before after [] a = tt
coded_all S now parse before after (x ∷ xs) a =
    (λ id p. a.0 id p ∙ reclaimed-as_coded now _, coded_all S now parse before after xs a.1)

module _ (S : Schema) {R : Rooms} (parse : String → Option ℕ) (C : Circumstances S)
    (dead_worker : String) where
  -- A reclamation that does not raise has committed the rows of its session.
  committed_rows :
      (ids : List String) (s : Session S) (f g f' : Fleet S R) (n : ℕ) (c : Option Exception)
      (letters : Option S.dead_letters.Rows)
      → after_commit S parse C dead_worker ids s g (commit_session c f.db s letters) ≡ (ok n, f')
      → (db : Db S) × (f'.db ≡ C.others db) × (db.tasks ≡ s.tasks)
  unfolding commit_session after_commit
  committed_rows ids s f g f' n c none h = absurd (cc)
  committed_rows ids s f g f' n (some e) (some rows) h = absurd (cc)
  committed_rows ids s f g f' n none (some rows) h =
      let db = record (f.db) {
        tasks = s.tasks;
        dead_letters = rows;
        events = f.db.events ++ s.events;
      } in
      (db, ap (λ (r : Answer ℕ × Fleet S R). r.1.db) (sym h), refl)

  -- A reclamation that does not raise, and whose texts name different tasks, has committed this:
  -- each row that a text names is unlocked with one more attempt counted, and DEAD if that was the
  -- last one and PENDING otherwise, unless it had SUCCEEDED or was DEAD, which leaves it alone;
  -- and every other row is as it was.
  pub reclaim-exact :
      (show : ℕ → String) (f f' : Fleet S R) (n : ℕ)
      → reclaim_tasks_from_dead_worker S parse show C dead_worker f ≡ (ok n, f')
      → Apart parse (collected S parse show C dead_worker f).ids
      → (db : Db S) × (f'.db ≡ C.others db)
        × All
            (λ x.
              (id : ℕ)
              → parse x ≡ some id
              → S.tasks.find id db.tasks ≡ reclaimed C.now (S.tasks.find id f.db.tasks))
            (collected S parse show C dead_worker f).ids
        × ((id : ℕ)
            → All (λ x. parse x ≢ some id) (collected S parse show C dead_worker f).ids
            → S.tasks.find id db.tasks ≡ S.tasks.find id f.db.tasks)
  unfolding reclaim_tasks_from_dead_worker processed
  reclaim-exact show f f' n h a =
      let ids = (collected S parse show C dead_worker f).ids in
      let s = processed S parse C dead_worker ids f in
      let (db, d, e) = committed_rows ids s f _ f' n C.commit _ h in
      (
        db,
        d,
        rw e (
            coded_all S C.now parse f.db.tasks s.tasks ids
              (reclaim_ids-Named C.now dead_worker parse ids (opened f) a)),
        λ id m. rw e (reclaim_ids-miss C.now dead_worker parse id ids (opened f) m),
      )
