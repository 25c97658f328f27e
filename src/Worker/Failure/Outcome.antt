-- ===== src/Worker/Failure/Outcome.antt =====
-- What the failure handler of src/fairlane/worker/main.py commits: a retry, a dead letter, or nothing.
use fairlane.Prelude.{ℕ, ◌+◌, String, ◌≡◌, refl, sym, ◌∙◌, true, false, none, some}
use mathlib.Core.Path.{subst}
use fairlane.Models.{Task, DeadLetter}
use fairlane.Retry.{Exception, calculate_backoff, default_base, default_max}
use fairlane.Database.{Schema}
use fairlane.Worker.State.{World, Answers}
use fairlane.Worker.Failure.{
  log, ack, may_retry, retry_row, dead_row, dead_letter_of, commit_failure, schedule_retry,
  dead_lettered_as, dead_letter, record_failure, handle_failure,
}

module _ (S : Schema) (id : ℕ) where
  -- A row written back under the key that it was found by is found there.
  pub find-update :
      (rows : S.tasks.Rows) (t v : Task)
      → S.tasks.find id rows ≡ some t
      → v.id ≡ t.id
      → S.tasks.find id (S.tasks.update v rows) ≡ some v
  find-update rows t v found same =
      let e : v.id ≡ id = same ∙ S.tasks.find_key id rows t found in
      subst (λ k. S.tasks.find k (S.tasks.update v rows) ≡ some v) e
        (S.tasks.find_update_self v t rows
          (subst (λ k. S.tasks.find k rows ≡ some t) (sym e) found))

-- What the handler commits, before the message is acknowledged.
module _ {S : Schema} (worker : String) (A : Answers S) (e : Exception) (t : Task)
    (w : World S) where
  -- The time that a retry is scheduled for.
  abbrev pub retry_time : ℕ
  retry_time = A.finish_now + calculate_backoff A.uniform t.attempts default_base default_max true

  abbrev letter : DeadLetter
  letter = dead_letter_of e A.finish_now worker w.db.events t

  schedule_retry-tasks :
      A.failure_commit ≡ none
      → (schedule_retry worker A e t w).db.tasks
        ≡ S.tasks.update (retry_row e retry_time t) w.db.tasks
  unfolding schedule_retry commit_failure log
  schedule_retry-tasks c = rw (c, commit_failure)

  dead_letter-rows :
      (rows : S.dead_letters.Rows)
      → A.failure_commit ≡ none
      → S.dead_letters.insert letter w.db.dead_letters ≡ some rows
      → ((dead_letter worker A e t w).db.tasks
          ≡ S.tasks.update (dead_row e A.finish_now t) w.db.tasks)
        × ((dead_letter worker A e t w).db.dead_letters ≡ rows)
  unfolding dead_letter dead_lettered_as commit_failure log
  dead_letter-rows rows c i = rw (i, dead_lettered_as) (rw (c, commit_failure) (refl, refl))

  dead_letter-refused :
      S.dead_letters.insert letter w.db.dead_letters ≡ none → (dead_letter worker A e t w).db ≡ w.db
  unfolding dead_letter dead_lettered_as
  dead_letter-refused i = rw (i, dead_lettered_as)

module _ {S : Schema} (worker : String) (A : Answers S) (id : ℕ) (m : String) (e : Exception)
    (w : World S) (t : Task) (found : S.tasks.find id w.db.tasks ≡ some t) where
  handle_failure-db :
      (handle_failure worker A id m e w).db ≡ (record_failure worker A e (some t) w).db
  unfolding handle_failure ack log
  handle_failure-db = rw found

  pub handle_failure-retry :
      may_retry e t ≡ true
      → A.failure_commit ≡ none
      → S.tasks.find id (handle_failure worker A id m e w).db.tasks
        ≡ some (retry_row e (retry_time worker A e t w) t)
  unfolding record_failure retry_row
  handle_failure-retry r c = rw handle_failure-db (
      rw r
        (rw (schedule_retry-tasks worker A e t w c) (find-update S id w.db.tasks t _ found refl)))

  -- A retry leaves the dead letters as they were.
  pub handle_failure-letters :
      may_retry e t ≡ true
      → A.failure_commit ≡ none
      → (handle_failure worker A id m e w).db.dead_letters ≡ w.db.dead_letters
  unfolding record_failure schedule_retry commit_failure log
  handle_failure-letters r c = rw handle_failure-db (rw r (rw (c, commit_failure) refl))

  -- The key of the dead letter is the task's.
  same : t.id ≡ id
  same = S.tasks.find_key id w.db.tasks t found

  pub handle_failure-dead :
      may_retry e t ≡ false
      → A.failure_commit ≡ none
      → S.dead_letters.find id w.db.dead_letters ≡ none
      → (S.tasks.find id (handle_failure worker A id m e w).db.tasks
          ≡ some (dead_row e A.finish_now t))
        × (S.dead_letters.find id (handle_failure worker A id m e w).db.dead_letters
            ≡ some (dead_letter_of e A.finish_now worker w.db.events t))
  unfolding record_failure dead_letter_of dead_row
  handle_failure-dead r c free =
      let l = dead_letter_of e A.finish_now worker w.db.events t in
      let at : S.dead_letters.find t.id w.db.dead_letters ≡ none = rw same free in
      let (rows, i) = S.dead_letters.insert_free l w.db.dead_letters at in
      let (p, q) = dead_letter-rows worker A e t w rows c i in
      rw handle_failure-db (
        rw r (
          rw p (find-update S id w.db.tasks t _ found refl),
          rw q (
              subst (λ k. S.dead_letters.find k rows ≡ some l) same
                (S.dead_letters.find_insert_self l w.db.dead_letters rows i)),
        ))

  -- A dead letter of the task is there already: the insert is refused, and nothing is committed.
  pub handle_failure-refused :
      (d : DeadLetter)
      → may_retry e t ≡ false
      → S.dead_letters.find id w.db.dead_letters ≡ some d
      → (handle_failure worker A id m e w).db ≡ w.db
  unfolding record_failure dead_letter_of
  handle_failure-refused d r taken =
      let l = dead_letter_of e A.finish_now worker w.db.events t in
      let at : S.dead_letters.find t.id w.db.dead_letters ≡ some d = rw same taken in
      rw handle_failure-db (
        rw r (
          dead_letter-refused worker A e t w
            (S.dead_letters.insert_taken l d w.db.dead_letters at)))
