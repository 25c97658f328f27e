-- ===== src/Worker/Process/Lifecycle.antt =====
-- Where `process_task` (src/fairlane/worker/main.py) takes its task: succeeded, pending again, dead.
use fairlane.Prelude.{
  ◌&&◌, ltb, if◌then◌else◌, Bool-cases, inl, inr, ℕ, ◌+◌, ◌<◌, String, ◌≡◌, refl, ap, ◌∙◌, ◌≢◌,
  true, false, Option, none, some,
}
use fairlane.Models.{Task, TaskStatus, DeadLetter, transient_exhausted, permanent}
use fairlane.Retry.{Exception, is_retryable, calculate_backoff, default_base, default_max}
use fairlane.Database.{Schema}
use fairlane.Worker.State.{World, Answers}
use fairlane.Worker.Failure.{may_retry, retry_row, dead_row, dead_letter_of, terminal_category}
use fairlane.Worker.Inject.{injected, sleep_time}
use fairlane.Worker.Process.{started_row, succeeded_row, owned_by, run_task, process_task}
use fairlane.Worker.Process.Delivery.{acquired, named}
use fairlane.Worker.Process.Outcome.{error_of, attempt_error, begun}
use fairlane.Worker.Process.Named.{named-run}
use fairlane.Worker.Process.Attempt.{
  outcome, Undisturbed, outcome-settled, row-outcome, letter-outcome, free-outcome, stuck-outcome,
  lost-outcome,
}

-- What an attempt makes of the row `t`, given the exception that ends it.
abbrev pub attempted : {S : Schema} → String → Answers S → Task → Option Exception → Task
attempted worker A t none = record t {
  status = TaskStatus.succeeded;
  attempts = t.attempts + 1;
  started_at = some A.start_now;
  finished_at = some A.finish_now;
  next_retry_at = none;
  last_error = none;
  locked_by = none;
  locked_at = none;
}
attempted worker A t (some e) =
    if is_retryable e && ltb (t.attempts + 1) t.max_attempts
    then record t {
      status = TaskStatus.pending;
      attempts = t.attempts + 1;
      started_at = some A.start_now;
      next_retry_at = some (
          A.finish_now
          + calculate_backoff A.uniform (t.attempts + 1) default_base default_max true);
      last_error = some e.message;
      locked_by = none;
      locked_at = none;
    }
    else record t {
      status = TaskStatus.dead;
      attempts = t.attempts + 1;
      started_at = some A.start_now;
      finished_at = some A.finish_now;
      next_retry_at = none;
      last_error = some e.message;
      locked_by = none;
      locked_at = none;
    }

outcome-attempted :
    {S : Schema} (worker : String) (A : Answers S) (t : Task) (x : Option Exception)
    → outcome A (started_row A.start_now worker t) x ≡ attempted worker A t x
unfolding outcome started_row may_retry succeeded_row retry_row dead_row
outcome-attempted worker A t none = refl
outcome-attempted worker A t (some e) = refl

-- The exception that ends the attempt on a row that a worker takes up, if any: of the hooks, which
-- see one attempt more than the row has counted, of the sleep time, or of the work.
abbrev pub raised_by : {S : Schema} → Answers S → Task → Option Exception
raised_by A t =
    error_of (injected A.read_float A.read_int A.roll (t.attempts + 1) t.payload)
      (sleep_time A.read_float t.payload) A.work

category_of :
    (e : Exception)
    → terminal_category e ≡ (if is_retryable e then transient_exhausted else permanent)
unfolding terminal_category
category_of e = elim (Bool-cases (is_retryable e)) [ inl h ↦ rw h refl | inr h ↦ rw h refl ]

module _ {S : Schema} (worker : String) (A : Answers S) (parse_uuid : String → Option ℕ)
    (m : String) (task_id : Option String) (w : World S) (t : Task)
    (h : named S parse_uuid task_id w.db ≡ some t) where
  abbrev found : S.tasks.find t.id w.db.tasks ≡ some t
  found = (named-run worker A parse_uuid m task_id w t h).0

  db-run :
      (process_task worker A parse_uuid m task_id w).db ≡ (run_task worker A t.id m w (some t)).db
  db-run = ap (λ v. v.db) (named-run worker A parse_uuid m task_id w t h).1

  -- The row after the attempt, in the words of the code.
  pub process_task-row :
      Undisturbed S A t.id
      → S.dead_letters.find t.id w.db.dead_letters ≡ none
      → S.tasks.find t.id (process_task worker A parse_uuid m task_id w).db.tasks ≡ (
          let r = started_row A.start_now worker t in
          some (outcome A r (attempt_error worker A m r)))
  process_task-row u free = rw db-run (row-outcome worker A m t.id w t found u free)

  -- An undisturbed attempt on a task without a dead letter counts the attempt, unlocks the row and
  -- leaves it so: SUCCEEDED and finished if the attempt raises nothing, PENDING with a retry time
  -- after the backoff if it raises a retryable error and the attempts counted are fewer than the
  -- maximum, and DEAD and finished otherwise; the start and the error are recorded, and every other
  -- column is as it was.
  pub process_task-outcome :
      Undisturbed S A t.id
      → S.dead_letters.find t.id w.db.dead_letters ≡ none
      → S.tasks.find t.id (process_task worker A parse_uuid m task_id w).db.tasks
        ≡ some (attempted worker A t (raised_by A t))
  unfolding started_row
  process_task-outcome u free =
      process_task-row u free ∙ ap some (outcome-attempted worker A t (raised_by A t))

  -- After an undisturbed attempt on a task without a dead letter the row is not RUNNING and not
  -- locked, one attempt was counted, and a row that is PENDING has attempts left and a time to
  -- retry at.
  pub process_task-not_running :
      Undisturbed S A t.id
      → S.dead_letters.find t.id w.db.dead_letters ≡ none
      → (r : Task) × (S.tasks.find t.id (process_task worker A parse_uuid m task_id w).db.tasks
          ≡ some r)
        × (r.status ≢ TaskStatus.running)
        × (r.locked_by ≡ none)
        × (r.attempts ≡ t.attempts + 1)
        × (r.status ≡ TaskStatus.pending
            → (r.attempts < r.max_attempts) × ((at : ℕ) × (r.next_retry_at ≡ some at)))
  process_task-not_running u free =
      let r = started_row A.start_now worker t in
      let x = attempt_error worker A m r in
      let o = outcome-settled A r x in
      (outcome A r x, process_task-row u free, o.0, o.1, o.2 ∙ (unfold started_row in refl), o.3)

  -- The row and the dead letter after an attempt that fails for good, in the words of the code.
  pub process_task-dead_row :
      (e : Exception)
      → Undisturbed S A t.id
      → S.dead_letters.find t.id w.db.dead_letters ≡ none
      → attempt_error worker A m (started_row A.start_now worker t) ≡ some e
      → may_retry e (started_row A.start_now worker t) ≡ false
      → (S.tasks.find t.id (process_task worker A parse_uuid m task_id w).db.tasks
          ≡ some (dead_row e A.finish_now (started_row A.start_now worker t)))
        × (S.dead_letters.find t.id (process_task worker A parse_uuid m task_id w).db.dead_letters
            ≡ some (
                dead_letter_of e A.finish_now worker
                  (begun worker A m t w).db.events
                  (started_row A.start_now worker t)))
  unfolding outcome
  process_task-dead_row e u free p r = (
    rw db-run (row-outcome worker A m t.id w t found u free ∙ rw p (rw r)),
    rw db-run (letter-outcome worker A m t.id w t found e u free p r),
  )

  -- An undisturbed attempt on a task without a dead letter that raises an error which is not
  -- retryable, or that was the last one allowed, leaves the row DEAD, finished, unlocked, with the
  -- attempt counted and the error recorded, and a dead letter of the task that names its tenant, its
  -- type, the error, the attempts counted and the time, has not been replayed, and has the category
  -- PERMANENT for an error that is not retryable and TRANSIENT_EXHAUSTED for another.
  pub process_task-dead_letter :
      (e : Exception)
      → Undisturbed S A t.id
      → S.dead_letters.find t.id w.db.dead_letters ≡ none
      → raised_by A t ≡ some e
      → (is_retryable e && ltb (t.attempts + 1) t.max_attempts) ≡ false
      → (d : DeadLetter) × (S.tasks.find t.id
            (process_task worker A parse_uuid m task_id w).db.tasks
          ≡ some (record t {
            status = TaskStatus.dead;
            attempts = t.attempts + 1;
            started_at = some A.start_now;
            finished_at = some A.finish_now;
            next_retry_at = none;
            last_error = some e.message;
            locked_by = none;
            locked_at = none;
          }))
        × (S.dead_letters.find t.id (process_task worker A parse_uuid m task_id w).db.dead_letters
            ≡ some d)
        × (d.task_id ≡ t.id)
        × (d.tenant_id ≡ t.tenant_id)
        × (d.task_type ≡ t.task_type)
        × (d.failure_category ≡ (if is_retryable e then transient_exhausted else permanent))
        × (d.last_error ≡ some e.message)
        × (d.attempts_made ≡ t.attempts + 1)
        × (d.dead_at ≡ A.finish_now)
        × (d.replayed_at ≡ none)
        × (d.replay_count ≡ 0)
  unfolding started_row may_retry dead_row dead_letter_of
  process_task-dead_letter e u free p r =
      let (row, letter) = process_task-dead_row e u free p r in
      (_, row, letter, refl, refl, refl, category_of e, refl, refl, refl, refl, refl)

  -- An undisturbed attempt that is scheduled again leaves a task without a dead letter without one.
  pub process_task-free :
      (e : Exception)
      → Undisturbed S A t.id
      → S.dead_letters.find t.id w.db.dead_letters ≡ none
      → attempt_error worker A m (started_row A.start_now worker t) ≡ some e
      → may_retry e (started_row A.start_now worker t) ≡ true
      → S.dead_letters.find t.id (process_task worker A parse_uuid m task_id w).db.dead_letters
        ≡ none
  process_task-free e u free p r = rw db-run (free-outcome worker A m t.id w t found e u free p r)

  -- A task that has a dead letter already, as every replayed task has, stays RUNNING and locked by
  -- this worker when an undisturbed attempt on it fails for good: its row is the started one.
  pub process_task-stuck :
      (e : Exception) (d : DeadLetter)
      → Undisturbed S A t.id
      → S.dead_letters.find t.id w.db.dead_letters ≡ some d
      → raised_by A t ≡ some e
      → (is_retryable e && ltb (t.attempts + 1) t.max_attempts) ≡ false
      → S.tasks.find t.id (process_task worker A parse_uuid m task_id w).db.tasks
        ≡ some (record t {
          status = TaskStatus.running;
          started_at = some A.start_now;
          next_retry_at = none;
          attempts = t.attempts + 1;
          locked_by = some worker;
          locked_at = some A.start_now;
        })
  unfolding started_row may_retry
  process_task-stuck e d u taken p r =
      rw db-run (stuck-outcome worker A m t.id w t found e d u taken p r)

  -- A worker that finishes its work on a task whose row has another owner by then commits nothing
  -- more: the database is as the other processes left it.
  pub process_task-discards :
      (r : Task)
      → acquired A ≡ true
      → A.start_commit ≡ none
      → attempt_error worker A m (started_row A.start_now worker t) ≡ none
      → S.tasks.find t.id (begun worker A m t w).db.tasks ≡ some r
      → owned_by worker r ≡ false
      → (process_task worker A parse_uuid m task_id w).db ≡ (begun worker A m t w).db
  process_task-discards r g c p f lost =
      db-run ∙ lost-outcome worker A m t.id w t found r g c p f lost
