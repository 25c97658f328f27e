-- ===== src/Worker/Failure.antt =====
-- The `except` branch of `process_task` (src/fairlane/worker/main.py): a failed attempt is either
-- scheduled again or moved to the dead-letter queue.
pub mod Delivery
pub mod Outcome
pub mod Category
pub mod Held
use fairlane.Prelude.{
  ℕ, ◌+◌, String, Bool, true, false, ◌&&◌, not, Option, none, some, List, [], ◌∷◌, ◌++◌, ltb, ◌==◌,
  if◌then◌else◌,
}
use fairlane.Models.{
  int, float, str, time, category, bool, Dict, get, Task, TaskStatus, TaskEvent, EventType,
  DeadLetter, FailureCategory, transient_exhausted, permanent,
}
use fairlane.Retry.{
  Exception, is_retryable, class_name, calculate_backoff, default_base, default_max,
}
use fairlane.Database.{Schema, Db}
use fairlane.Metrics.{task_retries, tasks_completed, dlq_total}
use fairlane.Worker.State.{Action, committed, xack, xdel, measured, World, Answers, push}
use fairlane.Worker.Inject.{truthy}

module _ {S : Schema} where
  unfoldable pub log : List Action → World S → World S
  log l w = record w { trace = push l w.trace }

  -- XACK and XDEL of the message.
  unfoldable pub ack : String → World S → World S
  ack m = log (xack m ∷ xdel m ∷ [])

-- The handler may schedule a retry if the error is retryable and attempts remain.
unfoldable pub may_retry : Exception → Task → Bool
may_retry e t = is_retryable e && ltb t.attempts t.max_attempts

-- `evt.event_type in ("RETRY_SCHEDULED", "FAILED") and evt.details.get("error")`
unfoldable pub is_error_event : TaskEvent → Bool
unfolding get truthy
is_error_event v = kind v.event_type && truthy (get "error" v.details)
  where
    kind : EventType → Bool
    kind EventType.retry_scheduled = true
    kind EventType.failed = true
    kind _ = false

history_entry : TaskEvent → Dict
unfolding get
history_entry v =
    ("attempt", get "attempt" v.details)
    ∷ ("error", get "error" v.details)
    ∷ ("timestamp", time v.created_at)
    ∷ []

-- The error history of a task: its error events, then the error at hand.
unfoldable pub error_history : ℕ → List TaskEvent → Dict → List Dict
unfolding is_error_event history_entry
error_history id [] last = last ∷ []
error_history id (v ∷ vs) last =
    let rest = error_history id vs last in
    if v.task_id == id && is_error_event v then history_entry v ∷ rest else rest

unfoldable pub error_entry : Exception → Task → String → ℕ → Dict
error_entry e t worker now =
    ("attempt", int t.attempts)
    ∷ ("error", str e.message)
    ∷ ("error_type", str (class_name e.type))
    ∷ ("timestamp", time now)
    ∷ ("worker_id", str worker)
    ∷ []

unfoldable pub retry_row : Exception → ℕ → Task → Task
retry_row e at t = record t {
  status = TaskStatus.pending;
  next_retry_at = some at;
  last_error = some e.message;
  locked_by = none;
  locked_at = none;
}

unfoldable pub retry_event : Exception → ℕ → ℕ → String → Task → TaskEvent
retry_event e delay now worker t = record {
  task_id = t.id;
  event_type = EventType.retry_scheduled;
  details =
      ("error", str e.message)
      ∷ ("worker_id", str worker)
      ∷ ("attempt", int t.attempts)
      ∷ ("max_attempts", int t.max_attempts)
      ∷ ("delay_seconds", float delay)
      ∷ ("next_retry_at", time (now + delay))
      ∷ [];
  created_at = now;
}

unfoldable pub dead_row : Exception → ℕ → Task → Task
dead_row e now t = record t {
  status = TaskStatus.dead;
  finished_at = some now;
  next_retry_at = none;
  last_error = some e.message;
  locked_by = none;
  locked_at = none;
}

-- The category that the handler assigns to a terminal failure.
unfoldable pub terminal_category : Exception → FailureCategory
terminal_category e = if not (is_retryable e) then permanent else transient_exhausted

unfoldable pub dead_letter_of : Exception → ℕ → String → List TaskEvent → Task → DeadLetter
unfolding error_history error_entry terminal_category
dead_letter_of e now worker events t = record {
  task_id = t.id;
  tenant_id = t.tenant_id;
  task_type = t.task_type;
  failure_category = terminal_category e;
  last_error = some e.message;
  error_history = error_history t.id events (error_entry e t worker now);
  attempts_made = t.attempts;
  dead_at = now;
  replayed_at = none;
  replay_count = 0;
}

unfoldable pub dead_event : Exception → ℕ → String → Task → TaskEvent
unfolding terminal_category is_retryable
dead_event e now worker t = record {
  task_id = t.id;
  event_type = EventType.dead_lettered;
  details =
      ("error", str e.message)
      ∷ ("error_type", str (class_name e.type))
      ∷ ("worker_id", str worker)
      ∷ ("attempt", int t.attempts)
      ∷ ("max_attempts", int t.max_attempts)
      ∷ ("failure_category", category (terminal_category e))
      ∷ ("retryable", bool (is_retryable e))
      ∷ [];
  created_at = now;
}

module _ {S : Schema} (worker : String) (A : Answers S) where
  -- A commit that raises is logged by the handler and leaves the database as it was.
  commit_failure : Db S → List Action → World S → World S
  commit_failure db after w = elim A.failure_commit [
    | some e ↦ w
    | none ↦ log (committed ∷ after) (record w { db = db })
  ]

  schedule_retry : Exception → Task → World S → World S
  schedule_retry e t w =
      let delay = calculate_backoff A.uniform t.attempts default_base default_max true in
      let at = A.finish_now + delay in
      commit_failure
        (record (w.db) {
          tasks = S.tasks.update (retry_row e at t) w.db.tasks;
          events = w.db.events ++ retry_event e delay A.finish_now worker t ∷ [];
        })
        (measured (task_retries t.tenant_id t.task_type) ∷ []) w

  -- `dead_letters.task_id` is unique: an insert that is refused makes the commit raise.
  dead_lettered_as : Exception → Task → World S → Option S.dead_letters.Rows → World S
  dead_lettered_as e t w none = w
  dead_lettered_as e t w (some rows) =
      commit_failure
        (record (w.db) {
          tasks = S.tasks.update (dead_row e A.finish_now t) w.db.tasks;
          dead_letters = rows;
          events = w.db.events ++ dead_event e A.finish_now worker t ∷ [];
        })
        (measured (tasks_completed t.tenant_id t.task_type "dead")
          ∷ measured (dlq_total t.tenant_id (terminal_category e))
          ∷ [])
        w

  dead_letter : Exception → Task → World S → World S
  dead_letter e t w =
      dead_lettered_as e t w (
        S.dead_letters.insert (dead_letter_of e A.finish_now worker w.db.events t)
          w.db.dead_letters)

  -- The row is read again after the rollback. A row that is gone is left alone.
  record_failure : Exception → Option Task → World S → World S
  record_failure e none w = w
  record_failure e (some t) w = if may_retry e t then schedule_retry e t w else dead_letter e t w

  -- The whole `except` branch.
  pub handle_failure : ℕ → String → Exception → World S → World S
  handle_failure id m e w = ack m (record_failure e (S.tasks.find id w.db.tasks) w)
