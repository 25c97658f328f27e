-- ===== src/Worker/Process.antt =====
-- `process_task` of src/fairlane/worker/main.py: one message, from the guards on its task id to the
-- `finally` block. `None` of `self.redis` is not modelled: `run` sets it before any message is read.
pub mod Body
pub mod Delivery
pub mod Outcome
pub mod Named
pub mod Attempt
pub mod Lifecycle
pub mod Throttle
pub mod Held
use fairlane.Prelude.{
  ℕ, ◌+◌, ◌-◌, ◌*◌, ◌/◌, String, Bool, true, false, Option, none, some, List, [], ◌∷◌, ◌++◌, str_eq,
  or_else, ◌==◌, if◌then◌else◌,
}
use fairlane.Models.{
  Value, int, float, str, Dict, Task, TaskStatus, TaskEvent, EventType, SideEffect,
}
use fairlane.Retry.{Exception}
use fairlane.Database.{Schema, Db}
use fairlane.Metrics.{
  worker_info, task_wait, task_duration, end_to_end, tasks_completed, tasks_throttled,
}
use fairlane.Worker.State.{
  Action, committed, release_slot, decr_instream, measured, World, Answer, ok, raise, Answers,
  RateLimitResult, Ending, finished, left, raised,
}
use fairlane.Worker.Inject.{Number, number, bad, injected, sleep_time}
use fairlane.Worker.Failure.{may_retry, dead_letter_of, log, ack, handle_failure}

abbrev pub throttle_row : ℕ → Task → Task
throttle_row at t = record t { next_retry_at = some at; status = TaskStatus.pending }

unfoldable pub throttle_event : String → ℕ → ℕ → String → Task → TaskEvent
throttle_event reason delay now worker t = record {
  task_id = t.id;
  event_type = EventType.throttled;
  details =
      ("reason", str reason)
      ∷ ("delay_seconds", float delay)
      ∷ ("tenant_id", str t.tenant_id)
      ∷ ("worker_id", str worker)
      ∷ [];
  created_at = now;
}

unfoldable pub started_row : ℕ → String → Task → Task
started_row now worker t = record t {
  status = TaskStatus.running;
  started_at = some now;
  next_retry_at = none;
  attempts = t.attempts + 1;
  locked_by = some worker;
  locked_at = some now;
}

pub started_event : ℕ → String → Task → TaskEvent
started_event now worker t = record {
  task_id = t.id;
  event_type = EventType.started;
  details = ("worker_id", str worker) ∷ ("attempt", int t.attempts) ∷ [];
  created_at = now;
}

unfoldable pub succeeded_row : ℕ → Task → Task
succeeded_row now t = record t {
  status = TaskStatus.succeeded;
  finished_at = some now;
  next_retry_at = none;
  last_error = none;
  locked_by = none;
  locked_at = none;
}

unfoldable pub succeeded_event : ℕ → ℕ → String → Task → TaskEvent
succeeded_event now slept worker t = record {
  task_id = t.id;
  event_type = EventType.succeeded;
  details =
      ("worker_id", str worker)
      ∷ ("duration_ms", int (if slept == 0 then 500 else slept / 1000))
      ∷ [];
  created_at = now;
}

-- `Task.locked_by == self.worker_id`, on a row of the update's `where`.
unfoldable pub owned_by : String → Task → Bool
owned_by worker t = elim t.locked_by [ none ↦ false | some holder ↦ str_eq holder worker ]

-- INSERT ... ON CONFLICT (task_id) DO UPDATE SET count = count + 1
unfoldable pub upserted :
    (S : Schema) → ℕ → S.side_effects.Rows → Option SideEffect → S.side_effects.Rows
upserted S id rows (some s) = S.side_effects.update (record s { count = s.count + 1 }) rows
upserted S id rows none =
    or_else (S.side_effects.insert (record { task_id = id; count = 1 }) rows) rows

unfoldable pub run_side_effect : {S : Schema} → Task → Db S → Db S
run_side_effect {S} t d =
    if str_eq t.task_type "demo"
    then record d {
      side_effects = upserted S t.id d.side_effects (S.side_effects.find t.id d.side_effects);
    }
    else d

module _ {S : Schema} (worker : String) (A : Answers S) where
  throttle_commit : Task → Db S → String → World S → Option Exception → Ending × World S
  throttle_commit t db m w (some e) = (raised e, w)
  throttle_commit t db m w none = (
    left,
    log (measured (tasks_throttled t.tenant_id) ∷ [])
        (ack m (log (committed ∷ []) (record w { db = db }))),
  )

  -- The task goes back to PENDING with a time to retry at, whatever its status was.
  throttle : String → ℕ → String → Task → World S → Ending × World S
  throttle reason delay m t w =
      throttle_commit t
        (record (w.db) {
          tasks = S.tasks.update (throttle_row (A.start_now + delay) t) w.db.tasks;
          events = w.db.events ++ throttle_event reason delay A.start_now worker t ∷ [];
        })
        m w A.throttle_commit

  finish_commit : Task → ℕ → Db S → String → World S → Option Exception → Ending × World S
  finish_commit t slept db m w (some e) = (raised e, w)
  finish_commit t slept db m w none = (
    finished,
    log
        (measured (task_duration t.task_type (A.finish_now - A.start_now))
          ∷ measured (end_to_end t.tenant_id (A.finish_now - t.created_at))
          ∷ measured (tasks_completed t.tenant_id t.task_type "succeeded")
          ∷ [])
        (ack m (log (committed ∷ []) (record w { db = db }))),
  )

  -- UPDATE tasks ... WHERE id = task.id AND locked_by = self.worker_id. No row: the worker has lost
  -- the task, and nothing of this transaction is committed.
  complete_row : Task → ℕ → String → World S → Db S → Option Task → Ending × World S
  complete_row t slept m w d none = (left, ack m (record w { current_task_id = none }))
  complete_row t slept m w d (some r) =
      if owned_by worker r
      then finish_commit t slept
          (record d {
            tasks = S.tasks.update (succeeded_row A.finish_now r) d.tasks;
            events = d.events ++ succeeded_event A.finish_now slept worker t ∷ [];
          })
          m w A.finish_commit
      else (left, ack m (record w { current_task_id = none }))

  pub complete : Task → ℕ → String → World S → Ending × World S
  complete t slept m w =
      let d = run_side_effect t w.db in complete_row t slept m w d (S.tasks.find t.id d.tasks)

  work : Task → String → World S → Number → Option Exception → Ending × World S
  work t m w (bad e) a = (raised e, w)
  work t m w (number slept) (some e) = (raised e, w)
  work t m w (number slept) none = complete t slept m w

  pub execute : Task → String → World S → Option Exception → Ending × World S
  execute t m w (some e) = (raised e, w)
  execute t m w none = work t m w (sleep_time A.read_float t.payload) A.work

  start_commit : Task → Task → Db S → String → World S → Option Exception → Ending × World S
  start_commit t r db m w (some e) = (raised e, record w { current_task_id = some t.id })
  start_commit t r db m w none =
      execute r m
        (log (committed ∷ measured (worker_info worker "RUNNING" t.task_type) ∷ [])
          (record w { db = A.others db; current_task_id = some t.id }))
        (injected A.read_float A.read_int A.roll r.attempts r.payload)

  -- RUNNING, one more attempt, locked by this worker; then the work.
  pub start : Task → String → World S → Ending × World S
  start t m w =
      let r = started_row A.start_now worker t in
      start_commit t r
        (record (w.db) {
          tasks = S.tasks.update r w.db.tasks;
          events = w.db.events ++ started_event A.start_now worker r ∷ [];
        })
        m
        (log
          (measured (
              task_wait t.tenant_id t.priority
                (A.start_now - or_else t.original_enqueue_at t.created_at))
            ∷ [])
          w)
        A.start_commit

  -- The body of the `try`, with whether a concurrency slot was acquired.
  slot_gate : Task → String → World S → Answer Bool → Bool × (Ending × World S)
  slot_gate t m w (raise e) = (false, (raised e, w))
  slot_gate t m w (ok false) =
      (false, throttle "concurrency" (5_000_000 + A.uniform 100_000 1_000_000) m t w)
  slot_gate t m w (ok true) = (true, start t m w)

  pub rate_gate : Task → String → World S → Answer RateLimitResult → Bool × (Ending × World S)
  rate_gate t m w (raise e) = (false, (raised e, w))
  rate_gate t m w (ok r) = if r.allowed then slot_gate t m w A.slot else (
    false,
    throttle "token_bucket" (r.retry_after_ms * 1000 + A.uniform 100_000 500_000) m t w,
  )

  -- The `finally` block: the slot goes back if it was acquired, and the task leaves the stream count.
  release : Bool → Task → World S → World S
  release slot t w =
      log
        ((if slot then release_slot t.tenant_id t.id ∷ [] else [])
          ++ decr_instream t.tenant_id ∷ measured (worker_info worker "IDLE" "") ∷ [])
        w

  abbrev committed_failure : Bool
  committed_failure = elim A.failure_commit [ none ↦ true | some e ↦ false ]

  -- Whether the columns of `task` can be read after the handler: its rollback expires them, its
  -- query loads them again if the row is there, and a commit of it that raises expires them anew.
  abbrev readable : Exception → World S → Option Task → Bool
  readable e w none = false
  readable e w (some t) =
      if may_retry e t
      then committed_failure
      else (elim (S.dead_letters.insert (dead_letter_of e A.finish_now worker w.db.events t)
          w.db.dead_letters) [ none ↦ false | some rows ↦ committed_failure ])

  -- Where the columns cannot be read, `task.tenant_id` raises in the `finally` block, out of
  -- `process_task`, and `run` logs the exception.
  end_failed : Bool → Bool → Task → World S → World S
  end_failed true slot t w = record (release slot t w) { current_task_id = none }
  end_failed false slot t w = w

  pub end_task : ℕ → String → Task → Bool → Ending → World S → World S
  end_task id m t slot finished w = record (release slot t w) { current_task_id = none }
  end_task id m t slot left w = release slot t w
  end_task id m t slot (raised e) w =
      end_failed (readable e w (S.tasks.find id w.db.tasks)) slot t
        (handle_failure worker A id m e w)

  pub run_task : ℕ → String → World S → Option Task → World S
  run_task id m w none = ack m w
  run_task id m w (some t) = let (slot, r) = rate_gate t m w A.allow in end_task id m t slot r.0 r.1

  pub with_uuid : String → World S → Option ℕ → World S
  with_uuid m w none = ack m w
  with_uuid m w (some id) = run_task id m w (S.tasks.find id w.db.tasks)

  -- `data.get("task_id")` is the argument `task_id`; `uuid.UUID(...)` is `parse_uuid`.
  pub process_task : (String → Option ℕ) → String → Option String → World S → World S
  process_task parse_uuid m none w = ack m w
  process_task parse_uuid m (some task_id) w =
      if str_eq task_id "" then ack m w else with_uuid m w (parse_uuid task_id)
