-- ===== src/Scheduler/Poll.antt =====
-- `rebuild_from_postgres` and `_poll_and_requeue` of src/fairlane/scheduler/__init__.py: the
-- waiting rooms filled again from the table of tasks, and the retries whose time has come.
pub mod Rebuild
pub mod Requeue
pub mod Held
use fairlane.Prelude.{length}
use fairlane.Prelude.{
  ℕ, zero, suc, ◌+◌, String, Bool, true, false, ◌&&◌, not, Option, none, some, List, [], ◌∷◌, ◌++◌,
  leb, or_else, if◌then◌else◌,
}
use fairlane.Models.{Task, TaskEvent, EventType, Dict, str, time, is_pending}
use fairlane.Retry.{Exception}
use fairlane.Answer.{Answer, ok, raise}
use fairlane.Database.{Schema}
use fairlane.Scheduler.Queue.{Rooms, Queue, enqueue}

-- `next_retry_at IS NULL OR next_retry_at <= now`, and `next_retry_at <= now`.
abbrev pub unset_or_due : ℕ → Option ℕ → Bool
unset_or_due now none = true
unset_or_due now (some at) = leb at now

abbrev pub due : ℕ → Option ℕ → Bool
due now none = false
due now (some at) = leb at now

-- `task.original_enqueue_at` if it is set, and else `task.created_at`.
abbrev pub original : Task → Option ℕ
original t = some (or_else t.original_enqueue_at t.created_at)

unfoldable pub requeued_row : Task → Task
requeued_row t = record t { next_retry_at = none; original_enqueue_at = original t }

requeued_event : ℕ → Task → TaskEvent
requeued_event now t = record {
  task_id = t.id;
  event_type = EventType.requeued;
  details = ("reason", str "retry timer elapsed") ∷ ("requeued_at", time now) ∷ [];
  created_at = now;
}

module _ {R : Rooms} where
  -- `for task in tasks: await enqueue(task); requeued += 1`
  pub enqueue_all : List Task → Queue R → Queue R
  enqueue_all [] q = q
  enqueue_all (t ∷ ts) q = enqueue_all ts (enqueue t q)

-- The number that was enqueued, and the waiting rooms after it.
pub rebuild_from_postgres : (S : Schema) {R : Rooms} → ℕ → S.tasks.Rows → Queue R → ℕ × Queue R
rebuild_from_postgres S now rows q =
    let tasks =
      S.tasks.select (λ t. is_pending t.status && unset_or_due now t.next_retry_at) rows in
    (length tasks, enqueue_all tasks q)

-- The session and the waiting rooms while the poll goes through the overdue rows.
pub record Polling (S : Schema) (R : Rooms) : Type 0 where
  pub tasks : S.tasks.Rows
  pub events : List TaskEvent
  pub queue : Queue R
  pub requeued : ℕ

module _ {S : Schema} {R : Rooms} where
  unfoldable pub requeue : ℕ → Task → Polling S R → Polling S R
  unfolding requeued_event
  requeue now t p = record p {
    tasks = S.tasks.update (requeued_row t) p.tasks;
    events = p.events ++ requeued_event now t ∷ [];
    queue = enqueue (requeued_row t) p.queue;
    requeued = suc p.requeued;
  }

  unfoldable pub requeue_all : ℕ → List Task → Polling S R → Polling S R
  requeue_all now [] p = p
  requeue_all now (t ∷ ts) p = requeue_all now ts (requeue now t p)

  -- What the poll leaves: it commits if it requeued anything. If the commit raises, the rows stay
  -- as they were, but the tasks have been put into their waiting rooms.
  pub end_poll : Option Exception → Polling S R → Polling S R → ℕ → Answer ℕ × Polling S R
  end_poll commit before after zero = (ok 0, after)
  end_poll none before after (suc n) = (ok (suc n), after)
  end_poll (some e) before after (suc n) = (raise e, record before { queue = after.queue })

  -- `locked` tells the rows that other transactions have locked, which FOR UPDATE SKIP LOCKED skips.
  pub poll_and_requeue : (ℕ → Bool) → ℕ → Option Exception → Polling S R → Answer ℕ × Polling S R
  poll_and_requeue locked now commit before =
      let tasks =
        S.tasks.select (λ t. is_pending t.status && (due now t.next_retry_at && not (locked t.id)))
          before.tasks in
      let after = requeue_all now tasks (record before { requeued = 0 }) in
      end_poll commit before after after.requeued
