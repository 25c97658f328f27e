-- ===== src/Tests/Queues.antt =====
-- The theorems on the waiting rooms at concrete inputs.
use fairlane.Prelude.{
  false, ◌∷◌, Option, inr, Bool, ℕ, ◌≤◌, ◌≡◌, max, refl, true, ◌&&◌, none, some, [], ◌++◌, arith,
  length,
}
use fairlane.Models.{Task, TaskStatus, is_pending}
use fairlane.Config.{dispatch_batch_size, max_in_stream_per_tenant}
use fairlane.Answer.{ok}
use fairlane.Scheduler.Queue.{enqueue}
use fairlane.Scheduler.Poll.{unset_or_due, Polling, rebuild_from_postgres, poll_and_requeue}
use fairlane.Scheduler.Poll.Rebuild.{Waits, rebuild-Waits}
use fairlane.Scheduler.Poll.Requeue.{overdue}
use fairlane.Scheduler.Poll.Requeue.Exact.{polled_row, poll_and_requeue-exact}
use fairlane.Scheduler.Loop.{Turn, run_scheduler, run_scheduler-recovers}
use fairlane.Retry.{Exception, ExceptionType}
use fairlane.Scheduler.Dispatch.{dispatch_cycle, target_depth}
use fairlane.Scheduler.Dispatch.{dispatch}
use fairlane.Scheduler.Dispatch.Spec.{view, Dispatched}
use fairlane.Scheduler.Dispatch.Refines.{dispatch-Dispatched}
use fairlane.Scheduler.Dispatch.Bounds.{WithinCap, dispatch_cycle-bounds}
use fairlane.Tests.Fixtures.{schema, rooms, task_of, tasks_with, empty_rooms, two_tenants}

abbrev urgent : Task
urgent = record (task_of 8 "" TaskStatus.pending) { priority = 1; created_at = 20_000_000 }

abbrev waiting : Task
waiting = task_of 7 "" TaskStatus.pending

rebuild-Waits_example :
    (let pass : Task → Bool = λ t. is_pending t.status && unset_or_due 0 t.next_retry_at in
      let (count, after) = rebuild_from_postgres schema 0 (tasks_with waiting) empty_rooms in
      (count ≡ length (schema.tasks.select pass (tasks_with waiting)))
      × ((t : Task)
          → schema.tasks.find t.id (tasks_with waiting) ≡ some t
          → pass t ≡ true
          → Waits {R = rooms} after t))
rebuild-Waits_example = rebuild-Waits schema {R = rooms} 0 (tasks_with waiting) empty_rooms

-- The task may be retried at 3 s, and is polled at 4 s.
abbrev polling : Polling schema rooms
polling = record {
  tasks = tasks_with (record waiting { next_retry_at = some 3_000_000 });
  events = [];
  queue = empty_rooms;
  requeued = 0;
}

poll_and_requeue-exact_example :
    (let (result, after) = poll_and_requeue (λ id. false) 4_000_000 none polling in
      ((id : ℕ)
        → schema.tasks.find id after.tasks
          ≡ polled_row (λ id. false) 4_000_000 (schema.tasks.find id polling.tasks))
      × (result
          ≡ ok (length (schema.tasks.select (overdue (λ id. false) 4_000_000) polling.tasks))))
poll_and_requeue-exact_example = poll_and_requeue-exact (λ id. false) 4_000_000 polling

-- A turn whose commit raises, and one that goes through.
abbrev turn : Option Exception → Turn schema rooms
turn commit = record {
  others = λ p. p;
  locked = λ id. false;
  now = 4_000_000;
  query = none;
  commit = commit;
}

abbrev broken : Exception
broken = record { type = ExceptionType.connection_error; message = "connection lost" }

run_scheduler-recovers_example :
    schema.tasks.find 7 (run_scheduler (turn (some broken) ∷ turn none ∷ []) polling).tasks
    ≡ polled_row (λ id. false) 4_000_000 (schema.tasks.find 7 polling.tasks)
run_scheduler-recovers_example =
    run_scheduler-recovers (turn (some broken) ∷ []) (turn none) polling
      ((λ p. refl, (broken, inr refl)), tt) (λ p. refl) refl refl 7

dispatch_cycle-bounds_example :
    (let (after, ids) = dispatch_cycle 1000 1 (enqueue waiting two_tenants) in
      (after.stream ≡ (enqueue waiting two_tenants).stream ++ ids)
      × (length ids ≤ dispatch_batch_size)
      × (length after.stream ≤ max (length (enqueue waiting two_tenants).stream) (target_depth 1))
      × WithinCap max_in_stream_per_tenant after)
unfolding enqueue
dispatch_cycle-bounds_example =
    dispatch_cycle-bounds 1000 1 (enqueue waiting two_tenants) (λ m. omega arith)

dispatch-Dispatched_example :
    (let q = enqueue waiting two_tenants in
      let (after, ids) = dispatch 1000 5 10 q in Dispatched 1000 5 10 (view q) ids (view after))
dispatch-Dispatched_example = dispatch-Dispatched 1000 5 10 (enqueue waiting two_tenants)
