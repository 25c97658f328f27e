-- ===== src/Tests/Requests.antt =====
-- The theorems on the HTTP interface, and on categories and throttling, at concrete inputs.
use fairlane.Prelude.{◌⊎◌, ℕ, ◌<◌, ◌≡◌, refl, false, none, some, []}
use fairlane.Models.{Task, TaskStatus, DeadLetter}
use fairlane.Config.{max_pending_per_tenant}
use fairlane.Answer.{ok}
use fairlane.Worker.State.{Answers}
use fairlane.Worker.Process.{started_row, process_task}
use fairlane.Worker.Process.Throttle.{process_task-throttles}
use fairlane.Api.Service.{sent, http, Service}
use fairlane.Api.Tasks.{
  TaskCreate, Request, new_task, existing, pending_count, create_task, unless_existing, check_quota,
  store, submitted,
}
use fairlane.Api.Tasks.Created.{submitted_row, Stored, create_task-stores, create_task-idempotent}
use fairlane.Api.Replay.{replay_dead_letter}
use fairlane.Api.Replay.Replayed.{Replayed, body_of, replay_dead_letter-exact}
use fairlane.Tests.Fixtures.{
  schema, rooms, task_of, db_of, no_letters, letters_with, letter, empty_rooms, world_of, quiet,
  parse,
}

-- No slot is free.
abbrev crowded : Answers schema
crowded = record (quiet (λ d. d)) { slot = ok false }

-- A task that has succeeded is pending again.
process_task-throttles_example :
    schema.tasks.find 7
      (process_task "w" crowded parse "1-0"
        (some "7")
        (world_of (task_of 7 "" TaskStatus.succeeded) no_letters)).db.tasks
    ≡ some (record (task_of 7 "" TaskStatus.succeeded) {
      status = TaskStatus.pending;
      next_retry_at = some 11_000_000;
    })
process_task-throttles_example =
    process_task-throttles "w" crowded parse "1-0" (some "7")
      (world_of (task_of 7 "" TaskStatus.succeeded) no_letters) (task_of 7 "" TaskStatus.succeeded)
      6_000_000 refl refl refl

abbrev service : Task → schema.dead_letters.Rows → Service schema rooms
service t letters = record { db = db_of t letters; queue = empty_rooms; metrics = [] }

abbrev pub idle : Service schema rooms
idle = service (task_of 7 "" TaskStatus.succeeded) no_letters

abbrev pub request : ℕ → Request
request id = record {
  new_id = id;
  now = 3_000_000;
  flush = none;
  commit = none;
  refresh = none;
  redis = none;
}

abbrev pub order : TaskCreate
order = record {
  tenant_id = "a";
  task_type = "demo";
  payload = [];
  priority = 5;
  idempotency_key = some "k";
}

abbrev ordered : Service schema rooms
ordered = (create_task (request 8) order idle).1

create_task-stores_example :
    Stored (request 8) order idle 8 ordered
    × (pending_count "a" idle.db < max_pending_per_tenant)
    × (schema.tasks.find 8 ordered.db.tasks ≡ some (submitted_row (request 8) order))
unfolding create_task existing unless_existing check_quota pending_count store submitted new_task
create_task-stores_example = create_task-stores (request 8) order idle ordered 8 refl refl

-- The same a moment later, with the task at work.
abbrev busy : Service schema rooms
busy = record ordered {
  db = record (ordered.db) {
    tasks =
        schema.tasks.update (started_row 4_000_000 "w" (new_task (request 8) order))
          ordered.db.tasks;
  };
}

create_task-idempotent_example : create_task (request 9) order busy ≡ (sent 8, busy)
unfolding create_task existing unless_existing check_quota pending_count store submitted new_task
    started_row
create_task-idempotent_example =
    create_task-idempotent (request 8) (request 9) order order idle ordered busy "k" 8 (refl, refl)
      (refl, refl) refl refl

abbrev failed : Service schema rooms
failed = service (task_of 7 "" TaskStatus.dead) (letters_with letter)

abbrev again : Service schema rooms
again = (replay_dead_letter 7 none 5_000_000 none none failed).1

replay_dead_letter-exact_example :
    ((i : ℕ)
      → replay_dead_letter 7 none 5_000_000 none none failed ≡ (sent i, again)
      → (t : Task) × ((d : DeadLetter) × Replayed (body_of none) 5_000_000 7 failed i again t d))
    × ((code : ℕ)
        → replay_dead_letter 7 none 5_000_000 none none failed ≡ (http code, again)
        → ((code ≡ 404) ⊎ (code ≡ 409)) × (again ≡ failed))
replay_dead_letter-exact_example = replay_dead_letter-exact 7 none 5_000_000 none none failed again
