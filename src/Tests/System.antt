-- ===== src/Tests/System.antt =====
-- A run of the whole system, and the theorems on runs applied to it.
use fairlane.Retry.{ExceptionType}
use fairlane.System.Retries.{Attempt, IsCalm, attempts, Settled}
use fairlane.System.Retries.Settles.{attempts-Settled}
use fairlane.Worker.State.{Answers}
use fairlane.Prelude.{false, ◌≢◌, true, arith, refl, ◌≡◌, none, some, [], ◌∷◌}
use fairlane.Models.{str, TaskStatus}
use fairlane.Database.{Db}
use fairlane.Worker.Inject.{injected, sleep_time}
use fairlane.Worker.Process.{started_row, process_task}
use fairlane.Api.Service.{Service}
use fairlane.Api.Tasks.{
  TaskCreate, new_task, existing, unless_existing, check_quota, pending_count, store, submitted,
  create_task,
}
use fairlane.System.Journey.{done_row, create_task-process_task}
use fairlane.Api.Replay.{replay_dead_letter}
use fairlane.System.Rowwise.{Everywhere, Grows}
use fairlane.System.Persists.{Persists}
use fairlane.System.Run.{Run, Run-Persists, Run-Grows}
use mathlib.Core.Logic.{◌↔◌}
use fairlane.Chaos.{check_invariants}
use fairlane.Chaos.Exact.{IsFinished, check_invariants-exact}
use fairlane.Chaos.Safe.{IsRecorded, passed, Run-check_invariants}
use fairlane.Tests.Fixtures.{
  calm, schema, rooms, no_letters, empty_rooms, quiet, parse, task_of, world_of,
}
use fairlane.Tests.Requests.{request, order}

-- No row at all.
abbrev blank : Db schema
blank = record {
  tasks = ([], λ k. none);
  dead_letters = no_letters;
  side_effects = ([], λ k. none);
  workers = ([], λ k. none);
  tenant_limits = ([], λ k. none);
  events = [];
}

abbrev service : Db schema → Service schema rooms
service d = record { db = d; queue = empty_rooms; metrics = [] }

-- A task that fails for good is submitted and processed, and its dead letter replayed.
abbrev failing : TaskCreate
failing = record order { payload = ("fail_type", str "permanent") ∷ [] }

abbrev submitted_db : Db schema
submitted_db = (create_task (request 7) failing (service blank)).1.db

abbrev processed : Db schema
processed =
    (process_task "w" (quiet (λ d. d)) parse "1-0" (some "7")
      (record { db = submitted_db; current_task_id = none; trace = [] })).db

abbrev replayed : Db schema
replayed = (replay_dead_letter 7 none 9_000_000 none none (service processed)).1.db

whole-Run : Run schema rooms blank processed
whole-Run =
    Run.process "w" (quiet (λ d. d)) parse "1-0" (some "7")
      (record { db = submitted_db; current_task_id = none; trace = [] }) (λ e. Run.here)
      (Run.create (request 7) failing (service blank) Run.here)

replay-Run : Run schema rooms processed replayed
replay-Run = Run.replay 7 none 9_000_000 none none (service processed) Run.here

Run-Persists_example : Persists schema processed.tasks replayed.tasks
Run-Persists_example = Run-Persists replay-Run

Run-check_invariants_example :
    (let report = check_invariants (λ ts. []) processed in
      Everywhere schema (IsRecorded schema) processed
      × (report.dlq_correctness ≡ passed)
      × (report.at_least_once ≡ passed)
      × (report.event_order ≡ passed))
Run-check_invariants_example = Run-check_invariants (λ ts. []) whole-Run (λ id t f. absurd (cc))

Run-Grows_example : Grows schema processed replayed
Run-Grows_example = Run-Grows replay-Run

-- The same request without a failure.
abbrev accepted : Service schema rooms
accepted = (create_task (request 7) order (service blank)).1

create_task-process_task_example :
    schema.tasks.find 7
      (process_task "w"
        (quiet (λ d. d))
        parse
        "1-0"
        (some "7")
        (record { db = accepted.db; current_task_id = none; trace = [] })).db.tasks
    ≡ some (done_row (request 7) order (quiet (λ d. d)))
unfolding create_task existing unless_existing check_quota pending_count store submitted new_task
    started_row injected sleep_time
create_task-process_task_example =
    create_task-process_task (request 7) order (service blank) accepted 7 "w" (quiet (λ d. d)) parse
      "1-0" (some "7") (record { db = accepted.db; current_task_id = none; trace = [] }) refl refl
      refl refl refl calm refl

-- The work times out in both attempts that are left.
abbrev late : Answers schema
late = record (quiet (λ d. d)) {
  work = some (record { type = ExceptionType.timeout_error; message = "late" });
}

abbrev late_attempt : Attempt schema rooms
late_attempt = record {
  worker = "w";
  answers = late;
  message = "1-0";
  task_id = some "7";
  polled_at = 99_000_000;
  locked = λ id. false;
  queue = empty_rooms;
}

abbrev late_calm : IsCalm {S = schema} parse 7 late_attempt
late_calm = (
  λ d. refl,
  record {
    gate = refl;
    start_commit = refl;
    finish_commit = refl;
    failure_commit = refl;
    task_kept = λ d. refl;
    letter_kept = λ d. refl;
  },
)

attempts-Settled_example : Settled 7 3 (
    attempts parse 7
      (late_attempt ∷ late_attempt ∷ [])
      (world_of (task_of 7 "" TaskStatus.pending) no_letters))
attempts-Settled_example =
    attempts-Settled parse 7 (late_attempt ∷ late_attempt ∷ [])
      (world_of (task_of 7 "" TaskStatus.pending) no_letters) (task_of 7 "" TaskStatus.pending) refl
      refl (omega arith) (late_calm, (late_calm, tt)) (omega arith)

check_invariants-exact_example :
    (let report = check_invariants (λ ts. []) processed in
      ((report.no_loss.pass ≡ true) ↔ Everywhere schema (λ e t. IsFinished t) processed)
      × ((report.no_ghost_state.pass ≡ true)
          ↔ Everywhere schema (λ e t. t.status ≢ TaskStatus.running) processed)
      × (((report.dlq_correctness.pass ≡ true)
            × (report.at_least_once.pass ≡ true)
            × (report.event_order.pass ≡ true))
          ↔ Everywhere schema (IsRecorded schema) processed))
check_invariants-exact_example = check_invariants-exact (λ ts. []) processed
