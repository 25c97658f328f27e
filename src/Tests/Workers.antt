-- ===== src/Tests/Workers.antt =====
-- The theorems on the worker at concrete inputs.
use fairlane.Prelude.{none, ◌+◌, if◌then◌else◌, ◌+◌, ◌≡◌, refl, some, if◌then◌else◌}
use fairlane.Models.{DeadLetter, transient_exhausted, permanent, Task, TaskStatus}
use fairlane.Retry.{Exception, ExceptionType, is_retryable}
use fairlane.Database.{Db}
use fairlane.Worker.Inject.{injected, sleep_time}
use fairlane.Worker.State.{World, Answers}
use fairlane.Worker.Failure.{log}
use fairlane.Worker.Process.{started_row, owned_by, process_task}
use fairlane.Worker.Process.Outcome.{begun}
use fairlane.Worker.Process.Lifecycle.{
  attempted, raised_by, process_task-outcome, process_task-dead_letter, process_task-stuck,
  process_task-discards,
}
use fairlane.Tests.Fixtures.{
  calm, schema, task_of, letter, letters_with, no_letters, tasks_with, world_of, quiet, parse,
}

abbrev doomed : Task
doomed = task_of 7 "permanent" TaskStatus.pending

abbrev fresh : World schema
fresh = world_of doomed no_letters

abbrev replayed : World schema
replayed = world_of doomed (letters_with letter)

abbrev alone : Answers schema
alone = quiet (λ d. d)

abbrev unlucky : Exception
unlucky = record {
  type = ExceptionType.value_error;
  message = "Injected permanent failure: payload 'fail_type' is 'permanent'";
}

process_task-outcome_example :
    schema.tasks.find 7 (process_task "w" alone parse "1-0" (some "7") fresh).db.tasks
    ≡ some (attempted "w" alone doomed (raised_by alone doomed))
process_task-outcome_example =
    process_task-outcome "w" alone parse "1-0" (some "7") fresh doomed refl calm refl

process_task-dead_letter_example :
    (d : DeadLetter) × (schema.tasks.find 7
        (process_task "w" alone parse "1-0" (some "7") fresh).db.tasks
      ≡ some (attempted "w" alone doomed (some unlucky)))
    × (schema.dead_letters.find 7
          (process_task "w" alone parse "1-0" (some "7") fresh).db.dead_letters
        ≡ some d)
    × (d.task_id ≡ 7)
    × (d.tenant_id ≡ doomed.tenant_id)
    × (d.task_type ≡ doomed.task_type)
    × (d.failure_category ≡ (if is_retryable unlucky then transient_exhausted else permanent))
    × (d.last_error ≡ some unlucky.message)
    × (d.attempts_made ≡ doomed.attempts + 1)
    × (d.dead_at ≡ 6_000_000)
    × (d.replayed_at ≡ none)
    × (d.replay_count ≡ 0)
unfolding injected is_retryable
process_task-dead_letter_example =
    process_task-dead_letter "w" alone parse "1-0" (some "7") fresh doomed refl unlucky calm refl
      refl refl

process_task-stuck_example :
    schema.tasks.find 7 (process_task "w" alone parse "1-0" (some "7") replayed).db.tasks
    ≡ some (record doomed {
      status = TaskStatus.running;
      started_at = some 5_000_000;
      next_retry_at = none;
      attempts = doomed.attempts + 1;
      locked_by = some "w";
      locked_at = some 5_000_000;
    })
unfolding injected is_retryable
process_task-stuck_example =
    process_task-stuck "w" alone parse "1-0" (some "7") replayed doomed refl unlucky letter calm
      refl refl refl

abbrev healthy : Task
healthy = task_of 7 "" TaskStatus.pending

-- Meanwhile the reaper has given the task to another worker.
abbrev steal : Db schema → Db schema
steal d = record d { tasks = tasks_with (record (started_row 1 "v" healthy) { attempts = 3 }) }

abbrev robbed : Answers schema
robbed = quiet steal

process_task-discards_example :
    (process_task "w" robbed parse "1-0" (some "7") (world_of healthy no_letters)).db
    ≡ (begun "w" robbed "1-0" healthy (world_of healthy no_letters)).db
unfolding started_row injected owned_by sleep_time log
process_task-discards_example =
    process_task-discards "w" robbed parse "1-0" (some "7") (world_of healthy no_letters) healthy
      refl (record (started_row 1 "v" healthy) { attempts = 3 }) refl refl refl refl refl
