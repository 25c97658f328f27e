-- ===== src/Tests/Daemons.antt =====
-- The theorems on the worker's loop, its heartbeat and the detection, at concrete inputs.
use fairlane.Prelude.{In, ◌≡◌, refl, String, true, false, none, some, [], ◌∷◌, List, inl}
use fairlane.Models.{Task, TaskStatus, Worker, WorkerStatus, bool, get}
use fairlane.Answer.{ok}
use fairlane.Database.{Db}
use fairlane.Worker.Inject.{is_true}
use fairlane.Worker.Loop.{Message, process_messages}
use fairlane.Worker.Loop.Exhausts.{IsAttempt, IsExhausted, process_messages-exhausts}
use fairlane.Worker.Daemon.{Daemon, Beat, heartbeat_loop}
use fairlane.Worker.Daemon.Undetected.{HasStatus, heartbeat_loop-undetected}
use fairlane.Reaper.Reclaim.{Fleet}
use fairlane.Reaper.Cycle.{detect_and_mark_dead_workers}
use fairlane.Reaper.Spares.{detect-spares}
use fairlane.Tests.Fixtures.{
  calm, schema, rooms, task_of, db_of, no_letters, world_of, quiet, parse, empty_rooms,
}

-- One attempt of three is made, and the payload fails all of them.
abbrev hopeless : Task
hopeless = record (task_of 7 "" TaskStatus.pending) { payload = ("fail", bool true) ∷ [] }

abbrev message : String → Message schema
message m = record {
  message_id = m;
  task_id = some "7";
  stopping = false;
  answers = quiet (λ d. d);
}

abbrev attempt : (m : String) → IsAttempt "w" parse 7 (message m)
attempt m = record { goes_on = refl; undisturbed = calm; names = λ d. refl }

process_messages-exhausts_example :
    IsExhausted "w" parse 7 hopeless
      (process_messages "w" parse
        (message "1-0" ∷ message "2-0" ∷ [])
        (world_of hopeless no_letters)).db
unfolding is_true get
process_messages-exhausts_example =
    process_messages-exhausts "w" parse 7 (message "1-0") (message "2-0" ∷ [])
      (world_of hopeless no_letters) hopeless (attempt "1-0", (attempt "2-0", tt)) refl refl refl
      refl

abbrev worker_row : WorkerStatus → Worker
worker_row status = record {
  worker_id = "w";
  hostname = "host";
  status = status;
  started_at = 1_000_000;
  last_heartbeat_at = 1_000_000;
  current_task_id = none;
}

abbrev with_worker : WorkerStatus → Db schema
with_worker status = record (db_of (task_of 7 "" TaskStatus.pending) no_letters) {
  workers = ("w" ∷ [], λ k. some (worker_row status));
}

abbrev fleet : Db schema → Fleet schema rooms
fleet d = record { db = d; queue = empty_rooms; acked = []; deleted = []; metrics = [] }

abbrev revived : Daemon schema
revived = record { db = with_worker WorkerStatus.dead; alive = λ k. false }

abbrev beats : List Beat
beats = record { set = none; commit = none; now = 5_000_000; current_task_id = some 7 } ∷ []

heartbeat_loop-undetected_example :
    (let (answer, after) =
        detect_and_mark_dead_workers
          (λ k. false)
          none
          (fleet (heartbeat_loop "w" beats revived).db) in
      HasStatus "w" WorkerStatus.dead (heartbeat_loop "w" beats revived).db
      × (schema.workers.find "w" after.db.workers
          ≡ schema.workers.find "w" (heartbeat_loop "w" beats revived).db.workers)
      × ((found : List String) → answer ≡ ok found → ¬ (In "w" found)))
heartbeat_loop-undetected_example =
    heartbeat_loop-undetected "w" beats revived (λ k. false) none
      (fleet (heartbeat_loop "w" beats revived).db) (worker_row WorkerStatus.dead, refl, refl) refl

detect-spares_example :
    (let (answer, after) =
        detect_and_mark_dead_workers (λ k. true) none (fleet (with_worker WorkerStatus.active)) in
      (schema.workers.find "w" after.db.workers ≡ some (worker_row WorkerStatus.active))
      × ((found : List String) → answer ≡ ok found → ¬ (In "w" found)))
detect-spares_example =
    detect-spares (λ k. true) "w" (fleet (with_worker WorkerStatus.active)) none (inl refl)
