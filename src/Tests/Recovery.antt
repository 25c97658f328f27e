-- ===== src/Tests/Recovery.antt =====
-- The theorems on the reaper at concrete inputs.
use fairlane.Prelude.{ℕ, ◌≡◌, ◌≢◌, ◌++◌, refl, String, true, none, some, [], ◌∷◌, All, inl}
use fairlane.Models.{Task, TaskStatus}
use fairlane.Retry.{Exception}
use fairlane.Answer.{ok, raise}
use fairlane.Database.{Db}
use fairlane.Scheduler.Poll.Rebuild.{Waits}
use fairlane.Worker.Process.{owned_by}
use fairlane.Reaper.Claim.{claim}
use fairlane.Reaper.Reclaim.{
  Fleet, Circumstances, collected, reclaim_tasks_from_dead_worker, reclaim_ids, reclaim_id,
  reclaim_row, reclaim_task, insert_all, commit_session, after_commit, processed, add_orphans,
}
use fairlane.Reaper.Reclaim.Rows.{reclaimed, reclaim-exact}
use fairlane.Reaper.Reclaim.Letters.{reclaim-aborts}
use fairlane.Reaper.Cycle.{reconcile_missing_tasks, reconcile-Waits}
use fairlane.Tests.Fixtures.{
  schema, rooms, task_of, tasks_with, db_of, no_letters, letters_with, letter, empty_rooms, parse,
}

-- The worker "v" died while it ran the task.
abbrev orphan : Task
orphan = record (task_of 7 "" TaskStatus.running) { locked_by = some "v" }

-- It had one attempt left.
abbrev last_try : Task
last_try = record orphan { attempts = 2 }

abbrev fleet : Task → schema.dead_letters.Rows → Fleet schema rooms
fleet t letters = record {
  db = db_of t letters;
  queue = empty_rooms;
  acked = [];
  deleted = [];
  metrics = [];
}

-- The message of the task is claimed.
abbrev claimed : Circumstances schema
claimed = record {
  pages = ok ("0-0", ("1-0", some "7") ∷ []) ∷ [];
  commit = none;
  others = λ d. d;
  reachable = λ id. true;
  now = 9_000_000;
}

abbrev show : ℕ → String
show id = "7"

abbrev after_reclaim : Fleet schema rooms
after_reclaim =
    (reclaim_tasks_from_dead_worker schema parse show claimed "v" (fleet orphan no_letters)).1

reclaim-exact_example :
    (db : Db schema) × (after_reclaim.db ≡ db)
    × All
        (λ x.
          (id : ℕ)
          → parse x ≡ some id
          → schema.tasks.find id db.tasks
            ≡ reclaimed 9_000_000 (schema.tasks.find id (tasks_with orphan)))
        (collected schema parse show claimed "v" (fleet orphan no_letters)).ids
    × ((id : ℕ)
        → All
            (λ x. parse x ≢ some id)
            (collected schema parse show claimed "v" (fleet orphan no_letters)).ids
        → schema.tasks.find id db.tasks ≡ schema.tasks.find id (tasks_with orphan))
unfolding reclaim_tasks_from_dead_worker collected claim add_orphans processed reclaim_ids
    reclaim_id reclaim_row reclaim_task insert_all commit_session after_commit owned_by
reclaim-exact_example =
    reclaim-exact schema parse claimed "v" show (fleet orphan no_letters) after_reclaim 1 refl
      (tt, tt)

reclaim-aborts_example :
    (let (answer, after) =
        reclaim_tasks_from_dead_worker schema parse show claimed "v"
          (fleet last_try (letters_with letter)) in
      ((e : Exception) × (answer ≡ raise e))
      × (after.db ≡ db_of last_try (letters_with letter))
      × (after.queue ≡ empty_rooms)
      × (after.acked
          ≡ (collected schema parse show claimed "v" (fleet last_try (letters_with letter))).acked
            ++ []))
unfolding collected claim add_orphans owned_by
reclaim-aborts_example =
    reclaim-aborts schema parse claimed "v" show (fleet last_try (letters_with letter)) "7" 7
      last_try letter (tt, tt) (inl refl) refl refl refl refl refl

reconcile-Waits_example :
    Waits {R = rooms}
      (reconcile_missing_tasks schema 20_000_000
        (tasks_with (task_of 7 "" TaskStatus.pending))
        empty_rooms)
      (task_of 7 "" TaskStatus.pending)
reconcile-Waits_example =
    reconcile-Waits schema {R = rooms} 20_000_000 (tasks_with (task_of 7 "" TaskStatus.pending))
      empty_rooms (task_of 7 "" TaskStatus.pending) refl refl refl
