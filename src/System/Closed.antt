-- ===== src/System/Closed.antt =====
-- The transactions that src/fairlane commits, and the properties of the database that all keep.
use fairlane.Prelude.{
  not, Bool, ℕ, String, ◌≡◌, true, false, ◌&&◌, ◌++◌, Option, some, List, [], ◌∷◌,
}
use fairlane.Models.{Task, TaskEvent, DeadLetter, is_pending, is_dead}
use fairlane.Retry.{Exception}
use fairlane.Database.{Schema, Db}
use fairlane.Scheduler.Queue.{Rooms, Queue}
use fairlane.Scheduler.Dispatch.{dispatch_events}
use fairlane.Scheduler.Poll.{due, Polling, requeue_all}
use fairlane.Worker.Failure.{may_retry, retry_row, dead_row}
use fairlane.Worker.Process.{throttle_row, started_row, succeeded_row, owned_by, run_side_effect}
use fairlane.Reaper.Reclaim.{opened_on, reclaim_ids, insert_all}
use fairlane.Api.Tasks.{TaskCreate, Request, new_task, created_event}
use fairlane.Api.Replay.{ReplayRequest, replayed_row, replayed_letter}

-- The row stands in the table.
abbrev pub Found : (S : Schema) → Task → Db S → Type 0
Found S t d = S.tasks.find t.id d.tasks ≡ some t

-- A row is changed, and an event added.
abbrev pub changed : {S : Schema} → Task → TaskEvent → Db S → Db S
changed {S} v e d = record d { tasks = S.tasks.update v d.tasks; events = d.events ++ e ∷ [] }

-- The poll's session on a database.
abbrev pub polling : {S : Schema} {R : Rooms} → Db S → Queue R → Polling S R
polling d q = record { tasks = d.tasks; events = d.events; queue = q; requeued = 0 }

-- The poll works on two tables of the database.
abbrev pub polled_db : {S : Schema} {R : Rooms} → Db S → Polling S R → Db S
polled_db d p = record d { tasks = p.tasks; events = p.events }

-- Every transaction that the code commits, under the tests that it makes before, keeps the
-- property: one field for each kind of transaction.
pub record Closed (S : Schema) (I : Db S → Type 0) : Type 1 where
  pub created :
      (d : Db S) (r : Request) (c : TaskCreate) (rows : S.tasks.Rows)
      → S.tasks.insert (new_task r c) d.tasks ≡ some rows
      → I d
      → I (record d { tasks = rows; events = d.events ++ created_event r ∷ [] })
  pub throttled :
      (d : Db S) (t : Task) (at : ℕ) (e : TaskEvent)
      → Found S t d
      → I d
      → I (changed (throttle_row at t) e d)
  pub started :
      (d : Db S) (t : Task) (now : ℕ) (worker : String) (e : TaskEvent)
      → Found S t d
      → I d
      → I (changed (started_row now worker t) e d)
  pub succeeded :
      (d : Db S) (t r : Task) (now : ℕ) (worker : String) (e : TaskEvent)
      → S.tasks.find t.id d.tasks ≡ some r
      → owned_by worker r ≡ true
      → t.task_type ≡ r.task_type
      → I d
      → I (changed (succeeded_row now r) e (run_side_effect t d))
  pub retried :
      (d : Db S) (t : Task) (x : Exception) (at : ℕ) (e : TaskEvent)
      → Found S t d
      → may_retry x t ≡ true
      → I d
      → I (changed (retry_row x at t) e d)
  pub died :
      (d : Db S) (t : Task) (x : Exception) (now : ℕ) (e : TaskEvent) (l : DeadLetter)
      (letters : S.dead_letters.Rows)
      → Found S t d
      → may_retry x t ≡ false
      → l.task_id ≡ t.id
      → S.dead_letters.insert l d.dead_letters ≡ some letters
      → I d
      → I (record (changed (dead_row x now t) e d) { dead_letters = letters })
  pub reclaimed :
      (d : Db S) (parse : String → Option ℕ) (now : ℕ) (dead_worker : String) (ids : List String)
      (letters : S.dead_letters.Rows)
      → (let s = reclaim_ids now dead_worker parse ids (opened_on d) in
          insert_all S s.letters d.dead_letters ≡ some letters
          → I d
          → I (record d { tasks = s.tasks; dead_letters = letters; events = d.events ++ s.events }))
  pub polled :
      {R : Rooms} (d : Db S) (locked : ℕ → Bool) (now : ℕ) (q : Queue R)
      → I d
      → I (
          polled_db d (
            requeue_all now
              (S.tasks.select
                (λ t. is_pending t.status && (due now t.next_retry_at && not (locked t.id)))
                d.tasks)
              (polling d q)))
  pub replayed :
      (d : Db S) (t : Task) (b : ReplayRequest) (now : ℕ) (e : TaskEvent) (l : DeadLetter)
      → Found S t d
      → is_dead t.status ≡ true
      → l.task_id ≡ t.id
      → I d
      → I (record (changed (replayed_row b t) e d) {
        dead_letters = S.dead_letters.update (replayed_letter now l) d.dead_letters;
      })
  -- The dispatcher's events.
  pub dispatched :
      (d : Db S) (now : ℕ) (ts : List Task)
      → I d
      → I (record d { events = d.events ++ dispatch_events now ts })
  -- The rows of workers, and the limits of tenants.
  pub aside :
      (d : Db S) (workers : S.workers.Rows) (limits : S.tenant_limits.Rows)
      → I d
      → I (record d { workers = workers; tenant_limits = limits })
