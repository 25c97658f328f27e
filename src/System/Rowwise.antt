-- ===== src/System/Rowwise.antt =====
-- Properties of the rows of `tasks`, given the other tables of the database: when the changes that
-- src/fairlane makes of a row keep one, its transactions do.
pub mod Keeps
pub mod Session
pub mod Transactions
pub mod Record
use fairlane.Prelude.{
  ℕ, String, ◌≡◌, Bool, true, false, Option, some, List, [], ◌∷◌, ◌++◌, is_some, str_eq,
}
use fairlane.Models.{Task, TaskEvent, DeadLetter, is_pending, is_dead}
use fairlane.Retry.{Exception}
use fairlane.Database.{Schema, Db}
use fairlane.Scheduler.Poll.{requeued_row}
use fairlane.Worker.Failure.{may_retry, retry_row, dead_row}
use fairlane.Worker.Process.{throttle_row, started_row, succeeded_row, owned_by}
use fairlane.Reaper.Reclaim.{terminal, exhausted, reclaimed_row}
use fairlane.Api.Tasks.{TaskCreate, Request, new_task, created_event}
use fairlane.Api.Replay.{ReplayRequest, replayed_row}
use fairlane.System.Rows.{Holds}

-- A task has a dead letter, and a row of `side_effects`.
abbrev pub Lettered : (S : Schema) → Db S → ℕ → Type 0
Lettered S d id = is_some (S.dead_letters.find id d.dead_letters) ≡ true

abbrev pub Effected : (S : Schema) → Db S → ℕ → Type 0
Effected S d id = is_some (S.side_effects.find id d.side_effects) ≡ true

-- No dead letter, side effect or event is lost.
pub record Grows (S : Schema) (d after : Db S) : Type 0 where
  pub letters : (id : ℕ) → Lettered S d id → Lettered S after id
  pub effects : (id : ℕ) → Effected S d id → Effected S after id
  pub more : List TaskEvent
  pub events : after.events ≡ d.events ++ more

-- A property of a row, given the other tables of a database.
abbrev pub RowProperty : Schema → Type 1
RowProperty S = Db S → Task → Type 0

-- One field for each change of a row, with the tests that the code makes before.
pub record Rowwise (S : Schema) (P : RowProperty S) : Type 0 where
  pub grows : (d after : Db S) (t : Task) → Grows S d after → P d t → P after t
  pub created :
      (d : Db S) (es : List TaskEvent) (r : Request) (c : TaskCreate)
      → d.events ≡ es ++ created_event r ∷ []
      → P d (new_task r c)
  pub throttled : (d : Db S) (t : Task) (at : ℕ) → P d t → P d (throttle_row at t)
  pub started :
      (d : Db S) (t : Task) (now : ℕ) (worker : String) → P d t → P d (started_row now worker t)
  pub succeeded :
      (d : Db S) (t : Task) (now : ℕ) (worker : String)
      → owned_by worker t ≡ true
      → (str_eq t.task_type "demo" ≡ true → Effected S d t.id)
      → P d t
      → P d (succeeded_row now t)
  pub retried :
      (d : Db S) (t : Task) (x : Exception) (at : ℕ)
      → may_retry x t ≡ true
      → P d t
      → P d (retry_row x at t)
  pub died :
      (d : Db S) (t : Task) (x : Exception) (now : ℕ)
      → may_retry x t ≡ false
      → Lettered S d t.id
      → P d t
      → P d (dead_row x now t)
  pub reclaimed :
      (d : Db S) (t : Task) (now : ℕ)
      → terminal t.status ≡ false
      → (exhausted t ≡ true → Lettered S d t.id)
      → P d t
      → P d (reclaimed_row now t)
  pub requeued : (d : Db S) (t : Task) → is_pending t.status ≡ true → P d t → P d (requeued_row t)
  pub replayed :
      (d : Db S) (t : Task) (b : ReplayRequest)
      → is_dead t.status ≡ true
      → P d t
      → P d (replayed_row b t)

-- Every row of the database has the property.
abbrev pub Everywhere : (S : Schema) → RowProperty S → Db S → Type 0
Everywhere S P d = Holds S (P d) d.tasks
