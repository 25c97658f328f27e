-- ===== src/Api/Service.antt =====
-- What the handlers of src/fairlane/api work on, and how they answer.
use fairlane.Prelude.{ℕ, List, ◌≡◌}
use fairlane.Metrics.{Metric}
use fairlane.Retry.{Exception}
use fairlane.Database.{Schema, Db}
use fairlane.Scheduler.Queue.{Rooms, Queue}

-- The body of a response, the status of an HTTPException, or an exception that the handler leaves.
pub data Reply (A : Type 0) : Type 0 where
  sent : A → Reply A
  http : ℕ → Reply A
  unhandled : Exception → Reply A

-- What is committed, the waiting rooms, and the metrics counted.
pub record Service (S : Schema) (R : Rooms) : Type 0 where
  pub db : Db S
  pub queue : Queue R
  pub metrics : List Metric

-- Two answers that are the same carry the same task id.
pub same_id :
    {A : Type 0} (i j : ℕ) (a b : A) → ◌≡◌ {A = Reply ℕ × A} (sent i, a) (sent j, b) → i ≡ j
same_id i j a b h = cc
