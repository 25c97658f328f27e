-- ===== src/Worker/State.antt =====
-- What `process_task` of src/fairlane/worker/main.py works on, and what the world answers while
-- one message is processed.
pub use fairlane.Answer.{Answer, ok, raise}
pub use fairlane.Ratelimit.Limiter.{RateLimitResult}
use fairlane.Prelude.{ℕ, String, Bool, Option, List, [], ◌∷◌}
use fairlane.Database.{Schema, Db}
use fairlane.Metrics.{Metric}
use fairlane.Retry.{Exception}

-- What leaves the process, in order: a commit of the session, the commands to Redis, the metrics.
pub data Action : Type 0 where
  committed : Action
  xack xdel : String → Action
  release_slot : String → ℕ → Action
  decr_instream : String → Action
  measured : Metric → Action

pub record World (S : Schema) : Type 0 where
  pub db : Db S
  pub current_task_id : Option ℕ
  -- latest first
  pub trace : List Action

-- The trace after some more actions, given in their order.
abbrev pub push : List Action → List Action → List Action
push [] t = t
push (a ∷ l) t = push l (a ∷ t)

-- The answers of the rate limiter, of the commits (`some` is the exception that a commit raises),
-- of the task's work, of the random source and of the clock; `others` is what other processes
-- commit between this worker's first commit and its last statements.
pub record Answers (S : Schema) : Type 0 where
  pub allow : Answer RateLimitResult
  pub slot : Answer Bool
  pub throttle_commit : Option Exception
  pub start_commit : Option Exception
  pub others : Db S → Db S
  pub work : Option Exception
  pub finish_commit : Option Exception
  pub failure_commit : Option Exception
  pub uniform : ℕ → ℕ → ℕ
  pub roll : ℕ
  pub read_float : String → Option ℕ
  pub read_int : String → Option ℕ
  pub start_now : ℕ
  pub finish_now : ℕ

-- How the body of the `try` ends: at its end, by `return`, or by an exception.
pub data Ending : Type 0 where
  finished left : Ending
  raised : Exception → Ending
