-- ===== src/Worker/Loop.antt =====
-- The loop of `run` (src/fairlane/worker/main.py): readings of the stream, and their messages.
pub mod Exhausts
use fairlane.Prelude.{ℕ, String, Bool, true, false, Option, List, [], ◌∷◌}
use fairlane.Database.{Schema}
use fairlane.Worker.State.{World, Answers}
use fairlane.Worker.Process.{process_task}

-- A message of a reading, whether `stop_event` is set before it, and what the services answer
-- while it is processed.
pub record Message (S : Schema) : Type 0 where
  pub message_id : String
  pub task_id : Option String
  pub stopping : Bool
  pub answers : Answers S

-- What XREADGROUP does: no message or some, an exception that is logged and slept over (a
-- connection error, or any other), or the cancellation.
pub data Reading (S : Schema) : Type 0 where
  messages : List (Message S) → Reading S
  failed : Reading S
  cancelled : Reading S

module _ {S : Schema} (worker : String) (parse_uuid : String → Option ℕ) where
  unfoldable pub process_messages : List (Message S) → World S → World S
  process_messages [] w = w
  process_messages (x ∷ xs) w = elim x.stopping [
    | true ↦ w
    | false ↦
        process_messages xs (process_task worker x.answers parse_uuid x.message_id x.task_id w)
  ]

  -- Each round with whether `stop_event` is set before it.
  unfoldable pub read_loop : List (Bool × Reading S) → World S → World S
  unfolding process_messages
  read_loop [] w = w
  read_loop ((true, r) ∷ rounds) w = w
  read_loop ((false, messages xs) ∷ rounds) w = read_loop rounds (process_messages xs w)
  read_loop ((false, failed) ∷ rounds) w = read_loop rounds w
  read_loop ((false, cancelled) ∷ rounds) w = w
