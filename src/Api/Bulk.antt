-- ===== src/Api/Bulk.antt =====
-- `replay_bulk` of src/fairlane/api/dlq_routes.py: all dead letters that pass the filters.
pub mod Replays
pub mod Held
use fairlane.Prelude.{
  ℕ, String, Bool, true, false, ◌&&◌, not, Option, none, some, List, [], ◌∷◌, length, str_eq,
  if◌then◌else◌,
}
use fairlane.Models.{Task, DeadLetter, is_dead}
use fairlane.Retry.{Exception}
use fairlane.Answer.{Answer, ok, raise}
use fairlane.Database.{Schema}
use fairlane.Scheduler.Queue.{Rooms}
use fairlane.Api.Service.{Reply, sent, http, unhandled, Service}
use fairlane.Api.Replay.{ReplayRequest, replay_task}
use fairlane.Api.DeadLetters.{wanted}

pub record BulkReplayRequest : Type 0 where
  pub tenant_id : Option String
  pub failure_category : Option String

pub record BulkReplayResponse : Type 0 where
  pub replayed : ℕ
  pub task_ids : List ℕ

-- For each task: the clock, and the exceptions of the commit and of Redis.
pub record Moments : Type 0 where
  pub now : ℕ → ℕ
  pub commit : ℕ → Option Exception
  pub redis : ℕ → Option Exception

-- `not body.tenant_id`
abbrev pub missing : Option String → Bool
missing none = true
missing (some s) = str_eq s ""

-- `_replay_task(task, dl, db)`: no patch, and the attempts are kept.
abbrev pub plain : ReplayRequest
plain = record { payload_patch = none; reset_attempts = false }

abbrev pub prepend : ℕ → Answer (List ℕ) → Answer (List ℕ)
prepend id (ok ids) = ok (id ∷ ids)
prepend id (raise e) = raise e

-- The task ids that a step adds to the answer.
unfoldable pub counted : Option Task → Answer (List ℕ) → Answer (List ℕ)
counted none r = r
counted (some t) r = if not (is_dead t.status) then r else prepend t.id r

module _ {S : Schema} {R : Rooms} where
  unfoldable pub bulk_reply : Answer (List ℕ) × Service S R → Reply BulkReplayResponse × Service S R
  bulk_reply (ok ids, s) = (sent (record { replayed = length ids; task_ids = ids }), s)
  bulk_reply (raise e, s) = (unhandled e, s)

module _ {S : Schema} {R : Rooms} (M : Moments) where
  unfoldable pub replay_one :
      Option Task → DeadLetter → Service S R → Option Exception × Service S R
  replay_one none d s = (none, s)
  replay_one (some t) d s =
      if not (is_dead t.status)
      then (none, s)
      else replay_task plain (M.now t.id) (M.commit t.id) (M.redis t.id) t d s

  -- An exception leaves the loop and the handler; what was committed stays.
  unfoldable pub go_on :
      Option Task
      → Answer (List ℕ) × Service S R
      → Option Exception × Service S R
      → Answer (List ℕ) × Service S R
  unfolding counted
  go_on o rest (some e, s) = (raise e, s)
  go_on o rest (none, s) = (counted o rest.0, rest.1)

  unfoldable pub replay_letters : List DeadLetter → Service S R → Answer (List ℕ) × Service S R
  unfolding replay_one
  replay_letters [] s = (ok [], s)
  replay_letters (d ∷ ds) s =
      let o = S.tasks.find d.task_id s.db.tasks in
      let step = replay_one o d s in let rest = replay_letters ds step.1 in go_on o rest step

  unfoldable pub replay_bulk :
      BulkReplayRequest → Service S R → Reply BulkReplayResponse × Service S R
  replay_bulk b s =
      if missing b.tenant_id && missing b.failure_category
      then (http 400, s)
      else bulk_reply (
          replay_letters
            (S.dead_letters.select (wanted b.tenant_id b.failure_category) s.db.dead_letters) s)
