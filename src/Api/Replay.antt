-- ===== src/Api/Replay.antt =====
-- `_replay_task`, `replay_dead_letter` and `replay_bulk` of src/fairlane/api/dlq_routes.py.
pub mod Replayed
pub mod Held
use fairlane.Prelude.{
  ℕ, ◌+◌, String, Bool, true, false, ◌&&◌, ◌++◌, not, Option, none, some, List, [], ◌∷◌, str_eq,
  if◌then◌else◌, or_else, is_none, is_some,
}
use fairlane.Models.{
  Dict, Value, null, bool, int, other, time, Task, TaskStatus, TaskEvent, EventType, DeadLetter,
  FailureCategory, transient_exhausted, permanent, poison_pill, is_dead,
}
use fairlane.Retry.{Exception}
use fairlane.Metrics.{dlq_replays}
use fairlane.Database.{Schema, Db}
use fairlane.Scheduler.Queue.{Rooms, Queue, enqueue}
use fairlane.Api.Service.{Reply, sent, http, unhandled, Service}

pub record ReplayRequest : Type 0 where
  pub payload_patch : Option Dict
  pub reset_attempts : Bool

-- `merged[key] = value`: a key keeps its place.
unfoldable pub set_item : String → Value → Dict → Dict
set_item k v [] = (k, v) ∷ []
set_item k v ((j, u) ∷ d) =
    let rest = set_item k v d in if str_eq j k then (k, v) ∷ d else (j, u) ∷ rest

-- `merged.update(payload_patch)`
unfoldable pub merged : Dict → Dict → Dict
unfolding set_item
merged d [] = d
merged d ((k, v) ∷ patch) = merged (set_item k v d) patch

-- `if payload_patch:` leaves the payload alone for None and for the empty patch.
unfoldable pub patched : Option Dict → Dict → Dict
unfolding merged
patched none d = d
patched (some patch) d = merged d patch

unfoldable pub replayed_row : ReplayRequest → Task → Task
unfolding patched
replayed_row b t = record t {
  payload = patched b.payload_patch t.payload;
  status = TaskStatus.pending;
  finished_at = none;
  next_retry_at = none;
  last_error = none;
  attempts = if b.reset_attempts then 0 else t.attempts;
}

unfoldable pub replayed_letter : ℕ → DeadLetter → DeadLetter
replayed_letter now d = record d { replayed_at = some now; replay_count = d.replay_count + 1 }

-- The patch stands in the event as an object, which nothing reads.
patch_value : Option Dict → Value
patch_value none = null
patch_value (some []) = other 0
patch_value (some (i ∷ d)) = other 1

replay_event : ReplayRequest → ℕ → DeadLetter → Task → TaskEvent
unfolding patch_value
replay_event b now d t = record {
  task_id = t.id;
  event_type = EventType.replayed;
  details =
      ("payload_patch", patch_value b.payload_patch)
      ∷ ("reset_attempts", bool b.reset_attempts)
      ∷ ("replay_count", int (d.replay_count + 1))
      ∷ ("replayed_at", time now)
      ∷ [];
  created_at = now;
}

module _ {S : Schema} {R : Rooms} where
  -- After the commit, an exception of Redis leaves the handler: the row is PENDING, but not enqueued.
  unfoldable pub push : Option Exception → Task → Service S R → Option Exception × Service S R
  push (some e) t s = (some e, s)
  push none t s = (
    none,
    record s { queue = enqueue t s.queue; metrics = s.metrics ++ dlq_replays t.tenant_id ∷ [] },
  )

  unfoldable pub replay_commit :
      ReplayRequest
      → ℕ
      → Task
      → DeadLetter
      → Option Exception
      → Service S R
      → Option Exception
      → Option Exception × Service S R
  unfolding replay_event
  replay_commit b now t d redis s (some e) = (some e, s)
  replay_commit b now t d redis s none = push redis (replayed_row b t) (record s {
    db = record (s.db) {
      tasks = S.tasks.update (replayed_row b t) s.db.tasks;
      dead_letters = S.dead_letters.update (replayed_letter now d) s.db.dead_letters;
      events = s.db.events ++ replay_event b now d t ∷ [];
    };
  })

  -- `_replay_task`, with the exceptions of the commit and of Redis.
  unfoldable pub replay_task :
      ReplayRequest
      → ℕ
      → Option Exception
      → Option Exception
      → Task
      → DeadLetter
      → Service S R
      → Option Exception × Service S R
  replay_task b now commit redis t d s = replay_commit b now t d redis s commit

  unfoldable pub answered : ℕ → Option Exception × Service S R → Reply ℕ × Service S R
  answered id (none, s) = (sent id, s)
  answered id (some e, s) = (unhandled e, s)

  unfoldable pub replay_letter :
      ReplayRequest
      → ℕ
      → Option Exception
      → Option Exception
      → Task
      → Option DeadLetter
      → Service S R
      → Reply ℕ × Service S R
  replay_letter b now commit redis t none s = (http 404, s)
  replay_letter b now commit redis t (some d) s =
      answered t.id (replay_task b now commit redis t d s)

  unfoldable pub replay_row :
      ReplayRequest
      → ℕ
      → Option Exception
      → Option Exception
      → ℕ
      → Option Task
      → Service S R
      → Reply ℕ × Service S R
  replay_row b now commit redis id none s = (http 404, s)
  replay_row b now commit redis id (some t) s =
      if not (is_dead t.status)
      then (http 409, s)
      else replay_letter b now commit redis t (S.dead_letters.find id s.db.dead_letters) s

  -- `body` may be missing.
  unfoldable pub replay_dead_letter :
      ℕ
      → Option ReplayRequest
      → ℕ
      → Option Exception
      → Option Exception
      → Service S R
      → Reply ℕ × Service S R
  replay_dead_letter id body now commit redis s =
      replay_row (or_else body (record { payload_patch = none; reset_attempts = false })) now commit
        redis id (S.tasks.find id s.db.tasks) s
