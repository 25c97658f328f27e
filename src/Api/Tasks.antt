-- ===== src/Api/Tasks.antt =====
-- `create_task` of src/fairlane/api/routes.py, and the reads of one task and its events.
pub mod Created
pub mod Held
use fairlane.Prelude.{
  ℕ, String, Bool, true, false, ◌&&◌, ◌++◌, not, Option, none, some, List, [], ◌∷◌, leb, str_eq,
  length, ◌==◌, if◌then◌else◌,
}
use fairlane.Models.{Dict, str, Task, TaskStatus, TaskEvent, EventType, is_pending}
use fairlane.Config.{max_pending_per_tenant}
use fairlane.Retry.{Exception, ExceptionType}
use fairlane.Answer.{Answer, ok, raise}
use fairlane.Metrics.{tasks_submitted}
use fairlane.Database.{Schema, Db}
use fairlane.Scheduler.Queue.{Rooms, Queue, enqueue}
use fairlane.Api.Service.{Reply, sent, http, Service}

pub record TaskCreate : Type 0 where
  pub tenant_id : String
  pub task_type : String
  pub payload : Dict
  pub priority : ℕ
  pub idempotency_key : Option String

-- The new id and the clock, and the exceptions of the flush, the commit, the refresh and Redis.
pub record Request : Type 0 where
  pub new_id : ℕ
  pub now : ℕ
  pub flush : Option Exception
  pub commit : Option Exception
  pub refresh : Option Exception
  pub redis : Option Exception

-- `Task.idempotency_key == key`
abbrev pub has_key : String → Task → Bool
has_key key t = elim t.idempotency_key [ none ↦ false | some k ↦ str_eq k key ]

-- `scalar_one_or_none`
abbrev pub one_or_none : List Task → Answer (Option Task)
one_or_none [] = ok none
one_or_none (t ∷ []) = ok (some t)
one_or_none (t ∷ u ∷ ts) =
    raise (record { type = ExceptionType.exception; message = "Multiple rows were found" })

unfoldable pub new_task : Request → TaskCreate → Task
new_task r c = record {
  id = r.new_id;
  tenant_id = c.tenant_id;
  task_type = c.task_type;
  payload = c.payload;
  priority = c.priority;
  status = TaskStatus.pending;
  attempts = 0;
  max_attempts = 5;
  idempotency_key = c.idempotency_key;
  created_at = r.now;
  started_at = none;
  finished_at = none;
  next_retry_at = none;
  last_error = none;
  locked_by = none;
  locked_at = none;
  original_enqueue_at = none;
}

unfoldable pub created_event : Request → TaskEvent
created_event r = record {
  task_id = r.new_id;
  event_type = EventType.created;
  details = ("message", str "Task successfully created") ∷ [];
  created_at = r.now;
}

module _ {R : Rooms} where
  -- A failure of Redis is logged; the reaper will enqueue the task.
  enqueue_new : Option Exception → Task → Queue R → Queue R
  enqueue_new (some e) t q = q
  enqueue_new none t q = enqueue t q

module _ {S : Schema} where
  unfoldable pub pending_count : String → Db S → ℕ
  pending_count tenant d =
      length (S.tasks.select (λ t. str_eq t.tenant_id tenant && is_pending t.status) d.tasks)

  -- `if task_data.idempotency_key:` skips the empty key.
  unfoldable pub existing : TaskCreate → Db S → Answer (Option Task)
  existing c d = elim c.idempotency_key [
    | none ↦ ok none
    | some key ↦
        if str_eq key "" then ok none else one_or_none (S.tasks.select (has_key key) d.tasks)
  ]

module _ {S : Schema} {R : Rooms} where
  -- After the commit: an exception of the refresh is answered with 500, though the row is there.
  unfoldable pub submitted :
      Request → TaskCreate → Service S R → Option Exception → Reply ℕ × Service S R
  unfolding enqueue_new
  submitted r c s (some e) = (http 500, s)
  submitted r c s none = (
    sent r.new_id,
    record s {
      queue = enqueue_new r.redis (new_task r c) s.queue;
      metrics = s.metrics ++ tasks_submitted c.tenant_id c.priority ∷ [];
    },
  )

  -- The flush, then the commit.
  unfoldable pub store :
      Request
      → TaskCreate
      → Service S R
      → Option Exception
      → Option Exception
      → Option S.tasks.Rows
      → Reply ℕ × Service S R
  store r c s (some e) commit rows = (http 500, s)
  store r c s none commit none = (http 500, s)
  store r c s none (some e) (some rows) = (http 500, s)
  store r c s none none (some rows) =
      submitted r c
        (record s {
          db = record (s.db) { tasks = rows; events = s.db.events ++ created_event r ∷ [] };
        })
        r.refresh

  unfoldable pub check_quota : Request → TaskCreate → Service S R → Reply ℕ × Service S R
  check_quota r c s =
      if leb max_pending_per_tenant (pending_count c.tenant_id s.db)
      then (http 429, s)
      else store r c s r.flush r.commit (S.tasks.insert (new_task r c) s.db.tasks)

  unfoldable pub unless_existing :
      Request → TaskCreate → Service S R → Answer (Option Task) → Reply ℕ × Service S R
  unless_existing r c s (raise e) = (http 500, s)
  unless_existing r c s (ok (some t)) = (sent t.id, s)
  unless_existing r c s (ok none) = check_quota r c s

  unfoldable pub create_task : Request → TaskCreate → Service S R → Reply ℕ × Service S R
  create_task r c s = unless_existing r c s (existing c s.db)

unfoldable pub found_or_404 : Option Task → Reply Task
found_or_404 none = http 404
found_or_404 (some t) = sent t

module _ {S : Schema} where
  unfoldable pub get_task : ℕ → Db S → Reply Task
  get_task id d = found_or_404 (S.tasks.find id d.tasks)

unfoldable pub events_of : ℕ → List TaskEvent → List TaskEvent
events_of id [] = []
events_of id (e ∷ es) = let rest = events_of id es in if e.task_id == id then e ∷ rest else rest

unfoldable pub events_or_404 : ℕ → List TaskEvent → Option Task → Reply (List TaskEvent)
events_or_404 id es none = http 404
events_or_404 id es (some t) = sent (events_of id es)

module _ {S : Schema} where
  -- In the order of `created_at`, which is the order in which events are added.
  unfoldable pub get_task_events : ℕ → Db S → Reply (List TaskEvent)
  get_task_events id d = events_or_404 id d.events (S.tasks.find id d.tasks)
