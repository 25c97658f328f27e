-- ===== src/Models.antt =====
-- The rows of src/fairlane/models.py. A UUID is a number. Times are microseconds since the epoch.
use fairlane.Prelude.{ℕ, String, Bool, Option, List, [], ◌∷◌, str_eq, if◌then◌else◌}

pub data TaskStatus : Type 0 where
  pending running succeeded failed dead : TaskStatus

pub data WorkerStatus : Type 0 where
  active dead stopped : WorkerStatus

pub data FailureCategory : Type 0 where
  transient_exhausted permanent poison_pill : FailureCategory

-- The event types that the source writes, and FAILED, which it only reads.
pub data EventType : Type 0 where
  created dispatched throttled started succeeded failed : EventType
  retry_scheduled requeued reclaimed replayed dead_lettered : EventType

-- JSON values. A float is a number of millionths, `time` is an ISO text of a time, `category` the
-- text of a failure category, and `other` stands for arrays and objects, which the source does not look into.
pub data Value : Type 0 where
  null : Value
  bool : Bool → Value
  int float : ℕ → Value
  str : String → Value
  time other : ℕ → Value
  category : FailureCategory → Value

abbrev pub Dict : Type 0
Dict = List (String × Value)

-- `d.get(key)`: the JSON null and a missing key are both None.
unfoldable pub get : String → Dict → Value
get k [] = null
get k ((j, v) ∷ d) = if str_eq j k then v else get k d

pub record Task : Type 0 where
  pub id : ℕ
  pub tenant_id : String
  pub task_type : String
  pub payload : Dict
  pub priority : ℕ
  pub status : TaskStatus
  pub attempts : ℕ
  pub max_attempts : ℕ
  pub idempotency_key : Option String
  pub created_at : ℕ
  pub started_at : Option ℕ
  pub finished_at : Option ℕ
  pub next_retry_at : Option ℕ
  pub last_error : Option String
  pub locked_by : Option String
  pub locked_at : Option ℕ
  pub original_enqueue_at : Option ℕ

pub record TaskEvent : Type 0 where
  pub task_id : ℕ
  pub event_type : EventType
  pub details : Dict
  pub created_at : ℕ

pub record DeadLetter : Type 0 where
  pub task_id : ℕ
  pub tenant_id : String
  pub task_type : String
  pub failure_category : FailureCategory
  pub last_error : Option String
  pub error_history : List Dict
  pub attempts_made : ℕ
  pub dead_at : ℕ
  pub replayed_at : Option ℕ
  pub replay_count : ℕ

pub record Worker : Type 0 where
  pub worker_id : String
  pub hostname : String
  pub status : WorkerStatus
  pub started_at : ℕ
  pub last_heartbeat_at : ℕ
  pub current_task_id : Option ℕ

pub record TenantLimit : Type 0 where
  pub tenant_id : String
  pub rate_per_second : ℕ
  pub burst_capacity : ℕ
  pub max_concurrent : ℕ
  pub weight : ℕ

pub record SideEffect : Type 0 where
  pub task_id : ℕ
  pub count : ℕ

abbrev pub is_pending : TaskStatus → Bool
is_pending TaskStatus.pending = Bool.true
is_pending _ = Bool.false

abbrev pub is_running : TaskStatus → Bool
is_running TaskStatus.running = Bool.true
is_running _ = Bool.false

abbrev pub is_dead : TaskStatus → Bool
is_dead TaskStatus.dead = Bool.true
is_dead _ = Bool.false

abbrev pub is_succeeded : TaskStatus → Bool
is_succeeded TaskStatus.succeeded = Bool.true
is_succeeded _ = Bool.false
