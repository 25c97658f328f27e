-- ===== src/Api/Tenants.antt =====
-- src/fairlane/api/tenant_routes.py: the limits of a tenant. Rates are thousandths of a token a second.
pub mod Limits
pub mod Held
use fairlane.Prelude.{
  Bool, true, false, List, [], ◌∷◌, ◌&&◌, ◌||◌, str_eq, length, if◌then◌else◌, ℕ, String, Option,
  none, some,
}
use fairlane.Models.{TaskStatus, is_pending, is_running, TenantLimit}
use fairlane.Config.{default_rate_per_second, default_burst, default_max_concurrent}
use fairlane.Retry.{Exception, ExceptionType}
use fairlane.Database.{Schema, Db}
use fairlane.Scheduler.Queue.{Rooms, update}
use fairlane.Answer.{Answer, ok, raise}
use fairlane.Ratelimit.Limiter.{RateLimitResult}
use fairlane.Api.Service.{Reply, sent, unhandled, Service}

pub record TenantLimitsConfig : Type 0 where
  pub rate_per_second : ℕ
  pub burst_capacity : ℕ
  pub max_concurrent : ℕ
  pub weight : ℕ

unfoldable pub limit_row : String → TenantLimitsConfig → TenantLimit
limit_row tenant c = record {
  tenant_id = tenant;
  rate_per_second = c.rate_per_second;
  burst_capacity = c.burst_capacity;
  max_concurrent = c.max_concurrent;
  weight = c.weight;
}

abbrev integrity : Exception
integrity = record { type = ExceptionType.integrity_error; message = "duplicate key value" }

module _ {S : Schema} where
  -- A row that is there is changed, and one is added otherwise.
  unfoldable pub limit_rows : TenantLimit → Db S → Option TenantLimit → Option S.tenant_limits.Rows
  limit_rows l d (some old) = some (S.tenant_limits.update l d.tenant_limits)
  limit_rows l d none = S.tenant_limits.insert l d.tenant_limits

module _ {S : Schema} {R : Rooms} where
  -- After the commit; an exception of Redis leaves the old weight.
  unfoldable pub set_weight :
      String
      → TenantLimitsConfig
      → Option Exception
      → Service S R
      → Reply TenantLimitsConfig × Service S R
  set_weight tenant c (some e) s = (unhandled e, s)
  set_weight tenant c none s = (
    sent c,
    record s { queue = record (s.queue) { weight = update s.queue.weight tenant (some c.weight) } },
  )

  unfoldable pub commit_limits :
      String
      → TenantLimitsConfig
      → Option Exception
      → Option Exception
      → Service S R
      → Option S.tenant_limits.Rows
      → Reply TenantLimitsConfig × Service S R
  commit_limits tenant c (some e) redis s rows = (unhandled e, s)
  commit_limits tenant c none redis s none = (unhandled integrity, s)
  commit_limits tenant c none redis s (some rows) =
      set_weight tenant c redis (record s { db = record (s.db) { tenant_limits = rows } })

  -- The exceptions are those of the commit and of Redis.
  unfoldable pub set_tenant_limits :
      String
      → TenantLimitsConfig
      → Option Exception
      → Option Exception
      → Service S R
      → Reply TenantLimitsConfig × Service S R
  unfolding limit_row
  set_tenant_limits tenant c commit redis s =
      commit_limits tenant c commit redis s
        (limit_rows (limit_row tenant c) s.db (S.tenant_limits.find tenant s.db.tenant_limits))

unfoldable pub limits_or_default : Option TenantLimit → TenantLimitsConfig
limits_or_default (some l) = record {
  rate_per_second = l.rate_per_second;
  burst_capacity = l.burst_capacity;
  max_concurrent = l.max_concurrent;
  weight = l.weight;
}
limits_or_default none = record {
  rate_per_second = default_rate_per_second;
  burst_capacity = default_burst;
  max_concurrent = default_max_concurrent;
  weight = 1;
}

pub record TenantUsage : Type 0 where
  pub tenant_id : String
  pub tokens_remaining : ℕ
  pub running_tasks : ℕ
  pub pending_tasks : ℕ

-- The names of the module: its imports and its own.
abbrev pub module_names : List String
module_names =
    "logging" ∷ "Any" ∷ "APIRouter" ∷ "Depends" ∷ "HTTPException" ∷ "status" ∷ "select" ∷ "func"
    ∷ "AsyncSession" ∷ "Redis" ∷ "settings" ∷ "get_db" ∷ "Task" ∷ "TaskStatus" ∷ "TenantLimit"
    ∷ "get_redis_client" ∷ "TenantLimitsConfig" ∷ "TenantUsage" ∷ "RateLimiter" ∷ "logger"
    ∷ "tenant_router" ∷ "set_tenant_limits" ∷ "get_tenant_limits" ∷ "get_tenant_usage" ∷ []

abbrev pub is_name : String → List String → Bool
is_name n [] = false
is_name n (x ∷ xs) = str_eq n x || is_name n xs

abbrev pub usage_reply : String → ℕ → ℕ → Answer RateLimitResult → Reply TenantUsage
usage_reply tenant running pending (raise e) = unhandled e
usage_reply tenant running pending (ok r) = sent (record {
  tenant_id = tenant;
  tokens_remaining = r.remaining;
  running_tasks = running;
  pending_tasks = pending;
})

module _ {S : Schema} where
  unfoldable pub get_tenant_limits : String → Db S → Reply TenantLimitsConfig
  get_tenant_limits tenant d =
      sent (limits_or_default (S.tenant_limits.find tenant d.tenant_limits))

  unfoldable pub count_of : (TaskStatus → Bool) → String → Db S → ℕ
  count_of is tenant d =
      length (S.tasks.select (λ t. str_eq t.tenant_id tenant && is t.status) d.tasks)

  -- The tasks are counted, then `get_redis` is called, then the limiter, whose answer to a request of
  -- no tokens is `allow`.
  unfoldable pub get_tenant_usage : Answer RateLimitResult → String → Db S → Reply TenantUsage
  unfolding count_of
  get_tenant_usage allow tenant d =
      if is_name "get_redis" module_names
      then usage_reply tenant (count_of is_running tenant d) (count_of is_pending tenant d) allow
      else unhandled (record { type = ExceptionType.name_error; message = "get_redis" })
