-- ===== src/Ratelimit/Limiter.antt =====
-- src/fairlane/ratelimit/limiter.py: the limits of a tenant with their cache, the token bucket, and
-- the concurrency slots. Times are milliseconds.
pub mod Slots
use fairlane.Prelude.{
  ℕ, ◌+◌, ◌*◌, ◌≤◌, ◌<◌, String, ◌≡◌, refl, Bool, true, false, Option, none, some, ltb, leb, str_eq,
  if◌then◌else◌,
}
use fairlane.Models.{TenantLimit}
use fairlane.Config.{default_rate_per_second, default_burst, default_max_concurrent}
use fairlane.Answer.{Answer, ok, raise, ◌>>=◌}
use fairlane.Retry.{Exception}
use fairlane.Redis.{SortedSet}
use fairlane.Ratelimit.Bucket.{Bucket, Reply, token_bucket}

-- The tokens are millionths.
pub record RateLimitResult : Type 0 where
  pub allowed : Bool
  pub remaining : ℕ
  pub retry_after_ms : ℕ

pub record Limits : Type 0 where
  pub rate_per_second : ℕ
  pub burst_capacity : ℕ
  pub max_concurrent : ℕ

pub record Cached : Type 0 where
  pub config : Limits
  pub expiry : ℕ

-- `script_sha` is true once the script has been loaded.
pub record RateLimiter : Type 0 where
  pub script_sha : Bool
  pub cache : String → Option Cached

-- What the query finds for the tenant, or the defaults.
unfoldable pub config_of : Option TenantLimit → Limits
config_of (some l) = record {
  rate_per_second = l.rate_per_second;
  burst_capacity = l.burst_capacity;
  max_concurrent = l.max_concurrent;
}
config_of none = record {
  rate_per_second = default_rate_per_second;
  burst_capacity = default_burst;
  max_concurrent = default_max_concurrent;
}

refresh : ℕ → String → Option TenantLimit → RateLimiter → Limits × RateLimiter
refresh now tenant row l =
    let config = config_of row in
    (
      config,
      record l {
        cache = λ k.
            if str_eq k tenant
            then some (record { config = config; expiry = now + 30_000 })
            else l.cache k;
      },
    )

from_cache : ℕ → String → Option TenantLimit → RateLimiter → Option Cached → Limits × RateLimiter
from_cache now tenant row l none = refresh now tenant row l
from_cache now tenant row l (some c) =
    if ltb now c.expiry then (c.config, l) else refresh now tenant row l

-- `row` is the tenant's row of `tenant_limits` at the time of the call.
unfoldable pub get_tenant_limits :
    ℕ → String → Option TenantLimit → RateLimiter → Limits × RateLimiter
unfolding from_cache refresh config_of
get_tenant_limits now tenant row l = from_cache now tenant row l (l.cache tenant)

-- What EVALSHA does: run the script, not know it, or raise something else.
pub data Evaluation : Type 0 where
  runs noscript : Evaluation
  fails : Exception → Evaluation

abbrev million : ℕ
million = 1_000_000

-- The script's reply as `allow` reads it, with what it writes.
evaluate : Limits → ℕ → ℕ → Option Bucket → RateLimitResult × Bucket
evaluate c requested now stored =
    let r =
      token_bucket c.rate_per_second (c.burst_capacity * million) (requested * million) now
        stored in
    (
      record { allowed = r.allowed; remaining = r.remaining; retry_after_ms = r.retry_after_ms },
      r.written,
    )

-- After NOSCRIPT the script is loaded and evaluated once more.
retried : Evaluation → RateLimitResult × Bucket → Exception → Answer (RateLimitResult × Bucket)
retried runs r e = ok r
retried noscript r e = raise e
retried (fails x) r e = raise x

evaluated :
    Evaluation
    → Evaluation
    → RateLimitResult × Bucket
    → Exception
    → Answer (RateLimitResult × Bucket)
evaluated runs again r e = ok r
evaluated noscript again r e = retried again r e
evaluated (fails x) again r e = raise x

-- `no_script` is the exception that the client raises for NOSCRIPT.
unfoldable pub allow :
    Limits
    → ℕ
    → ℕ
    → Option Bucket
    → Evaluation
    → Evaluation
    → Exception
    → Answer (RateLimitResult × Bucket)
unfolding evaluate evaluated retried
allow limits requested now stored first second no_script =
    evaluated first second (evaluate limits requested now stored) no_script

module _ (R : SortedSet ℕ) where
  -- ZADD, then the check of the rank.
  unfoldable pub ranked : ℕ → ℕ → R.Z → Option ℕ → Bool × R.Z
  ranked max_concurrent task z none = (true, z)
  ranked max_concurrent task z (some rank) =
      if leb max_concurrent rank then (false, R.zrem task z) else (true, z)

  -- `between` is what other clients do between the ZCARD and the ZADD.
  unfoldable pub acquire_slot : (R.Z → R.Z) → ℕ → ℕ → ℕ → R.Z → Bool × R.Z
  acquire_slot between max_concurrent now task z =
      let cleaned = R.zremrangebyscore now z in
      if leb max_concurrent (R.zcard cleaned)
      then (false, cleaned)
      else (let added = R.zadd task (now + 3_600_000) (between cleaned) in
          ranked max_concurrent task added (R.zrank task added))

  unfoldable pub release_slot : ℕ → R.Z → R.Z
  release_slot task z = R.zrem task z
