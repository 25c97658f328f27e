-- ===== src/Ratelimit/Bucket.antt =====
-- src/fairlane/ratelimit/token_bucket.lua. Tokens are counted in millionths and the rate in
-- thousandths of a token a second, so that a millisecond adds exactly `rate` millionths. What
-- HMGET returns for the key is the argument `stored`: `none` if the key is absent or has expired. The
-- numbers of Lua are floating point; the rounding of fractions of a token is not modelled.
pub mod Rate
use fairlane.Prelude.{
  ℕ, suc, ◌+◌, ◌-◌, ◌*◌, ◌/◌, ◌≤◌, ◌<◌, min, ◌≡◌, refl, ap, Bool, true, false, Option, none, some,
  arith, leb, ltb, if◌then◌else◌, Bool-cases, inl, inr,
}

pub record Bucket : Type 0 where
  pub tokens : ℕ
  pub updated_ms : ℕ

pub record Reply : Type 0 where
  pub allowed : Bool
  pub remaining : ℕ
  pub retry_after_ms : ℕ
  -- what HMSET writes
  pub written : Bucket

-- `math.ceil(a / b)`
abbrev pub ceil_div : ℕ → ℕ → ℕ
ceil_div a b = (a + (b - 1)) / b

abbrev pub initial : ℕ → ℕ → Option Bucket → Bucket
initial burst now none = record { tokens = burst; updated_ms = now }
initial burst now (some b) = b

-- EXPIRE of the key, in milliseconds.
abbrev pub expiry_ms : ℕ
expiry_ms = 60_000

-- What HMGET returns at `now` if the last call wrote `b`.
unfoldable pub kept : ℕ → Bucket → Option Bucket
kept now b = if ltb (now - b.updated_ms) expiry_ms then some b else none

-- The tokens after the refill.
unfoldable pub refilled : ℕ → ℕ → ℕ → Option Bucket → ℕ
refilled rate burst now stored =
    let b = initial burst now stored in min burst (b.tokens + (now - b.updated_ms) * rate)

unfoldable pub token_bucket : ℕ → ℕ → ℕ → ℕ → Option Bucket → Reply
token_bucket rate burst requested now stored =
    let tokens = refilled rate burst now stored in
    if leb requested tokens
    then record {
      allowed = true;
      remaining = tokens - requested;
      retry_after_ms = 0;
      written = record { tokens = tokens - requested; updated_ms = now };
    }
    else record {
      allowed = false;
      remaining = tokens;
      retry_after_ms = ceil_div (requested - tokens) rate;
      written = record { tokens = tokens; updated_ms = now };
    }
