-- ===== src/Tests/Limits.antt =====
-- The theorems on delays and limits at concrete inputs.
use fairlane.Prelude.{List, ℕ, ◌+◌, ◌*◌, ◌≤◌, ◌≡◌, true, false, Option, some, [], ◌∷◌, ltb}
use fairlane.Ratelimit.Bucket.{Bucket}
use fairlane.Ratelimit.Bucket.Rate.{granted, elapsed, expiries, granted-le}
use fairlane.Ratelimit.Limiter.{acquire_slot}
use fairlane.Ratelimit.Limiter.Slots.{acquire_slot-exact}
use fairlane.Tests.Fixtures.{slots}

abbrev highest : ℕ → ℕ → ℕ
highest lo hi = hi

-- A bucket that holds half a token.
abbrev half : Option Bucket
half = some (record { tokens = 500_000; updated_ms = 1000 })

abbrev calls : List (ℕ × ℕ)
calls = (50, 1_000_000) ∷ (70, 1_000_000) ∷ (60_000, 9_000_000) ∷ []

granted-le_example :
    granted 5000 10_000_000 (record { tokens = 500_000; updated_ms = 1000 }) calls
    ≤ 500_000 + elapsed calls * 5000 + expiries calls * 10_000_000
granted-le_example =
    granted-le 5000 10_000_000 (record { tokens = 500_000; updated_ms = 1000 }) calls

-- One slot held until 9000, and one that has expired.
abbrev held : slots.Z
held = slots.zadd 1 9000 (slots.zadd 2 10 ([], (tt, tt)))

acquire_slot-exact_example :
    (let cleaned = slots.zremrangebyscore 50 held in
      let (got, after) = acquire_slot slots (λ x. x) 2 50 7 held in
      (got ≡ ltb (slots.zcard cleaned) 2)
      × (got ≡ true → (slots.zscore 7 after ≡ some (50 + 3_600_000)) × (slots.zcard after ≤ 2))
      × (got ≡ false → after ≡ cleaned))
acquire_slot-exact_example = acquire_slot-exact slots 2 50 7 held
