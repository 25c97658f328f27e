-- ===== src/Ratelimit/Bucket/Rate.antt =====
-- How many tokens the script of src/fairlane/ratelimit/token_bucket.lua hands out, and when.
use fairlane.Prelude.{
  ℕ, ◌+◌, ◌-◌, ◌*◌, ◌≤◌, min, ◌≡◌, ap, ◌<◌, ◌⊎◌, Bool-cases, ltb, inl, inr, Option, none, some,
  List, [], ◌∷◌, arith, if◌then◌else◌,
}
use fairlane.Ratelimit.Bucket.{Bucket, expiry_ms, kept, refilled, token_bucket}

-- The refill of a bucket written at `now`.
refilled-written :
    (rate burst now wait tokens : ℕ)
    → refilled rate burst (now + wait) (some (record { tokens = tokens; updated_ms = now }))
      ≡ min burst (tokens + wait * rate)
unfolding refilled
refilled-written rate burst now wait tokens =
    ap (λ (d : ℕ). min burst (tokens + d * rate)) (gap now wait)
  where
    gap : (a b : ℕ) → a + b - a ≡ b
    gap a b = omega arith

gap_back : (a b : ℕ) → a + b - a ≡ b
gap_back a b = omega arith

short_or_long : (gap limit : ℕ) → (gap < limit) ⊎ (limit ≤ gap)
short_or_long gap limit = elim (Bool-cases (ltb gap limit)) [
  | inl h ↦ inl (ground arith)
  | inr h ↦ inr (ground arith)
]

-- The key after a pause that is shorter than its expiry, or not.
kept-some : (b : Bucket) (gap : ℕ) → gap < expiry_ms → kept (b.updated_ms + gap) b ≡ some b
unfolding kept
kept-some b gap h = rw (gap_back b.updated_ms gap) (ground arith)

kept-none : (b : Bucket) (gap : ℕ) → expiry_ms ≤ gap → kept (b.updated_ms + gap) b ≡ none
unfolding kept
kept-none b gap h = rw (gap_back b.updated_ms gap) (ground arith)

-- One call: a number of milliseconds after the last one, and the tokens it asks for.
abbrev Call : Type 0
Call = ℕ × ℕ

-- The tokens granted to calls on the bucket that the last call before them wrote.
pub granted : ℕ → ℕ → Bucket → List Call → ℕ
granted rate burst b [] = 0
granted rate burst b ((gap, requested) ∷ calls) =
    let now = b.updated_ms + gap in
    let r = token_bucket rate burst requested now (kept now b) in
    let rest = granted rate burst r.written calls in (if r.allowed then requested else 0) + rest

abbrev pub elapsed : List Call → ℕ
elapsed [] = 0
elapsed ((gap, _) ∷ calls) = gap + elapsed calls

-- The pauses in which the key expires.
abbrev pub expiries : List Call → ℕ
expiries [] = 0
expiries ((gap, _) ∷ calls) = (if ltb gap 60_000 then 0 else 1) + expiries calls

taken-le :
    (rate burst requested now : ℕ) (stored : Option Bucket)
    → (let r = token_bucket rate burst requested now stored in
        (if r.allowed then requested else 0) + r.written.tokens ≤ refilled rate burst now stored)
unfolding token_bucket
taken-le rate burst requested now stored = ground arith

refilled-kept :
    (rate burst gap : ℕ) (b : Bucket)
    → refilled rate burst (b.updated_ms + gap) (kept (b.updated_ms + gap) b)
      ≤ b.tokens + gap * rate + (if ltb gap 60_000 then 0 else 1) * burst
refilled-kept rate burst gap b = elim (short_or_long gap expiry_ms) [
  | inl h ↦
      rw (kept-some b gap h) (ground (arith, refilled-written rate burst b.updated_ms gap b.tokens))
  | inr h ↦ rw (kept-none b gap h) (unfold refilled in ground arith)
]

-- Whatever the calls, the tokens granted are at most those in the bucket, those that the rate adds in
-- the time that passes, and a full bucket for each pause of 60 s or more, in which the key expires.
pub granted-le :
    (rate burst : ℕ) (b : Bucket) (calls : List Call)
    → granted rate burst b calls ≤ b.tokens + elapsed calls * rate + expiries calls * burst
unfolding granted
granted-le rate burst b [] = omega arith
granted-le rate burst b ((gap, requested) ∷ calls) =
    let now = b.updated_ms + gap in
    let r = token_bucket rate burst requested now (kept now b) in
    omega (
      arith,
      taken-le rate burst requested now (kept now b),
      refilled-kept rate burst gap b,
      granted-le rate burst r.written calls,
    )
