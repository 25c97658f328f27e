-- ===== src/Retry/Backoff.antt =====
-- `calculate_backoff` of src/fairlane/retry.py. `base_delay * 2 ** (attempt - 1)` is written
-- `base_delay * 2 ^ attempt / 2`, which is the same float for attempt 0, where the power is 0.5.
-- `random.uniform` is the argument `uniform`.
use fairlane.Prelude.{
  ℕ, suc, ◌*◌, ◌/◌, ◌^◌, ◌≤◌, min, ◌≡◌, ap, Bool, true, false, arith, if◌then◌else◌,
}
use native.Mathlib.Nat.{pow-suc}

abbrev pub default_base : ℕ
default_base = 1_000_000

abbrev pub default_max : ℕ
default_max = 60_000_000

unfoldable pub calculate_backoff : (ℕ → ℕ → ℕ) → ℕ → ℕ → ℕ → Bool → ℕ
calculate_backoff uniform attempt base_delay max_delay jitter =
    let delay = min max_delay (base_delay * 2 ^ attempt / 2) in
    if jitter then uniform 0 delay else delay

module _ (uniform : ℕ → ℕ → ℕ)
    (in_range : (lo hi : ℕ) → lo ≤ hi → (lo ≤ uniform lo hi) × (uniform lo hi ≤ hi)) where
  -- With or without jitter the delay is at most the cap and at most the exponential delay.
  pub calculate_backoff_bounds :
      (attempt base_delay max_delay : ℕ) (jitter : Bool)
      → (calculate_backoff uniform attempt base_delay max_delay jitter ≤ max_delay)
        × (calculate_backoff uniform attempt base_delay max_delay jitter
            ≤ base_delay * 2 ^ attempt / 2)
  unfolding calculate_backoff
  calculate_backoff_bounds attempt base_delay max_delay true =
      let m = min max_delay (base_delay * 2 ^ attempt / 2) in
      let r = in_range 0 m (omega arith) in (omega (arith, r), omega (arith, r))
  calculate_backoff_bounds attempt base_delay max_delay false = omega arith

half_pow : (b n : ℕ) → b * 2 ^ suc n / 2 ≡ b * 2 ^ n
half_pow b n = omega (arith, pow-suc 2 n, ap (λ (t : ℕ). b * t) (pow-suc 2 n))

-- Without jitter the delay doubles from one attempt to the next until it reaches the cap.
pub calculate_backoff_doubles :
    (uniform : ℕ → ℕ → ℕ) (attempt base_delay max_delay : ℕ)
    → calculate_backoff uniform (suc (suc attempt)) base_delay max_delay false
      ≡ min max_delay (2 * calculate_backoff uniform (suc attempt) base_delay max_delay false)
unfolding calculate_backoff
calculate_backoff_doubles uniform attempt base_delay max_delay = omega (
  arith,
  half_pow base_delay attempt,
  half_pow base_delay (suc attempt),
  pow-suc 2 attempt,
  ap (λ (t : ℕ). base_delay * t) (pow-suc 2 attempt),
)
