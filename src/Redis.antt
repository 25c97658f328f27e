-- ===== src/Redis.antt =====
-- Redis as the source uses it: a sorted set is an interface, with the commands that the scripts and
-- the limiter send and what the documentation of these commands says. It is not defined here.
pub mod Lease
use fairlane.Prelude.{
  ℕ, suc, ◌+◌, ◌≤◌, ◌<◌, ◌≡◌, ◌≢◌, ◌⊎◌, inl, inr, sym, Bool, true, false, Option, none, some, List,
  [], ◌∷◌, In, All, length,
}

-- Scores rise along the list.
abbrev pub Ascending {ℓ} : {M : Type ℓ} → List (M × ℕ) → Type ℓ
Ascending [] = Unit
Ascending ((m, s) ∷ l) = All (λ e. s ≤ e.1) l × Ascending l

-- Scores are natural numbers; the source's scores are times, and virtual times in fixed units.
pub record SortedSet (M : Type 0) : Type 1 where
  pub Z : Type 0
  pub zscore : M → Z → Option ℕ
  pub zadd : M → ℕ → Z → Z
  pub zrem : M → Z → Z
  -- ZREMRANGEBYSCORE key -inf max
  pub zremrangebyscore : ℕ → Z → Z
  pub zcard : Z → ℕ
  pub zrank : M → Z → Option ℕ
  -- ZRANGE key 0 -1 WITHSCORES
  pub zrange : Z → List (M × ℕ)
  pub zscore_zadd_self : (m : M) (s : ℕ) (z : Z) → zscore m (zadd m s z) ≡ some s
  pub zscore_zadd_ne : (m k : M) (s : ℕ) (z : Z) → m ≢ k → zscore k (zadd m s z) ≡ zscore k z
  pub zscore_zrem_self : (m : M) (z : Z) → zscore m (zrem m z) ≡ none
  pub zscore_zrem_ne : (m k : M) (z : Z) → m ≢ k → zscore k (zrem m z) ≡ zscore k z
  pub zcard_zadd_new :
      (m : M) (s : ℕ) (z : Z) → zscore m z ≡ none → zcard (zadd m s z) ≡ suc (zcard z)
  pub zcard_zadd_old :
      (m : M) (s r : ℕ) (z : Z) → zscore m z ≡ some r → zcard (zadd m s z) ≡ zcard z
  pub zcard_zrem : (m : M) (s : ℕ) (z : Z) → zscore m z ≡ some s → suc (zcard (zrem m z)) ≡ zcard z
  pub zrank_lt : (m : M) (r : ℕ) (z : Z) → zrank m z ≡ some r → r < zcard z
  pub zrange_ascending : (z : Z) → Ascending (zrange z)
  pub zrange_complete : (m : M) (s : ℕ) (z : Z) → zscore m z ≡ some s → In (m, s) (zrange z)
  pub zcard_zrange : (z : Z) → zcard z ≡ length (zrange z)
  pub zrange_sound : (z : Z) → All (λ e. zscore e.0 z ≡ some e.1) (zrange z)

-- One string key that expires, with the milliseconds of Redis' clock. `until` is the moment it
-- expires at, 0 while there is none: at `now` the key is there while `now < until`.
pub record ExpiringKey : Type 1 where
  pub Key : Type 0
  pub until : Key → ℕ
  -- SET key value NX PX ttl: whether the key was set
  pub set_nx_px : ℕ → ℕ → Key → Bool × Key
  -- PEXPIRE key ttl
  pub pexpire : ℕ → ℕ → Key → Key
  -- DEL key
  pub del : Key → Key
  pub set_nx_px_taken : (now ttl : ℕ) (k : Key) → now < until k → set_nx_px now ttl k ≡ (false, k)
  pub set_nx_px_free :
      (now ttl : ℕ) (k : Key)
      → until k ≤ now
      → ((set_nx_px now ttl k).0 ≡ true) × (until (set_nx_px now ttl k).1 ≡ now + ttl)
  pub pexpire_there :
      (now ttl : ℕ) (k : Key) → now < until k → until (pexpire now ttl k) ≡ now + ttl
  pub pexpire_gone : (now ttl : ℕ) (k : Key) → until k ≤ now → pexpire now ttl k ≡ k
  pub until_del : (k : Key) → until (del k) ≡ 0
