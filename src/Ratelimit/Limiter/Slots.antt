-- ===== src/Ratelimit/Limiter/Slots.antt =====
-- The concurrency slots of src/fairlane/ratelimit/limiter.py.
use fairlane.Prelude.{
  ℕ, suc, ◌+◌, ◌≤◌, ◌<◌, ◌≡◌, ◌≢◌, refl, true, false, Option, none, some, leb, ltb, arith,
  Bool-cases, Option-cases, inl, inr,
}
use fairlane.Redis.{SortedSet}
use fairlane.Ratelimit.Limiter.{acquire_slot, release_slot, ranked}

module _ (R : SortedSet ℕ) where
  zcard-zadd_le : (m s : ℕ) (z : R.Z) → R.zcard (R.zadd m s z) ≤ suc (R.zcard z)
  zcard-zadd_le m s z = elim (Option-cases (R.zscore m z)) [
    | inl h ↦ omega (arith, R.zcard_zadd_new m s z h)
    | inr (r, h) ↦ omega (arith, R.zcard_zadd_old m s r z h)
  ]

  ranked-below :
      (max_concurrent task : ℕ) (z : R.Z) (rank : Option ℕ)
      → ((r : ℕ) → rank ≡ some r → r < max_concurrent)
      → ranked R max_concurrent task z rank ≡ (true, z)
  unfolding ranked
  ranked-below max_concurrent task z none h = refl
  ranked-below max_concurrent task z (some r) h = let b = h r refl in ground (arith, b)

  ranked-rank :
      (max_concurrent task rank : ℕ) (z : R.Z) (found : Option ℕ)
      → R.zrank task z ≡ found
      → (ranked R max_concurrent task z found).0 ≡ true
      → R.zrank task (ranked R max_concurrent task z found).1 ≡ some rank
      → rank < max_concurrent
  unfolding ranked
  ranked-rank max_concurrent task rank z none f got r = absurd (cc)
  ranked-rank max_concurrent task rank z (some x) f got r =
      elim (Bool-cases (leb max_concurrent x)) [
        | inl h ↦ absurd (cc (rw h at got))
        | inr h ↦
            let same : R.zrank task z ≡ some rank = rw h at r in
            let e : x ≡ rank = cc in ground arith
      ]

  -- When no other client comes between, a slot is acquired exactly if fewer than the limit are held
  -- after the expired ones are dropped; then the task holds a slot for an hour, and at most the
  -- limit are held. Otherwise the set is the one without the expired slots.
  pub acquire_slot-exact :
      (max_concurrent now task : ℕ) (z : R.Z)
      → (let cleaned = R.zremrangebyscore now z in
          let (got, after) = acquire_slot R (λ x. x) max_concurrent now task z in
          (got ≡ ltb (R.zcard cleaned) max_concurrent)
          × (got ≡ true
              → (R.zscore task after ≡ some (now + 3_600_000)) × (R.zcard after ≤ max_concurrent))
          × (got ≡ false → after ≡ cleaned))
  unfolding acquire_slot
  acquire_slot-exact max_concurrent now task z =
      let cleaned = R.zremrangebyscore now z in
      let added = R.zadd task (now + 3_600_000) cleaned in
      elim (Bool-cases (leb max_concurrent (R.zcard cleaned))) [
        | inl full ↦ rw full (ground (arith, full), λ h. absurd (cc), λ h. refl)
        | inr room ↦
            let small : R.zcard cleaned < max_concurrent = ground (arith, room) in
            let fits : R.zcard added ≤ max_concurrent =
              omega (arith, zcard-zadd_le task (now + 3_600_000) cleaned) in
            let kept =
              ranked-below max_concurrent task added (R.zrank task added)
                (λ r h. omega (arith, R.zrank_lt task r added h)) in
            rw (room, kept)
              (
                ground (arith, small),
                λ h. (R.zscore_zadd_self task _ cleaned, fits),
                λ h. absurd (cc),
              )
      ]

  -- Whatever other clients do between the count and the insertion, a slot that is acquired has a
  -- rank below the limit, or no rank.
  pub acquire_slot-rank :
      (between : R.Z → R.Z) (max_concurrent now task rank : ℕ) (z : R.Z)
      → (acquire_slot R between max_concurrent now task z).0 ≡ true
      → R.zrank task (acquire_slot R between max_concurrent now task z).1 ≡ some rank
      → rank < max_concurrent
  unfolding acquire_slot
  acquire_slot-rank between max_concurrent now task rank z got r =
      let cleaned = R.zremrangebyscore now z in
      elim (Bool-cases (leb max_concurrent (R.zcard cleaned))) [
        | inl full ↦ absurd (cc (rw full at got))
        | inr room ↦
            ranked-rank max_concurrent task rank (R.zadd task (now + 3_600_000) (between cleaned)) _
              refl (rw room at got) (rw room at r)
      ]

  -- A slot that is given back is free, and the other tasks keep theirs.
  pub release_slot-free :
      (task other : ℕ) (z : R.Z)
      → (R.zscore task (release_slot R task z) ≡ none)
        × (task ≢ other → R.zscore other (release_slot R task z) ≡ R.zscore other z)
  unfolding release_slot
  release_slot-free task other z = (R.zscore_zrem_self task z, R.zscore_zrem_ne task other z)
