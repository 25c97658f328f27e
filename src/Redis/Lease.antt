-- ===== src/Redis/Lease.antt =====
-- A lock that is a key with an expiry, set only if it is not there, as the dispatcher, the reaper
-- and the metrics collector of src/fairlane take theirs.
use fairlane.Prelude.{
  ℕ, suc, ◌+◌, ◌-◌, ◌*◌, ◌≤◌, ◌≡◌, Bool, List, [], ◌∷◌, All, length, arith, leb, inl, inr,
  Bool-cases, if◌then◌else◌,
}
use fairlane.Redis.{ExpiringKey}

-- The lock, the latest moment that anything happened at, and the moments at which the lock was
-- taken, latest first.
pub record Lease (L : ExpiringKey) : Type 0 where
  pub clock : ℕ
  pub key : L.Key
  pub starts : List ℕ

-- Each of the moments is at least `gap` after all that follow in the list.
abbrev pub Apart : ℕ → List ℕ → Type 0
Apart gap [] = Unit
Apart gap (a ∷ l) = All (λ b. b + gap ≤ a) l × Apart gap l

pub All-weaken : (P Q : ℕ → Type 0) → ((a : ℕ) → P a → Q a) → (l : List ℕ) → All P l → All Q l
All-weaken P Q f [] h = tt
All-weaken P Q f (a ∷ l) h = (f a h.0, All-weaken P Q f l h.1)

-- Moments that are `gap` apart are few.
pub length-Apart :
    (gap c : ℕ) (l : List ℕ) → Apart gap l → All (λ a. a ≤ c) l → length l * gap ≤ c + gap
length-Apart gap c [] h k = omega arith
length-Apart gap c (a ∷ []) h k = omega arith
length-Apart gap c (a ∷ b ∷ l) h k =
    let before =
      All-weaken (λ x. x + gap ≤ a) (λ x. x ≤ a - gap) (λ x p. omega arith) (b ∷ l) h.0 in
    let n = length-Apart gap (a - gap) (b ∷ l) h.1 before in
    let first : b + gap ≤ a = h.0.0 in
    let step : suc (length (b ∷ l)) * gap ≡ length (b ∷ l) * gap + gap = ground arith in
    let top : a ≤ c = k.0 in omega arith

module _ (L : ExpiringKey) (ttl : ℕ) where
  -- The answer of SET, and what it leaves.
  unfoldable pub acquire : ℕ → Lease L → Bool × Lease L
  acquire now l =
      let (acquired, key) = L.set_nx_px now ttl l.key in
      (
        acquired,
        record { clock = now; key = key; starts = if acquired then now ∷ l.starts else l.starts },
      )

  unfoldable pub renew : ℕ → Lease L → Lease L
  renew now l = record l { clock = now; key = L.pexpire now ttl l.key }

  -- The lock outlives each of the moments it was taken at by its time to live.
  pub record IsLeased (l : Lease L) : Type 0 where
    pub apart : Apart ttl l.starts
    pub kept : All (λ a. a + ttl ≤ L.until l.key) l.starts
    pub past : All (λ a. a ≤ l.clock) l.starts

  pub acquire-IsLeased :
      (now : ℕ) (l : Lease L) → l.clock ≤ now → IsLeased l → IsLeased (acquire now l).1
  unfolding acquire
  acquire-IsLeased now l le h = elim (Bool-cases (leb (L.until l.key) now)) [
    | inl e ↦
        let (got, u) = L.set_nx_px_free now ttl l.key (ground arith) in
        let before : All (λ a. a + ttl ≤ now) l.starts =
          All-weaken (λ a. a + ttl ≤ L.until l.key) (λ a. a + ttl ≤ now) (λ a p. ground arith)
            l.starts h.kept in
        rw got record {
          apart = (before, h.apart);
          kept = (
            omega (arith, u),
            All-weaken (λ a. a + ttl ≤ now) (λ a. a + ttl ≤ L.until (L.set_nx_px now ttl l.key).1)
                (λ a p. omega (arith, u, p)) l.starts before,
          );
          past = (
            omega arith,
            All-weaken (λ a. a ≤ l.clock) (λ a. a ≤ now) (λ a p. omega arith) l.starts h.past,
          );
        }
    | inr e ↦ rw (L.set_nx_px_taken now ttl l.key (ground arith)) record {
      apart = h.apart;
      kept = h.kept;
      past = All-weaken _ _ (λ a p. omega arith) l.starts h.past;
    }
  ]

  pub renew-IsLeased : (now : ℕ) (l : Lease L) → l.clock ≤ now → IsLeased l → IsLeased (renew now l)
  unfolding renew
  renew-IsLeased now l le h = elim (Bool-cases (leb (L.until l.key) now)) [
    | inl e ↦ rw (L.pexpire_gone now ttl l.key (ground arith)) record {
      apart = h.apart;
      kept = h.kept;
      past = All-weaken _ _ (λ a p. omega arith) l.starts h.past;
    }
    | inr e ↦
        let u = L.pexpire_there now ttl l.key (ground arith) in
        record {
          apart = h.apart;
          kept = All-weaken _ _ (λ a p. omega (arith, u, p)) l.starts h.past;
          past = All-weaken _ _ (λ a p. omega arith) l.starts h.past;
        }
  ]

  -- Time passes.
  pub past-IsLeased :
      (now : ℕ) (l : Lease L) → l.clock ≤ now → IsLeased l → IsLeased (record l { clock = now })
  past-IsLeased now l le h = record {
    apart = h.apart;
    kept = h.kept;
    past = All-weaken (λ a. a ≤ l.clock) (λ a. a ≤ now) (λ a p. omega arith) l.starts h.past;
  }
