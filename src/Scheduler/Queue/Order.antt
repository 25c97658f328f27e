-- ===== src/Scheduler/Queue/Order.antt =====
-- What `enqueue` of src/fairlane/scheduler/__init__.py does to the order of tasks and of tenants.
use fairlane.Prelude.{
  In, All-In, ℕ, ◌+◌, ◌-◌, ◌*◌, ◌/◌, ◌≤◌, ◌<◌, String, ◌≡◌, ◌≢◌, false, Option, none, some, List,
  [], ◌∷◌, arith, str_eq, or_else, inl, inr,
}
use text.Mathlib.TextPositions.{eq_refl}
use fairlane.Models.{Task}
use fairlane.Config.{aging_ms_per_level}
use fairlane.Redis.{Ascending}
use fairlane.Scheduler.Queue.{Rooms, Queue, score, update, min_vtime, touch, enqueue}

-- The millisecond in which the task was first enqueued.
abbrev pub enqueued_ms : Task → ℕ
enqueued_ms t = or_else t.original_enqueue_at t.created_at / 1000

-- A task of lower priority has the smaller or equal score exactly if the other was enqueued at
-- least the difference of their priority penalties later.
pub score_aging :
    (low high : Task)
    → 0 < high.priority
    → high.priority ≤ low.priority
    → (enqueued_ms low + (low.priority - high.priority) * aging_ms_per_level ≤ enqueued_ms high
        → score low ≤ score high)
      × (score low ≤ score high
          → enqueued_ms low + (low.priority - high.priority) * aging_ms_per_level
            ≤ enqueued_ms high)
unfolding score
score_aging low high p h = (λ k. omega arith, λ k. omega arith)

module _ {R : Rooms} (t : Task) (q : Queue R) where
  update_self : (f : String → R.tasks.Z) (k : String) (a : R.tasks.Z) → update f k a k ≡ a
  update_self f k a = ground (arith, eq_refl k)

  head-le :
      (m : String) (s : ℕ) (l : List (String × ℕ)) → Ascending l → In (m, s) l → min_vtime l ≤ s
  unfolding min_vtime
  head-le m s [] a i = absurd i
  head-le m s ((n, r) ∷ l) a (inl e) = ground arith
  head-le m s ((n, r) ∷ l) a (inr i) = All-In (λ e. r ≤ e.1) l a.0 i

  least-le :
      (m : String) (s : ℕ)
      → R.tenants.zscore m q.vtime ≡ some s
      → min_vtime (R.tenants.zrange q.vtime) ≤ s
  least-le m s h =
      head-le m s _ (R.tenants.zrange_ascending q.vtime) (R.tenants.zrange_complete m s q.vtime h)

  -- Enqueueing puts the task into its tenant's room with its score, and moves no other task and no
  -- other tenant's room.
  pub enqueue-ready :
      (R.tasks.zscore t.id ((enqueue t q).ready t.tenant_id) ≡ some (score t))
      × ((id : ℕ)
          → t.id ≢ id
          → R.tasks.zscore id ((enqueue t q).ready t.tenant_id)
            ≡ R.tasks.zscore id (q.ready t.tenant_id))
      × ((tenant : String)
          → str_eq tenant t.tenant_id ≡ false
          → (enqueue t q).ready tenant ≡ q.ready tenant)
  unfolding enqueue
  enqueue-ready =
      let e = eq_refl t.tenant_id in
      (
        rw e (R.tasks.zscore_zadd_self _ _ _),
        λ id h. rw e (R.tasks.zscore_zadd_ne t.id id _ _ h),
        λ tenant h. rw h,
      )

  touch-member :
      (v : ℕ) (found : Option ℕ)
      → R.tenants.zscore t.tenant_id q.vtime ≡ some v
      → found ≡ some v
      → touch t.tenant_id found q ≡ q.vtime
  unfolding touch
  touch-member v none h f = absurd (cc)
  touch-member v (some x) h f =
      let l = least-le t.tenant_id v h in let e : x ≡ v = cc in ground arith

  -- Enqueueing leaves every virtual time as it was if the tenant has one; a tenant without one gets
  -- the least virtual time of all, and the other tenants keep theirs.
  pub enqueue-vtime :
      ((v : ℕ) → R.tenants.zscore t.tenant_id q.vtime ≡ some v → (enqueue t q).vtime ≡ q.vtime)
      × (R.tenants.zscore t.tenant_id q.vtime ≡ none
          → (R.tenants.zscore t.tenant_id (enqueue t q).vtime
              ≡ some (min_vtime (R.tenants.zrange q.vtime)))
            × ((m : String)
                → t.tenant_id ≢ m
                → R.tenants.zscore m (enqueue t q).vtime ≡ R.tenants.zscore m q.vtime))
  unfolding enqueue
  enqueue-vtime = (
    λ v h. touch-member v _ h h,
    λ h. rw h (
        unfold touch in
        (R.tenants.zscore_zadd_self _ _ _, λ m k. R.tenants.zscore_zadd_ne _ m _ _ k)),
  )
