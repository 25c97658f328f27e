-- ===== src/Api/Tenants/Limits.antt =====
-- The limits of a tenant, set and read again (src/fairlane/api/tenant_routes.py).
use mathlib.Core.Path.{subst}
use text.Mathlib.TextPositions.{eq_refl}
use fairlane.Prelude.{String, ◌≡◌, ◌≢◌, refl, sym, ap, ◌∙◌, Option, none, some}
use fairlane.Models.{TenantLimit}
use fairlane.Retry.{Exception}
use fairlane.Database.{Schema}
use fairlane.Scheduler.Queue.{Rooms, update}
use fairlane.Ratelimit.Limiter.{Limits, config_of}
use fairlane.Api.Service.{Reply, sent, Service}
use fairlane.Api.Tenants.{
  TenantLimitsConfig, limit_row, set_weight, commit_limits, limit_rows, set_tenant_limits,
  limits_or_default, get_tenant_limits,
}

-- What the rate limiter of a worker uses of the limits.
abbrev pub limits_of : TenantLimitsConfig → Limits
limits_of c = record {
  rate_per_second = c.rate_per_second;
  burst_capacity = c.burst_capacity;
  max_concurrent = c.max_concurrent;
}

module _ {S : Schema} {R : Rooms} (tenant : String) (c : TenantLimitsConfig)
    (s after : Service S R) where
  -- The tenant's row is the one that was asked for, and the other rows are as they were.
  abbrev Stored : S.tenant_limits.Rows → Type 0
  Stored rows =
      (S.tenant_limits.find tenant rows ≡ some (limit_row tenant c))
      × ((other : String)
          → tenant ≢ other
          → S.tenant_limits.find other rows ≡ S.tenant_limits.find other s.db.tenant_limits)

  limit_rows-Stored :
      (o : Option TenantLimit) (rows : S.tenant_limits.Rows)
      → S.tenant_limits.find tenant s.db.tenant_limits ≡ o
      → limit_rows (limit_row tenant c) s.db o ≡ some rows
      → Stored rows
  unfolding limit_rows limit_row
  limit_rows-Stored none rows f h = (
    S.tenant_limits.find_insert_self _ _ rows h,
    λ other n. S.tenant_limits.find_insert_ne other _ _ rows h n,
  )
  limit_rows-Stored (some old) rows f h =
      let q : S.tenant_limits.update (limit_row tenant c) s.db.tenant_limits ≡ rows = cc in
      subst Stored q (
        S.tenant_limits.find_update_self _ old s.db.tenant_limits f,
        λ other n. S.tenant_limits.find_update_ne other _ s.db.tenant_limits n,
      )

  commit_limits-sent :
      (commit redis : Option Exception) (o : Option S.tenant_limits.Rows) (x : TenantLimitsConfig)
      → commit_limits tenant c commit redis s o ≡ (sent x, after)
      → (x ≡ c)
        × ((rows : S.tenant_limits.Rows) × (o ≡ some rows)
            × (after.db.tenant_limits ≡ rows)
            × (after.queue.weight tenant ≡ some c.weight))
  unfolding commit_limits set_weight
  commit_limits-sent (some e) redis o x h = absurd (cc)
  commit_limits-sent none redis none x h = absurd (cc)
  commit_limits-sent none (some e) (some rows) x h = absurd (cc)
  commit_limits-sent none none (some rows) x h =
      let w : update s.queue.weight tenant (some c.weight) tenant ≡ some c.weight =
        rw (eq_refl tenant) refl in
      (
        cc,
        (
          rows,
          refl,
          ap (λ (r : Reply TenantLimitsConfig × Service S R). r.1.db.tenant_limits) (sym h),
          ap (λ (r : Reply TenantLimitsConfig × Service S R). r.1.queue.weight tenant) (sym h) ∙ w,
        ),
      )

-- When limits have been set without an error, they are the ones that are read back, those of every
-- other tenant are as before, the rate limiter reads their rate, burst and concurrency, and the
-- dispatcher the weight.
pub set_tenant_limits-get :
    {S : Schema} {R : Rooms} (tenant : String) (c x : TenantLimitsConfig)
    (commit redis : Option Exception) (s after : Service S R)
    → set_tenant_limits tenant c commit redis s ≡ (sent x, after)
    → (x ≡ c)
      × (get_tenant_limits tenant after.db ≡ sent c)
      × ((other : String)
          → tenant ≢ other
          → get_tenant_limits other after.db ≡ get_tenant_limits other s.db)
      × (config_of (S.tenant_limits.find tenant after.db.tenant_limits) ≡ limits_of c)
      × (after.queue.weight tenant ≡ some c.weight)
unfolding set_tenant_limits get_tenant_limits limits_or_default limit_row config_of
set_tenant_limits-get {S} tenant c x commit redis s after h =
    let (e, k) = commit_limits-sent tenant c s after commit redis _ x h in
    let (rows, i, d, w) = k in
    let (self, ne) = limit_rows-Stored tenant c s after _ rows refl i in
    (
      e,
      rw d (rw self refl),
      λ other n. rw d (ap (λ o. sent (limits_or_default o)) (ne other n)),
      rw d (rw self refl),
      w,
    )
