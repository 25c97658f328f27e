-- ===== src/Api/Tenants/Held.antt =====
-- What setting the limits of a tenant (src/fairlane/api/tenant_routes.py) keeps true of the database.
use fairlane.Prelude.{String, Option, none, some}
use fairlane.Retry.{Exception}
use fairlane.Database.{Schema, Db}
use fairlane.Scheduler.Queue.{Rooms}
use fairlane.System.Closed.{Closed}
use fairlane.Api.Service.{Service}
use fairlane.Api.Tenants.{TenantLimitsConfig, set_weight, commit_limits, set_tenant_limits}

module _ {S : Schema} {R : Rooms} (I : Db S → Type 0) (closed : Closed S I) (tenant : String)
    (c : TenantLimitsConfig) where
  set_weight-Held :
      (redis : Option Exception) (s : Service S R) → I s.db → I (set_weight tenant c redis s).1.db
  unfolding set_weight
  set_weight-Held (some e) s h = h
  set_weight-Held none s h = h

  commit_limits-Held :
      (commit redis : Option Exception) (s : Service S R) (o : Option S.tenant_limits.Rows)
      → I s.db
      → I (commit_limits tenant c commit redis s o).1.db
  unfolding commit_limits
  commit_limits-Held (some e) redis s o h = h
  commit_limits-Held none redis s none h = h
  commit_limits-Held none redis s (some rows) h =
      set_weight-Held redis _ (closed.aside s.db s.db.workers rows h)

  -- A property of the database that every transaction keeps holds after the limits are set.
  pub set_tenant_limits-Held :
      (commit redis : Option Exception) (s : Service S R)
      → I s.db
      → I (set_tenant_limits tenant c commit redis s).1.db
  unfolding set_tenant_limits
  set_tenant_limits-Held commit redis s h = commit_limits-Held commit redis s _ h
