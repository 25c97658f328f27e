-- ===== src/Collector/Counts.antt =====
-- The counts by tenant and status in src/fairlane/metrics_collector.py: the dictionaries that a round
-- fills from the rows of its query, and the gauges that it sets from them.
use fairlane.Prelude.{
  ℕ, String, Bool, true, false, ◌&&◌, ◌||◌, Option, none, some, List, [], ◌∷◌, ◌++◌, str_eq,
  is_some, if◌then◌else◌,
}
use fairlane.Models.{TaskStatus}
use fairlane.Scheduler.Queue.{update}

-- A dictionary of counts: its keys, and the count of each.
pub record CountsByTenant : Type 0 where
  pub keys : List String
  pub at : String → Option ℕ

abbrev pub empty : CountsByTenant
empty = record { keys = []; at = λ t. none }

-- `d[t_id] = count`
unfoldable pub put : String → ℕ → CountsByTenant → CountsByTenant
put t n d = record {
  keys = if is_some (d.at t) then d.keys else d.keys ++ t ∷ [];
  at = update d.at t (some n);
}

abbrev pub same_status : TaskStatus → TaskStatus → Bool
same_status TaskStatus.pending TaskStatus.pending = true
same_status TaskStatus.running TaskStatus.running = true
same_status TaskStatus.succeeded TaskStatus.succeeded = true
same_status TaskStatus.failed TaskStatus.failed = true
same_status TaskStatus.dead TaskStatus.dead = true
same_status a b = false

abbrev pub same_group : String × TaskStatus → String × TaskStatus → Bool
same_group (t, s) (u, r) = str_eq t u && same_status s r

-- `tenant_running`, `tenant_dlq` and `tenant_waiting`
pub record Tenants : Type 0 where
  pub running : CountsByTenant
  pub dlq : CountsByTenant
  pub waiting : CountsByTenant

unfoldable pub place : String → TaskStatus → ℕ → Tenants → Tenants
place t TaskStatus.running n c = record c { running = put t n c.running }
place t TaskStatus.dead n c = record c { dlq = put t n c.dlq }
place t TaskStatus.pending n c = record c { waiting = put t n c.waiting }
place t _ n c = c

unfoldable pub place_all : List ((String × TaskStatus) × ℕ) → Tenants → Tenants
place_all [] c = c
place_all (((t, s), n) ∷ rows) c = place_all rows (place t s n c)

-- `for t, c in d.items(): GAUGE.labels(tenant=t).set(c)`, over the keys that are left.
abbrev pub set_at : String → Option ℕ → (String → Option ℕ) → String → Option ℕ
set_at t none g = g
set_at t (some n) g = update g t (some n)

unfoldable pub set_all : List String → CountsByTenant → (String → Option ℕ) → String → Option ℕ
set_all [] d g = g
set_all (t ∷ ts) d g = set_all ts d (set_at t (d.at t) g)

abbrev pub contains : String → List String → Bool
contains t [] = false
contains t (u ∷ us) = str_eq t u || contains t us

unfoldable pub union : List String → List String → List String
union us [] = us
union us (t ∷ ts) = if contains t us then union us ts else t ∷ union us ts
