-- ===== src/Scheduler/Queue.antt =====
-- The waiting rooms in Redis, and `enqueue` of src/fairlane/scheduler/__init__.py with its script.
pub mod Order
use fairlane.Prelude.{
  ℕ, ◌+◌, ◌-◌, ◌*◌, ◌/◌, String, ◌≡◌, Bool, true, false, Option, none, some, List, [], ◌∷◌, ℤ, ltb,
  str_eq, or_else, if◌then◌else◌,
}
use fairlane.Models.{Task}
use fairlane.Config.{aging_ms_per_level}
use fairlane.Redis.{SortedSet}

-- Sorted sets of task ids, and of tenants.
pub record Rooms : Type 1 where
  pub tasks : SortedSet ℕ
  pub tenants : SortedSet String

-- The keys `ready:<tenant>`, `tenants:vtime`, `instream:<tenant>`, `tenant_weight:<tenant>` and
-- `tasks:stream`. Virtual times are counted in fixed units.
pub record Queue (R : Rooms) : Type 0 where
  pub ready : String → R.tasks.Z
  pub vtime : R.tenants.Z
  pub instream : String → ℤ
  pub weight : String → Option ℕ
  pub stream : List ℕ

-- The score of a task: the millisecond it was first enqueued in, and a penalty for its priority.
unfoldable pub score : Task → ℕ
score t = or_else t.original_enqueue_at t.created_at / 1000 + (t.priority - 1) * aging_ms_per_level

-- The keyspace after a write to one tenant's key.
abbrev pub update {ℓ} : {A : Type ℓ} → (String → A) → String → A → String → A
update f k a j = if str_eq j k then a else f j

unfoldable pub min_vtime : List (String × ℕ) → ℕ
min_vtime [] = 0
min_vtime ((m, s) ∷ l) = s

module _ {R : Rooms} where
  -- The tenant's virtual time is set to the least one if it has none or a smaller one.
  unfoldable pub touch : String → Option ℕ → Queue R → R.tenants.Z
  touch tenant none q = R.tenants.zadd tenant (min_vtime (R.tenants.zrange q.vtime)) q.vtime
  touch tenant (some v) q =
      let least = min_vtime (R.tenants.zrange q.vtime) in
      if ltb v least then R.tenants.zadd tenant least q.vtime else q.vtime

  unfoldable pub enqueue : Task → Queue R → Queue R
  enqueue t q = record q {
    ready = update q.ready t.tenant_id (R.tasks.zadd t.id (score t) (q.ready t.tenant_id));
    vtime = touch t.tenant_id (R.tenants.zscore t.tenant_id q.vtime) q;
  }
