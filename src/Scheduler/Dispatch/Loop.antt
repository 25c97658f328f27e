-- ===== src/Scheduler/Dispatch/Loop.antt =====
-- `run_dispatcher` and `_record_dispatch_events` of src/fairlane/scheduler/dispatcher.py: every
-- worker runs this loop, and a lock in Redis decides which of them dispatches. Times are
-- milliseconds of Redis' clock, and of the database the microseconds that `now` gives.
pub mod Rate
use fairlane.Prelude.{
  ℕ, String, Bool, true, false, ◌||◌, Option, none, some, List, [], ◌∷◌, ◌++◌, ◌≤◌, ◌≡◌, ltb, ◌==◌,
  str_eq, if◌then◌else◌,
}
use fairlane.Models.{Task}
use fairlane.Retry.{Exception}
use fairlane.Answer.{Answer, ok, raise}
use fairlane.Database.{Schema, Db}
use fairlane.Redis.{ExpiringKey}
use fairlane.Redis.Lease.{Lease, acquire, renew}
use fairlane.Scheduler.Queue.{Rooms, Queue}
use fairlane.Scheduler.Dispatch.{dispatch_cycle, dispatch_events}

-- `px=3000`, and `expire(lock_key, 3)`.
abbrev pub lock_ttl : ℕ
lock_ttl = 3000

-- `Task.id.in_(ids)`
abbrev pub member : ℕ → List ℕ → Bool
member id [] = false
member id (i ∷ ids) = id == i || member id ids

module _ {S : Schema} where
  unfoldable pub commit_events : ℕ → List Task → Option Exception → Db S → Answer Unit × Db S
  commit_events now [] commit d = (ok tt, d)
  commit_events now (t ∷ ts) none d =
      (ok tt, record d { events = d.events ++ dispatch_events now (t ∷ ts) })
  commit_events now (t ∷ ts) (some e) d = (raise e, d)

  -- The events of the tasks that the table has for the ids; `commit` is what the commit raises.
  unfoldable pub record_dispatch_events : ℕ → List ℕ → Option Exception → Db S → Answer Unit × Db S
  unfolding commit_events
  record_dispatch_events now ids commit d =
      commit_events now (S.tasks.select (λ t. member t.id ids) d.tasks) commit d

-- What `get` returns: the client decodes (`decode_responses=True` in redis_client.py), so a value
-- comes as text.
pub data Response : Type 0 where
  absent : Response
  text bytes : String → Response

abbrev pub decoded : Option String → Response
decoded none = absent
decoded (some s) = text s

-- `== b"1"`
unfoldable pub is_own : Response → Bool
is_own (bytes s) = str_eq s "1"
is_own (text s) = false
is_own absent = false

-- Where a dispatcher stands in its loop: before it asks for the lock, with the lock before the
-- cycle, after the cycle before it renews the lock, or after the loop.
pub data Phase : Type 0 where
  waiting holding renewing stopped : Phase

-- The lock, the phase of each dispatcher, what is committed and the waiting rooms.
pub record Cluster (L : ExpiringKey) (S : Schema) (R : Rooms) : Type 0 where
  pub lease : Lease L
  pub phase : ℕ → Phase
  pub db : Db S
  pub queue : Queue R

enter : ℕ → Phase → (ℕ → Phase) → ℕ → Phase
enter i p f j = if j == i then p else f j

-- What GET finds of the lock, whose value is always "1".
abbrev pub stored : (L : ExpiringKey) → ℕ → L.Key → Option String
stored L now k = if ltb now (L.until k) then some "1" else none

module _ {L : ExpiringKey} {S : Schema} {R : Rooms} where
  -- `set(lock_key, "1", nx=True, px=3000)`
  unfoldable pub ask : ℕ → ℕ → Cluster L S R → Cluster L S R
  unfolding enter
  ask i now c =
      let (acquired, lease) = acquire L lock_ttl now c.lease in
      record c {
        lease = lease;
        phase = if acquired then enter i Phase.holding c.phase else c.phase;
      }

  -- `_dispatch_cycle` and then the events of the tasks that it dispatched.
  unfoldable pub cycle : ℕ → ℕ → ℕ → Option Exception → Cluster L S R → Answer Unit × Cluster L S R
  cycle unit active_workers time commit c =
      let (queue, ids) = dispatch_cycle unit active_workers c.queue in
      let (answer, db) = record_dispatch_events time ids commit c.db in
      (answer, record c { queue = queue; db = db })

  unfoldable pub after_cycle : ℕ → Answer Unit × Cluster L S R → Cluster L S R
  unfolding enter
  after_cycle i (ok u, c) = record c { phase = enter i Phase.renewing c.phase }
  after_cycle i (raise e, c) = record c { phase = enter i Phase.waiting c.phase }

  -- `expire(lock_key, 3)`
  unfoldable pub extend : ℕ → ℕ → Cluster L S R → Cluster L S R
  unfolding enter
  extend i now c = record c {
    lease = renew L lock_ttl now c.lease;
    phase = enter i Phase.waiting c.phase;
  }

  -- The `finally` clause.
  unfoldable pub leave : ℕ → ℕ → Cluster L S R → Cluster L S R
  unfolding enter is_own
  leave i now c = record c {
    lease = record (c.lease) {
      clock = now;
      key = if is_own (decoded (stored L now c.lease.key)) then L.del c.lease.key else c.lease.key;
    };
    phase = enter i Phase.stopped c.phase;
  }

-- One thing that happens, no earlier than all before: a dispatcher's next command, the end of a
-- dispatcher, or whatever other processes do to the database and to the waiting rooms.
pub data Step {L : ExpiringKey} {S : Schema} {R : Rooms} (unit : ℕ) (c : Cluster L S R)
    : Cluster L S R → Type 0 where
  asks : (i now : ℕ) → c.lease.clock ≤ now → c.phase i ≡ Phase.waiting → Step unit c (ask i now c)
  cycles :
      (i active_workers time : ℕ) (commit : Option Exception)
      → c.phase i ≡ Phase.holding
      → Step unit c (after_cycle i (cycle unit active_workers time commit c))
  raises :
      (i : ℕ) (e : Exception) → c.phase i ≡ Phase.holding → Step unit c (after_cycle i (raise e, c))
  extends :
      (i now : ℕ) → c.lease.clock ≤ now → c.phase i ≡ Phase.renewing → Step unit c (extend i now c)
  leaves : (i now : ℕ) → c.lease.clock ≤ now → Step unit c (leave i now c)
  others : (db : Db S) (queue : Queue R) → Step unit c (record c { db = db; queue = queue })

pub data Reach {L : ExpiringKey} {S : Schema} {R : Rooms} (unit : ℕ) (c : Cluster L S R)
    : Cluster L S R → Type 0 where
  here : Reach unit c c
  next : {d e : Cluster L S R} → Reach unit c d → Step unit d e → Reach unit c e
