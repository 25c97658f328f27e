-- ===== src/Collector.antt =====
-- src/fairlane/metrics_collector.py: the gauges that every worker may refresh, under a lock, from the
-- database and from Redis. Times are microseconds, and those of the lock milliseconds.
mod Counts
pub mod Raised
pub mod Tallies
pub mod Counted
pub mod Ages
unfoldable pub use Counts.*
use fairlane.Prelude.{
  ℕ, ◌-◌, ◌*◌, ◌/◌, String, Bool, true, false, ◌&&◌, ◌||◌, Option, none, some, List, [], ◌∷◌, ◌++◌,
  length, str_eq, is_some, if◌then◌else◌,
}
use fairlane.Models.{Task, TaskStatus, Worker, WorkerStatus}
use fairlane.Retry.{Exception}
use fairlane.Answer.{Answer, ok, raise}
use fairlane.Database.{Schema, Db}
use fairlane.Database.Group.{group_by}
use fairlane.Redis.{ExpiringKey}
use fairlane.Redis.Lease.{Lease, acquire}
use fairlane.Ratelimit.Bucket.{Bucket}
use fairlane.Scheduler.Queue.{Rooms, Queue, update}

-- `LOCK_EXPIRY`, in milliseconds
abbrev pub lock_expiry : ℕ
lock_expiry = 5000

-- The gauges of src/fairlane/metrics.py that the collector sets. A labelled gauge has no value
-- until it is first set. Ages are microseconds.
pub record Gauges : Type 0 where
  pub stream_depth : ℕ
  pub tasks_running : String → Option ℕ
  pub dlq_size : String → Option ℕ
  pub queue_waiting : String → Option ℕ
  pub workers_active : ℕ
  pub workers_dead : ℕ
  pub queue_oldest_age : String → Option ℕ
  pub tenant_virtual_time : String → Option ℕ
  pub tenant_tokens : String → Option ℕ

-- What happens to one round: the moment, and what each command answers or raises. `vtime_key` is
-- what Redis has for the keys `vtime:<tenant>`, `buckets` the hashes `ratelimit:<tenant>`, and the
-- functions on tenants are what the commands for a tenant raise.
pub record Round (S : Schema) (R : Rooms) : Type 0 where
  pub now : ℕ
  pub lock : Option Exception
  pub stream_info : Answer (Option ℕ)
  pub status_query : Option Exception
  pub workers_query : Option Exception
  pub on_zrange : String → Option Exception
  pub on_get : String → Option Exception
  pub on_hget : String → Option Exception
  pub vtime_key : String → Option ℕ
  pub buckets : String → Option Bucket
  pub db : Db S
  pub queue : Queue R

abbrev pub same_worker_status : WorkerStatus → WorkerStatus → Bool
same_worker_status WorkerStatus.active WorkerStatus.active = true
same_worker_status WorkerStatus.dead WorkerStatus.dead = true
same_worker_status a b = false

-- The gauges so far, and the exception that has ended the round.
abbrev pub Outcome : Type 0
Outcome = Option Exception × Gauges

abbrev pub unless_raised : Option Exception → (Gauges → Outcome) → Gauges → Outcome
unless_raised none k g = k g
unless_raised (some e) k g = (some e, g)

abbrev pub and_then : Outcome → (Gauges → Outcome) → Outcome
and_then (x, g) k = unless_raised x k g

unfoldable pub read_stream : Answer (Option ℕ) → Gauges → Gauges
read_stream (raise e) g = g
read_stream (ok none) g = g
read_stream (ok (some n)) g = record g { stream_depth = n }

-- `max(0, now - score)` in microseconds: `now` is in seconds, and the score is taken as it stands.
unfoldable pub oldest_age : ℕ → List (ℕ × ℕ) → ℕ
oldest_age now [] = 0
oldest_age now ((id, score) ∷ l) = now - score * 1_000_000

abbrev pub tokens_of : Option Bucket → Option ℕ
tokens_of none = none
tokens_of (some b) = some b.tokens

unfoldable pub set_counts : Tenants → Gauges → Gauges
set_counts c g = record g {
  tasks_running = set_all c.running.keys c.running g.tasks_running;
  dlq_size = set_all c.dlq.keys c.dlq g.dlq_size;
  queue_waiting = set_all c.waiting.keys c.waiting g.queue_waiting;
}

unfoldable pub known_tenants : Tenants → List String
unfolding union
known_tenants c = union (union c.running.keys c.dlq.keys) c.waiting.keys

module _ {S : Schema} {R : Rooms} (r : Round S R) where
  unfoldable pub collect_tenant : String → Gauges → Outcome
  unfolding oldest_age
  collect_tenant t g =
      unless_raised (r.on_zrange t)
        (λ g1.
          unless_raised (r.on_get t)
            (λ g2.
              unless_raised (r.on_hget t)
                (λ g3. (
                  none,
                  record g3 { tenant_tokens = set_at t (tokens_of (r.buckets t)) g3.tenant_tokens },
                ))
                (record g2 {
                  tenant_virtual_time = set_at t (r.vtime_key t) g2.tenant_virtual_time;
                }))
            (record g1 {
              queue_oldest_age =
                  update g1.queue_oldest_age t
                    (some (oldest_age r.now (R.tasks.zrange (r.queue.ready t))));
            }))
        g

  unfoldable pub collect_tenants : List String → Gauges → Outcome
  collect_tenants [] g = (none, g)
  collect_tenants (t ∷ ts) g = and_then (collect_tenant t g) (collect_tenants ts)

  unfoldable pub tenants : Tenants
  tenants =
      place_all
        (group_by same_group (λ t. (t.tenant_id, t.status)) (S.tasks.select (λ t. true) r.db.tasks))
        (record { running = empty; dlq = empty; waiting = empty })

  unfoldable pub count_workers : WorkerStatus → ℕ
  count_workers s = length (S.workers.select (λ w. same_worker_status s w.status) r.db.workers)

  unfoldable pub set_workers : Gauges → Gauges
  unfolding count_workers
  set_workers g = record g {
    workers_active = count_workers WorkerStatus.active;
    workers_dead = count_workers WorkerStatus.dead;
  }

  -- The body of the outer `try`, with the lock.
  unfoldable pub gather : Gauges → Outcome
  unfolding read_stream set_counts set_workers tenants known_tenants collect_tenants
  gather g =
      unless_raised r.status_query
        (λ g1.
          unless_raised r.workers_query
            (λ g2. collect_tenants (known_tenants tenants) (set_workers g2))
            (set_counts tenants g1))
        (read_stream r.stream_info g)

-- The lock, and the gauges of one worker.
pub record Collector (L : ExpiringKey) : Type 0 where
  pub lease : Lease L
  pub gauges : Gauges

abbrev pub unless_ended :
    {L : ExpiringKey}
    → Option Exception
    → Option Exception × Collector L
    → Collector L
    → Option Exception × Collector L
unless_ended none rest after = rest
unless_ended (some e) rest after = (some e, after)

module _ {L : ExpiringKey} {S : Schema} {R : Rooms} where
  -- The answer of SET, or what it raises.
  unfoldable pub with_lock :
      Option Exception → Round S R → Collector L → Option Exception × Collector L
  unfolding gather
  with_lock (some e) r c = (some e, c)
  with_lock none r c =
      let (acquired, lease) = acquire L lock_expiry (r.now / 1000) c.lease in
      let (x, gauges) = gather r c.gauges in
      if acquired
      then (x, record { lease = lease; gauges = gauges })
      else (none, record c { lease = lease })

  unfoldable pub collect_metrics : Round S R → Collector L → Option Exception × Collector L
  unfolding with_lock
  collect_metrics r c = with_lock r.lock r c

  -- The loop has no handler: an exception ends it.
  unfoldable pub metrics_collection_loop :
      List (Round S R) → Collector L → Option Exception × Collector L
  unfolding collect_metrics
  metrics_collection_loop [] c = (none, c)
  metrics_collection_loop (r ∷ rs) c =
      let (x, after) = collect_metrics r c in
      let rest = metrics_collection_loop rs after in unless_ended x rest after
