-- ===== src/Tests/Collector.antt =====
-- One worker's rounds of the metrics collector, and the theorems on them.
use fairlane.Prelude.{◌≤◌, ◌<◌, ◌≡◌, refl, String, Option, none, some, List, [], ◌∷◌, arith}
use fairlane.Models.{Task, TaskStatus}
use fairlane.Answer.{ok}
use fairlane.Retry.{Exception, ExceptionType}
use fairlane.Database.Group.{group_by}
use fairlane.Scheduler.Queue.{score, enqueue}
use fairlane.Collector.{
  Gauges, Round, Collector, put, place, place_all, union, tenants, known_tenants, collect_tenant,
  collect_metrics, metrics_collection_loop,
}
use fairlane.Collector.Tallies.{over, Shown}
use fairlane.Collector.Counted.{gauge, matching, collect_metrics-counts}
use fairlane.Collector.Ages.{collect_tenant-age, metrics_collection_loop-ends}
use fairlane.Database.Group.Lookup.{nonzero}
use fairlane.Tests.Fixtures.{schema, rooms, empty_rooms, db_of, task_of, no_letters}
use fairlane.Tests.Locks.{expiring}

-- Enqueued in November 2023, as the round's moment.
abbrev recent : Task
recent = record (task_of 7 "" TaskStatus.pending) { created_at = 1_700_000_000_000_000 }

abbrev untouched : Gauges
untouched = record {
  stream_depth = 0;
  tasks_running = λ t. none;
  dlq_size = λ t. none;
  queue_waiting = λ t. some 9;
  workers_active = 0;
  workers_dead = 0;
  queue_oldest_age = λ t. none;
  tenant_virtual_time = λ t. none;
  tenant_tokens = λ t. none;
}

abbrev collector : Collector expiring
collector = record { lease = record { clock = 0; key = 0; starts = [] }; gauges = untouched }

abbrev round : Option Exception → Round schema rooms
round on_zrange = record {
  now = 1_700_000_050_000_000;
  lock = none;
  stream_info = ok (some 4);
  status_query = none;
  workers_query = none;
  on_zrange = λ t. on_zrange;
  on_get = λ t. none;
  on_hget = λ t. none;
  vtime_key = λ t. none;
  buckets = λ t. none;
  db = db_of recent no_letters;
  queue = enqueue recent empty_rooms;
}

collect_metrics-counts_example :
    (let after = (collect_metrics (round none) collector).1.gauges in
      (0 ≤ 1_700_000_050_000
        → (k : Shown) (t : String)
        → gauge k after t ≡ over (nonzero (matching (round none) k t)) (gauge k untouched t))
      × (1_700_000_050_000 < 0 → after ≡ untouched))
collect_metrics-counts_example = collect_metrics-counts (round none) collector refl refl

-- One task of the tenant waits, and none runs.
counted :
    (matching (round none) Shown.waiting "a" ≡ 1) × (matching (round none) Shown.running "a" ≡ 0)
counted = (refl, refl)

collect_tenant-age_example :
    (collect_tenant (round none) "a" untouched).1.queue_oldest_age "a" ≡ some 0
unfolding enqueue score
collect_tenant-age_example =
    collect_tenant-age (round none) "a" untouched refl ((recent, refl, omega arith), tt)

abbrev refused : Exception
refused = record { type = ExceptionType.connection_error; message = "Connection refused" }

metrics_collection_loop-ends_example :
    (x : Exception) × ((rounds : List (Round schema rooms))
      → metrics_collection_loop (round (some refused) ∷ rounds) collector
        ≡ (some x, (collect_metrics (round (some refused)) collector).1))
unfolding tenants known_tenants union place_all place put group_by
metrics_collection_loop-ends_example =
    metrics_collection_loop-ends (round (some refused)) collector "a" refused refl (omega arith)
      refl refl refl refl
