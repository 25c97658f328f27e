-- ===== src/Metrics.antt =====
-- The updates that src/fairlane/metrics.py makes to its counters, histograms and gauges, one
-- constructor for each `inc_`, `observe_` and `set_` function. Durations are microseconds.
use fairlane.Prelude.{ℕ, String}
use fairlane.Models.{FailureCategory}

pub data Metric : Type 0 where
  tasks_submitted : String → ℕ → Metric
  tasks_completed : String → String → String → Metric
  task_retries : String → String → Metric
  tasks_throttled : String → Metric
  dlq_total : String → FailureCategory → Metric
  dlq_replays : String → Metric
  tasks_reclaimed : ℕ → Metric
  workers_declared_dead : ℕ → Metric
  task_duration : String → ℕ → Metric
  task_wait : String → ℕ → ℕ → Metric
  end_to_end : String → ℕ → Metric
  worker_info : String → String → String → Metric
