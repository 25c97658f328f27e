-- ===== src/Config.antt =====
-- The settings of src/fairlane/config.py that the modelled code reads, at their defaults. Rates are
-- thousandths of a token a second.
use fairlane.Prelude.{ℕ}

abbrev pub heartbeat_ttl_seconds : ℕ
heartbeat_ttl_seconds = 10

abbrev pub aging_ms_per_level : ℕ
aging_ms_per_level = 5000

abbrev pub dispatch_batch_size : ℕ
dispatch_batch_size = 50

abbrev pub stream_target_depth : ℕ
stream_target_depth = 10

abbrev pub max_in_stream_per_tenant : ℕ
max_in_stream_per_tenant = 5

abbrev pub default_rate_per_second : ℕ
default_rate_per_second = 5000

abbrev pub default_burst : ℕ
default_burst = 10

abbrev pub default_max_concurrent : ℕ
default_max_concurrent = 5

abbrev pub max_pending_per_tenant : ℕ
max_pending_per_tenant = 200
