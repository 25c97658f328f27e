-- ===== src/Api.antt =====
-- The HTTP interface of src/fairlane/api: tasks, dead letters and their replay, the limits of tenants.
pub mod Service
pub mod Tasks
pub mod Replay
pub mod Tenants
pub mod DeadLetters
pub mod Bulk
