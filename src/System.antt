-- ===== src/System.antt =====
-- The parts of src/fairlane together: what all of them keep true of every row of `tasks`.
pub mod Closed
pub mod Rows
pub mod Rowwise
pub mod Persists
pub mod Valid
pub mod Run
pub mod Journey
pub mod Retries
