-- ===== src/Worker.antt =====
-- src/fairlane/worker/main.py: the messages from the stream, and the worker's own row.
pub mod State
pub mod Trace
pub mod Inject
pub mod Failure
pub mod Process
pub mod Loop
pub mod Daemon
