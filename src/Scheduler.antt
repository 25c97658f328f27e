-- ===== src/Scheduler.antt =====
-- src/fairlane/scheduler: the waiting rooms, the poll for overdue retries, and the dispatcher.
pub mod Queue
pub mod Poll
pub mod Loop
pub mod Dispatch
