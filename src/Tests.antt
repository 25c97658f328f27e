-- ===== src/Tests.antt =====
-- Concrete databases and sorted sets, and the theorems applied to them.
mod Zset
mod Rows
mod Fixtures
mod Limits
mod Locks
mod Collector
mod Queues
mod Workers
mod Recovery
mod Requests
mod System
mod Operators
mod Daemons
mod Cli
