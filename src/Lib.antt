-- ===== src/Lib.antt =====
-- Fairlane: a task queue for many tenants over PostgreSQL and Redis.
--
-- A client submits a task over HTTP; it becomes a PENDING row and waits in its tenant's room, a
-- sorted set in Redis. The dispatcher moves tasks from the rooms into a stream, fairly between
-- tenants by virtual time. Workers read the stream, ask the rate limiter, run the task, and
-- record success, a retry or a dead letter. A scheduler puts overdue retries back into the
-- rooms; a reaper finds workers without a heartbeat and reclaims their tasks; an operator
-- replays dead letters.
--
-- Files:
--   * Models: the rows of src/fairlane/models.py. Metrics: the updates of
--     src/fairlane/metrics.py. Config: settings of src/fairlane/config.py.
--   * Database, Redis: PostgreSQL tables, Redis sorted sets and an expiring key as interfaces
--     with documented laws. Database.Group is GROUP BY with counts, and Redis.Lease the lock that
--     the dispatcher, the reaper and the collector take with SET NX.
--   * Retry: src/fairlane/retry.py, `calculate_backoff`, `is_retryable`, `classify_failure`.
--   * Ratelimit: src/fairlane/ratelimit/token_bucket.lua (Bucket) and limiter.py (Limiter).
--   * Scheduler: src/fairlane/scheduler/__init__.py (Queue is `enqueue`, Poll is the poll and
--     the rebuild, Loop is `run_scheduler`), dispatch.lua and dispatcher.py (Dispatch, with
--     `run_dispatcher` of all workers in Dispatch.Loop). Dispatch.Spec says what weighted fair
--     queuing is on an abstract view of the rooms, and Dispatch.Refines that the script carries it
--     out.
--   * Worker: src/fairlane/worker/main.py. State is the world and the answers of the services,
--     Inject the failure hooks, Failure the `except` branch, Process the whole of `process_task`,
--     Loop the reading loop of `run`, Daemon the registration, the heartbeat and the shutdown.
--   * Reaper: src/fairlane/reaper.py. Claim is the XAUTOCLAIM loop, Reclaim the reclamation of
--     one dead worker, Cycle the detection, the reconciliation and one cycle, Loop is `run_reaper`
--     of all workers, Spares what the detection leaves alone.
--   * Cli: src/fairlane/cli.py, the commands that change something and `tenant show` and
--     `queue`; a request is answered, does not arrive, or its answer is lost.
--   * Collector: src/fairlane/metrics_collector.py, `collect_metrics` with its loop. Counts are
--     the dictionaries of a round.
--   * Api: src/fairlane/api/routes.py (Tasks), dlq_routes.py (Replay, Bulk, DeadLetters) and
--     tenant_routes.py (Tenants).
--   * System: all parts on one database. Run lists the operations in any order, with the
--     operations of the other processes after a worker's first commit for a task and at the end of
--     a reclamation; a worker's reading of a row and its first commit for it are one step of a
--     run, so that what others commit between the two is left out; Closed the transactions that
--     they commit, each under the tests that the code makes before, and the files called Held, one
--     under each operation, show that a property which all transactions keep is kept by the
--     operation. Rowwise reduces such a property to the rows, for Valid and for the checks of
--     src/fairlane/chaos/invariants.py, which are in Chaos. Journey follows one task from its
--     submission to the end of its first attempt, and Retries one task through the attempts that
--     are left until it is settled.
--   * Tests: concrete tables and sorted sets, and the theorems applied to them.
--
-- Conventions: a UUID is a number, a time a number of microseconds, a rate a number of
-- thousandths of a token a second, tokens are millionths. A commit, a random number, a clock and
-- the answers of the limiter and of the other services are arguments, but for the commands to
-- Redis after a commit (XACK, XDEL, ZREM and DECR of a worker, the SET and EXPIRE of the
-- dispatcher's lock), which are taken to go through: a Redis that fails between a commit and its
-- acknowledgement is not modelled; `some` exception as the answer of a commit means that it
-- raises. The worker's trace lists what leaves the process, latest first. Loops over collections
-- are recursions on lists, the dispatcher's counted loop recurs on its rounds, the XAUTOCLAIM
-- loop on the pages that the server answers, and the loops of the worker, the scheduler, the
-- reaper and the collector on what they meet each time around, so no fuel is needed. The
-- dispatchers' loops are a step relation, since they run side by side around one lock.
--
-- The token bucket's numbers are exact where Lua rounds. FOR UPDATE SKIP LOCKED is an argument
-- that tells the rows locked by others, and the order of letters of one moment an argument of
-- the list of dead letters.
--
-- Not modelled: connections, logging, the commands that only print what a route returns, scripts
-- and migrations, which hold no logic of the queue; the health check and the list of workers in
-- src/fairlane/api/routes.py, which only report; the Prometheus objects behind the metrics; the
-- sleep between the rounds of the endless loops; cancellation of coroutines; the column
-- `updated_at`; negative numbers in JSON; the texts of error messages beyond what identifies
-- them.
pub mod Prelude
pub mod Models
pub mod Metrics
pub mod Database
pub mod Retry
pub mod Answer
pub mod Config
pub mod Redis
pub mod Ratelimit
pub mod Scheduler
pub mod Worker
pub mod Reaper
pub mod Api
pub mod System
pub mod Chaos
pub mod Collector
pub mod Cli
mod Tests
