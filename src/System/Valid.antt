-- ===== src/System/Valid.antt =====
-- What a row of `tasks` says of itself: its status, its lock, its times.
use fairlane.Prelude.{◌<◌, ◌≡◌, ◌≢◌, true, is_some, is_none, arith}
use fairlane.Models.{Task, TaskStatus}
use fairlane.Worker.Failure.{retry_row, dead_row}
use fairlane.Worker.Process.{started_row, succeeded_row}
use fairlane.Scheduler.Poll.{requeued_row}
use fairlane.Reaper.Reclaim.{reclaimed_row}
use fairlane.Api.Replay.{replayed_row}
use fairlane.Api.Tasks.{TaskCreate, Request, new_task}
use fairlane.Database.{Schema}
use fairlane.System.Rowwise.{Rowwise}

-- A RUNNING row is locked, was started, counts an attempt and has no time to retry at. A row that
-- has SUCCEEDED or is DEAD has a time of its end, no lock and no time to retry at. No row is FAILED.
pub record IsValid (t : Task) : Type 0 where
  pub running_locked : t.status ≡ TaskStatus.running → is_some t.locked_by ≡ true
  pub running_started : t.status ≡ TaskStatus.running → is_some t.started_at ≡ true
  pub running_counted : t.status ≡ TaskStatus.running → 0 < t.attempts
  pub running_now : t.status ≡ TaskStatus.running → is_none t.next_retry_at ≡ true
  pub succeeded_ended : t.status ≡ TaskStatus.succeeded → is_some t.finished_at ≡ true
  pub succeeded_free : t.status ≡ TaskStatus.succeeded → is_none t.locked_by ≡ true
  pub succeeded_over : t.status ≡ TaskStatus.succeeded → is_none t.next_retry_at ≡ true
  pub dead_ended : t.status ≡ TaskStatus.dead → is_some t.finished_at ≡ true
  pub dead_free : t.status ≡ TaskStatus.dead → is_none t.locked_by ≡ true
  pub dead_over : t.status ≡ TaskStatus.dead → is_none t.next_retry_at ≡ true
  pub never_failed : t.status ≢ TaskStatus.failed

new_task-IsValid : (r : Request) (c : TaskCreate) → IsValid (new_task r c)
unfolding new_task
new_task-IsValid r c = ground arith

pub IsValid-Rowwise : (S : Schema) → Rowwise S (λ d t. IsValid t)
unfolding started_row succeeded_row retry_row dead_row reclaimed_row requeued_row replayed_row
IsValid-Rowwise S = record {
  grows = λ d after t g v. v;
  created = λ d es r c e. new_task-IsValid r c;
  throttled = λ d t at v. ground arith;
  started = λ d t now worker v. ground arith;
  succeeded = λ d t now worker o f v. ground arith;
  retried = λ d t x at m v. ground arith;
  died = λ d t x now m i v. ground arith;
  reclaimed = λ d t now n i v. ground arith;
  requeued = λ d t p v. ground arith;
  replayed = λ d t b e v. ground arith;
}
