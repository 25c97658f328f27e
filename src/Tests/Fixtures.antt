-- ===== src/Tests/Fixtures.antt =====
-- A database, waiting rooms, tasks and answers to apply the theorems to.
use fairlane.Prelude.{
  refl, ℕ, String, Bool, true, false, Option, none, some, [], ◌∷◌, pos, str_eq, eq_iff, ◌==◌,
  ==_iff,
}
use fairlane.Models.{
  Task, TaskStatus, DeadLetter, SideEffect, Worker, TenantLimit, str, FailureCategory,
}
use fairlane.Answer.{ok}
use fairlane.Database.{Schema, Db}
use fairlane.Redis.{SortedSet}
use fairlane.Scheduler.Queue.{Rooms, Queue}
use fairlane.Worker.State.{World, Answers}
use fairlane.Worker.Process.Attempt.{Undisturbed}
use fairlane.Tests.Rows.{table}
use fairlane.Tests.Zset.{zset}

abbrev pub schema : Schema
schema = record {
  tasks = table (λ (t : Task). t.id) ◌==◌ ==_iff;
  dead_letters = table (λ (d : DeadLetter). d.task_id) ◌==◌ ==_iff;
  side_effects = table (λ (s : SideEffect). s.task_id) ◌==◌ ==_iff;
  workers = table (λ (w : Worker). w.worker_id) str_eq eq_iff;
  tenant_limits = table (λ (l : TenantLimit). l.tenant_id) str_eq eq_iff;
}

abbrev pub slots : SortedSet ℕ
slots = zset ◌==◌ ==_iff

abbrev pub rooms : Rooms
rooms = record { tasks = slots; tenants = zset str_eq eq_iff }

-- A pending task of tenant "a" that fails for good if `fail` is "permanent".
abbrev pub task_of : ℕ → String → TaskStatus → Task
task_of id fail status = record {
  id = id;
  tenant_id = "a";
  task_type = "demo";
  payload = ("fail_type", str fail) ∷ [];
  priority = 3;
  status = status;
  attempts = 1;
  max_attempts = 3;
  idempotency_key = none;
  created_at = 1_000_000;
  started_at = none;
  finished_at = none;
  next_retry_at = none;
  last_error = none;
  locked_by = none;
  locked_at = none;
  original_enqueue_at = none;
}

abbrev pub letter : DeadLetter
letter = record {
  task_id = 7;
  tenant_id = "a";
  task_type = "demo";
  failure_category = FailureCategory.permanent;
  last_error = none;
  error_history = [];
  attempts_made = 1;
  dead_at = 2_000_000;
  replayed_at = none;
  replay_count = 0;
}

-- Tables with one row, and with none.
abbrev pub tasks_with : Task → schema.tasks.Rows
tasks_with t = (t.id ∷ [], λ k. some t)

abbrev pub no_letters : schema.dead_letters.Rows
no_letters = ([], λ k. none)

abbrev pub letters_with : DeadLetter → schema.dead_letters.Rows
letters_with d = (d.task_id ∷ [], λ k. some d)

abbrev pub db_of : Task → schema.dead_letters.Rows → Db schema
db_of t letters = record {
  tasks = tasks_with t;
  dead_letters = letters;
  side_effects = ([], λ k. none);
  workers = ([], λ k. none);
  tenant_limits = ([], λ k. none);
  events = [];
}

abbrev pub world_of : Task → schema.dead_letters.Rows → World schema
world_of t letters = record { db = db_of t letters; current_task_id = none; trace = [] }

-- The limiter lets everything pass and every commit goes through.
abbrev pub quiet : (Db schema → Db schema) → Answers schema
quiet others = record {
  allow = ok (record { allowed = true; retry_after_ms = 0; remaining = 1 });
  slot = ok true;
  throttle_commit = none;
  start_commit = none;
  others = others;
  work = none;
  finish_commit = none;
  failure_commit = none;
  uniform = λ lo hi. hi;
  roll = 500_000;
  read_float = λ s. none;
  read_int = λ s. none;
  start_now = 5_000_000;
  finish_now = 6_000_000;
}

-- No other process touches the task.
abbrev pub calm : Undisturbed schema (quiet (λ d. d)) 7
calm = record {
  gate = refl;
  start_commit = refl;
  finish_commit = refl;
  failure_commit = refl;
  task_kept = λ d. refl;
  letter_kept = λ d. refl;
}

abbrev pub parse : String → Option ℕ
parse s = if_seven (str_eq s "7")
  where
    if_seven : Bool → Option ℕ
    if_seven true = some 7
    if_seven false = none

-- Waiting rooms in which no tenant waits.
abbrev pub empty_rooms : Queue rooms
empty_rooms = record {
  ready = λ tenant. ([], (tt, tt));
  vtime = ([], (tt, tt));
  instream = λ tenant. pos 0;
  weight = λ tenant. none;
  stream = [];
}

-- Two tenants wait, "a" behind "b".
abbrev pub two_tenants : Queue rooms
two_tenants = record empty_rooms {
  vtime = rooms.tenants.zadd "a" 8 (rooms.tenants.zadd "b" 3 ([], (tt, tt)));
}
