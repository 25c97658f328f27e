-- ===== src/Chaos.antt =====
-- `check_invariants` of src/fairlane/chaos/invariants.py: what the chaos test asks of the database.
pub mod Safe
pub mod Exact
use fairlane.Prelude.{
  ℕ, ◌+◌, ◌*◌, String, Bool, true, false, ◌&&◌, ◌||◌, Option, none, some, List, [], ◌∷◌, length,
  ltb, ◌==◌, str_eq, is_some, is_none, min, max, if◌then◌else◌,
}
use fairlane.Models.{
  Task, TaskEvent, TaskStatus, EventType, SideEffect, is_pending, is_running, is_dead, is_succeeded,
}
use fairlane.Database.{Schema, Db}

-- An entry of the report: whether the check passes, and what it has counted.
pub record Check : Type 0 where
  pub pass : Bool
  pub count : ℕ

pub record Report : Type 0 where
  pub no_loss : Check
  pub total_tasks : ℕ
  pub no_ghost_state : Check
  pub at_least_once : Check
  pub effectively_once : Check
  pub dlq_correctness : Check
  pub event_order : Check
  pub quiet_p95 : ℕ
  pub noisy_p95 : ℕ

-- `if n > 0: pass = False; count = n`, on an entry that passes with 0.
abbrev pub unless_any : ℕ → Check
unless_any n = record { pass = n == 0; count = n }

-- `Task.status.in_([PENDING, RUNNING, FAILED])`
abbrev pub stuck : TaskStatus → Bool
stuck TaskStatus.pending = true
stuck TaskStatus.running = true
stuck TaskStatus.failed = true
stuck _ = false

abbrev pub is_created : EventType → Bool
is_created EventType.created = true
is_created _ = false

-- The outer join on the CREATED events of a task finds one.
unfoldable pub has_created : ℕ → List TaskEvent → Bool
has_created id [] = false
has_created id (e ∷ es) = (e.task_id == id && is_created e.event_type) || has_created id es

-- How many of the rows have the key.
unfoldable pub keyed : String → List Task → ℕ
keyed k [] = 0
keyed k (t ∷ ts) =
    let rest = keyed k ts in
    elim t.idempotency_key [ none ↦ rest | some j ↦ if str_eq j k then 1 + rest else rest ]

-- GROUP BY idempotency_key HAVING count(*) > 1: a group is counted at its last row but one.
unfoldable pub duplicates : List Task → ℕ
unfolding keyed
duplicates [] = 0
duplicates (t ∷ ts) =
    let rest = duplicates ts in
    elim t.idempotency_key [ none ↦ rest | some k ↦ if keyed k ts == 1 then 1 + rest else rest ]

-- The dead-letter and event checks, and the check on side effects, row by row.
module _ {S : Schema} (d : Db S) where
  unfoldable pub without_letter : Task → Bool
  without_letter t = is_dead t.status && is_none (S.dead_letters.find t.id d.dead_letters)

  unfoldable pub without_event : Task → Bool
  unfolding has_created
  without_event t = if has_created t.id d.events then false else true

  unfoldable pub without_effect : Task → Bool
  without_effect t =
      is_succeeded t.status
      && (str_eq t.task_type "demo" && is_none (S.side_effects.find t.id d.side_effects))

-- `min(wait_times.values())` and `max(...)`, 0 if there are none.
abbrev pub lowest : List ℕ → ℕ
lowest [] = 0
lowest (x ∷ []) = x
lowest (x ∷ y ∷ ys) = min x (lowest (y ∷ ys))

abbrev pub highest : List ℕ → ℕ
highest [] = 0
highest (x ∷ xs) = max x (highest xs)

-- `p95` is what PostgreSQL answers for each tenant: the percentile of the waiting times of the
-- rows given, the tasks that have succeeded with both times set.
unfoldable pub check_invariants : {S : Schema} → (List Task → List ℕ) → Db S → Report
unfolding duplicates without_letter without_event without_effect
check_invariants {S} p95 d =
    let waits = p95 (
      S.tasks.select
        (λ t. is_succeeded t.status && (is_some t.started_at && is_some t.original_enqueue_at))
        d.tasks) in
    let repeated =
      duplicates
        (S.tasks.select (λ t. is_some t.idempotency_key && is_succeeded t.status) d.tasks) in
    record {
      no_loss = unless_any (length (S.tasks.select (λ t. stuck t.status) d.tasks));
      total_tasks = length (S.tasks.select (λ t. true) d.tasks);
      no_ghost_state = unless_any (length (S.tasks.select (λ t. is_running t.status) d.tasks));
      at_least_once = unless_any (length (S.tasks.select (without_effect d) d.tasks));
      effectively_once = record {
        pass = repeated == 0;
        count =
            if repeated == 0
            then length (S.side_effects.select (λ s. ltb 1 s.count) d.side_effects)
            else repeated;
      };
      dlq_correctness = unless_any (length (S.tasks.select (without_letter d) d.tasks));
      event_order = unless_any (length (S.tasks.select (without_event d) d.tasks));
      quiet_p95 = lowest waits;
      noisy_p95 = highest waits;
    }
