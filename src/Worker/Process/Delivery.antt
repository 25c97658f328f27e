-- ===== src/Worker/Process/Delivery.antt =====
-- What `process_task` (src/fairlane/worker/main.py) sends to Redis: the acknowledgement of the
-- message, the slot and the tenant's count of tasks in the stream.
use fairlane.Prelude.{
  ℕ, suc, ◌+◌, String, ◌≡◌, Bool, true, false, Option, none, some, List, arith, str_eq,
  if◌then◌else◌, ◌&&◌, Bool-cases, inl, inr,
}
use text.Mathlib.TextPositions.{eq_refl}
use fairlane.Models.{Task}
use fairlane.Database.{Schema, Db}
use fairlane.Worker.State.{
  Action, World, Answer, ok, raise, Answers, RateLimitResult, Ending, finished, left, raised,
}
use fairlane.Worker.Failure.{log, ack}
use fairlane.Worker.Trace.{acks, commits_since_ack, decrs, releases, SameCounts, SameCounts-refl}
use fairlane.Worker.Process.{readable, rate_gate, run_task, with_uuid, process_task}

-- The slot and the count are given back.
abbrev pub GivesBack : Task → Bool → List Action → List Action → Type 0
GivesBack t slot l k =
    (decrs t.tenant_id k ≡ suc (decrs t.tenant_id l))
    × (releases t.tenant_id t.id k ≡ (if slot then 1 else 0) + releases t.tenant_id t.id l)

-- They are not.
abbrev pub Leaks : Task → List Action → List Action → Type 0
Leaks t l k =
    (decrs t.tenant_id k ≡ decrs t.tenant_id l)
    × (releases t.tenant_id t.id k ≡ releases t.tenant_id t.id l)

-- Whether the body of the `try` has not raised, or the handler has recorded what it raised.
abbrev pub intact : {S : Schema} → String → Answers S → ℕ → Ending × World S → Bool
intact worker A id (finished, w) = true
intact worker A id (left, w) = true
intact {S} worker A id (raised e, w) = readable worker A e w (S.tasks.find id w.db.tasks)

module _ {S : Schema} (worker : String) (A : Answers S) (m : String) (n : ℕ) (l : List Action) where
  -- After the `finally` block of a task that was found.
  abbrev Settled : Task → Bool → Bool → List Action → Type 0
  Settled t slot kept k =
      (acks m k ≡ suc n)
      × (commits_since_ack m k ≡ 0)
      × (kept ≡ true → GivesBack t slot l k)
      × (kept ≡ false → Leaks t l k)

-- A message that does not lead to a task is acknowledged, and nothing else is done.
abbrev Dropped : String → List Action → List Action → Type 0
Dropped m l k = (acks m k ≡ suc (acks m l)) × (commits_since_ack m k ≡ 0) × SameCounts l k

module _ {S : Schema} (m : String) where
  ack-Dropped : (w : World S) → Dropped m w.trace (ack m w).trace
  unfolding ack log
  ack-Dropped w = (ground (arith, eq_refl m), ground (arith, eq_refl m), SameCounts-refl w.trace)

abbrev pub passes : Answer RateLimitResult → Bool
passes (ok r) = r.allowed
passes (raise e) = false

abbrev pub granted : Answer Bool → Bool
granted (ok b) = b
granted (raise e) = false

-- The limiter lets the task pass and hands out a slot.
abbrev pub acquired : {S : Schema} → Answers S → Bool
acquired A = passes A.allow && granted A.slot

-- The task that a message names: none without a text, without a UUID in it, or without a row.
abbrev pub named : (S : Schema) → (String → Option ℕ) → Option String → Db S → Option Task
named S parse none d = none
named S parse (some s) d =
    if str_eq s "" then none else elim (parse s) [ none ↦ none | some id ↦ S.tasks.find id d.tasks ]

module _ {S : Schema} (worker : String) (A : Answers S) (m : String) where
  with_uuid-Dropped :
      (w : World S) (id : Option ℕ)
      → elim id [ none ↦ none | some i ↦ S.tasks.find i w.db.tasks ] ≡ none
      → Dropped m w.trace (with_uuid worker A m w id).trace
  unfolding with_uuid run_task
  with_uuid-Dropped w none h = ack-Dropped m w
  with_uuid-Dropped w (some id) h = rw (h, run_task) (ack-Dropped m w)

  -- Whether the failure of the attempt, if it has one, gets recorded.
  abbrev pub recorded : World S → Task → Bool
  recorded w t = intact worker A t.id (rate_gate worker A t m w A.allow).1

-- A message that names no task is acknowledged once, after which nothing is committed, and no
-- tenant's count of tasks in the stream is lowered and no slot given back.
pub process_task-drops :
    {S : Schema} (worker : String) (A : Answers S) (parse_uuid : String → Option ℕ) (m : String)
    (task_id : Option String) (w : World S)
    → named S parse_uuid task_id w.db ≡ none
    → let l = (process_task worker A parse_uuid m task_id w).trace in
      (acks m l ≡ suc (acks m w.trace))
      × (commits_since_ack m l ≡ 0)
      × ((tenant : String) → decrs tenant l ≡ decrs tenant w.trace)
      × ((tenant : String) (id : ℕ) → releases tenant id l ≡ releases tenant id w.trace)
unfolding process_task
process_task-drops worker A parse_uuid m none w h =
    let d = ack-Dropped m w in (d.0, d.1, d.2.0, d.2.1)
process_task-drops worker A parse_uuid m (some s) w h =
    let d : Dropped m w.trace (process_task worker A parse_uuid m (some s) w).trace =
      elim (Bool-cases (str_eq s "")) [
        | inl e ↦ rw e (ack-Dropped m w)
        | inr e ↦ rw e (with_uuid-Dropped worker A m w (parse_uuid s) (rw e at h))
      ] in
    (d.0, d.1, d.2.0, d.2.1)
