-- ===== src/Worker/Process/Named.antt =====
-- The task that a message of `process_task` (src/fairlane/worker/main.py) names.
use fairlane.Prelude.{
  ℕ, String, ◌≡◌, sym, ap, ◌∙◌, inl, inr, Option, none, some, Bool-cases, str_eq,
}
use mathlib.Core.Path.{subst}
use fairlane.Models.{Task}
use fairlane.Database.{Schema}
use fairlane.Worker.State.{World, Answers}
use fairlane.Worker.Process.{run_task, with_uuid, process_task}
use fairlane.Worker.Process.Delivery.{named}

with_uuid-run :
    {S : Schema} (worker : String) (A : Answers S) (m : String) (w : World S) (t : Task)
    (id : Option ℕ)
    → elim id [ none ↦ none | some i ↦ S.tasks.find i w.db.tasks ] ≡ some t
    → (S.tasks.find t.id w.db.tasks ≡ some t)
      × (with_uuid worker A m w id ≡ run_task worker A t.id m w (some t))
unfolding with_uuid
with_uuid-run worker A m w t none p = absurd (cc)
with_uuid-run {S} worker A m w t (some id) p =
    let k = S.tasks.find_key id w.db.tasks t p in
    (
      subst (λ i. S.tasks.find i w.db.tasks ≡ some t) (sym k) p,
      ap (run_task worker A id m w) p ∙ ap (λ i. run_task worker A i m w (some t)) (sym k),
    )

-- A message that names a task is processed as that task.
pub named-run :
    {S : Schema} (worker : String) (A : Answers S) (parse_uuid : String → Option ℕ) (m : String)
    (task_id : Option String) (w : World S) (t : Task)
    → named S parse_uuid task_id w.db ≡ some t
    → (S.tasks.find t.id w.db.tasks ≡ some t)
      × (process_task worker A parse_uuid m task_id w ≡ run_task worker A t.id m w (some t))
unfolding process_task
named-run worker A parse_uuid m none w t h = absurd (cc)
named-run worker A parse_uuid m (some s) w t h = elim (Bool-cases (str_eq s "")) [
  | inl e ↦ absurd (cc (rw e at h))
  | inr e ↦ rw e (with_uuid-run worker A m w t (parse_uuid s) (rw e at h))
]
