-- ===== src/Chaos/Exact.antt =====
-- What the checks of src/fairlane/chaos/invariants.py say of any database.
use mathlib.Core.Logic.{◌↔◌}
use fairlane.Prelude.{
  ◌⊎◌, ◌≢◌, ℕ, ◌≡◌, refl, sym, ap, ◌∙◌, Bool, true, false, Option, none, some, List, [], ◌∷◌, In,
  length, arith, Bool-cases, inl, inr, is_none, is_some,
}
use mathlib.Core.Path.{subst}
use fairlane.Models.{Task, TaskStatus, is_running}
use fairlane.Database.{Schema, Db}
use fairlane.System.Rowwise.{Everywhere}
use fairlane.Chaos.{
  stuck, without_letter, without_event, without_effect, check_invariants, unless_any,
}
use fairlane.Chaos.Safe.{
  IsRecorded, select_none, without_letter-IsRecorded, without_event-IsRecorded,
  without_effect-IsRecorded,
}

none-In : (t : Task) (l : List Task) → length l ≡ 0 → In t l → false ≡ true
none-In t [] h i = absurd i
none-In t (u ∷ us) h i = absurd (ground arith)

-- A count of the rows that a query finds is 0 exactly if no row of the table passes.
module _ (S : Schema) (p : Task → Bool) (rows : S.tasks.Rows) where
  unless_any-select :
      ((unless_any (length (S.tasks.select p rows))).pass ≡ true)
      ↔ ((t : Task) → S.tasks.find t.id rows ≡ some t → p t ≡ false)
  unless_any-select = (
    λ h t f.
        let z : length (S.tasks.select p rows) ≡ 0 = ground arith in
        elim (Bool-cases (p t)) [
          | inl e ↦ e ∙ sym (none-In t _ z (S.tasks.select_complete p rows t f e))
          | inr e ↦ e
        ],
    λ n. ap (λ (l : List Task). (unless_any (length l)).pass) (select_none S p rows n),
  )

-- The task has SUCCEEDED or is DEAD.
abbrev pub IsFinished : Task → Type 0
IsFinished t = (t.status ≡ TaskStatus.succeeded) ⊎ (t.status ≡ TaskStatus.dead)

finished : (s : TaskStatus) → stuck s ≡ false → (s ≡ TaskStatus.succeeded) ⊎ (s ≡ TaskStatus.dead)
finished TaskStatus.pending h = absurd (cc)
finished TaskStatus.running h = absurd (cc)
finished TaskStatus.failed h = absurd (cc)
finished TaskStatus.succeeded h = inl refl
finished TaskStatus.dead h = inr refl

not_stuck : (s : TaskStatus) → (s ≡ TaskStatus.succeeded) ⊎ (s ≡ TaskStatus.dead) → stuck s ≡ false
not_stuck s (inl e) = ap stuck e
not_stuck s (inr e) = ap stuck e

not_running : (s : TaskStatus) → s ≢ TaskStatus.running → is_running s ≡ false
not_running TaskStatus.running n = absurd (n refl)
not_running TaskStatus.pending n = refl
not_running TaskStatus.succeeded n = refl
not_running TaskStatus.failed n = refl
not_running TaskStatus.dead n = refl

-- A row that the three checks find nothing wrong with is recorded.
row-IsRecorded :
    {S : Schema} (d : Db S) (t : Task)
    → without_letter d t ≡ false
    → without_effect d t ≡ false
    → without_event d t ≡ false
    → IsRecorded S d t
unfolding without_letter without_effect without_event
row-IsRecorded {S} d t l f v = record {
  letter = λ e. present (S.dead_letters.find t.id d.dead_letters) (rw e at l);
  effect = λ e y. present (S.side_effects.find t.id d.side_effects) (rw (e, y) at f);
  event = ground arith;
}
  where
    present : {A : Type 0} (o : Option A) → is_none o ≡ false → is_some o ≡ true
    present none h = absurd (cc)
    present (some a) h = refl

-- The report on any database is right, and misses nothing: the check of loss passes exactly if no
-- row of `tasks` is other than SUCCEEDED or DEAD, that of ghosts exactly if none is RUNNING, and the
-- checks of dead letters, of side effects and of events pass all three exactly if every DEAD row
-- has its dead letter, every demo row that has SUCCEEDED its side effect, and every row the event of
-- its creation.
pub check_invariants-exact :
    {S : Schema} (p95 : List Task → List ℕ) (d : Db S)
    → (let report = check_invariants p95 d in
        ((report.no_loss.pass ≡ true) ↔ Everywhere S (λ e t. IsFinished t) d)
        × ((report.no_ghost_state.pass ≡ true)
            ↔ Everywhere S (λ e t. t.status ≢ TaskStatus.running) d)
        × (((report.dlq_correctness.pass ≡ true)
              × (report.at_least_once.pass ≡ true)
              × (report.event_order.pass ≡ true))
            ↔ Everywhere S (IsRecorded S) d))
unfolding check_invariants
check_invariants-exact {S} p95 d =
    let exact = λ (p : Task → Bool). unless_any-select S p d.tasks in
    let loss = exact (λ t. stuck t.status) in
    let ghost = exact (λ t. is_running t.status) in
    let letter = exact (without_letter d) in
    let effect = exact (without_effect d) in
    let event = exact (without_event d) in
    (
      (
        λ h id t f. finished t.status (loss.0 h t (at_key id t f)),
        λ h. loss.1 (λ t f. not_stuck t.status (h t.id t f)),
      ),
      (
        λ h id t f e. absurd (cc (ap is_running e, ghost.0 h t (at_key id t f))),
        λ h. ghost.1 (λ t f. not_running t.status (h t.id t f)),
      ),
      (
        λ (l, a, v) id t f.
            let k = at_key id t f in
            row-IsRecorded d t (letter.0 l t k) (effect.0 a t k) (event.0 v t k),
        λ h. (
          letter.1 (λ t f. without_letter-IsRecorded d t (h t.id t f)),
          effect.1 (λ t f. without_effect-IsRecorded d t (h t.id t f)),
          event.1 (λ t f. without_event-IsRecorded d t (h t.id t f)),
        ),
      ),
    )
  where
    at_key :
        (id : ℕ) (t : Task) → S.tasks.find id d.tasks ≡ some t → S.tasks.find t.id d.tasks ≡ some t
    at_key id t f =
        subst (λ i. S.tasks.find i d.tasks ≡ some t) (sym (S.tasks.find_key id d.tasks t f)) f
