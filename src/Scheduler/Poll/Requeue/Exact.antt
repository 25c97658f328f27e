-- ===== src/Scheduler/Poll/Requeue/Exact.antt =====
-- Every row after `_poll_and_requeue` of src/fairlane/scheduler/__init__.py.
use fairlane.Prelude.{
  Bool, or_else, ℕ, ◌≡◌, ◌≢◌, refl, sym, ap, ◌∙◌, true, Option, none, some, List, [], ◌∷◌, All, In,
  arith, length, ◌==◌, Bool-cases, inl, inr, if◌then◌else◌,
}
use mathlib.Core.Path.{subst}
use fairlane.Models.{Task}
use fairlane.Answer.{Answer, ok}
use fairlane.Database.{Schema}
use fairlane.Scheduler.Queue.{Rooms}
use fairlane.Scheduler.Poll.{requeued_row, Polling, requeue, requeue_all, poll_and_requeue}
use fairlane.Scheduler.Poll.Requeue.{
  overdue, Overdue, Requeued, present, requeue-Requeued, end_poll-none, poll_and_requeue-Requeued,
}

-- What becomes of a row.
abbrev pub polled_row : (ℕ → Bool) → ℕ → Option Task → Option Task
polled_row locked now none = none
polled_row locked now (some t) = some (
    if overdue locked now t
    then record t {
      next_retry_at = none;
      original_enqueue_at = some (or_else t.original_enqueue_at t.created_at);
    }
    else t)

-- A row that is overdue becomes the one that the poll writes.
overdue-row :
    (locked : ℕ → Bool) (now : ℕ) (t : Task)
    → overdue locked now t ≡ true
    → some (requeued_row t) ≡ polled_row locked now (some t)
unfolding requeued_row
overdue-row locked now t h = rw h refl

-- The row has been put back.
abbrev Done : (S : Schema) → Task → S.tasks.Rows → Type 0
Done S t after = S.tasks.find t.id after ≡ some (requeued_row t)

module _ {S : Schema} {R : Rooms} (locked : ℕ → Bool) (now : ℕ) (rows : S.tasks.Rows) (t : Task)
    (there : S.tasks.find t.id rows ≡ some t) where
  -- The turn of the row itself, or of another one.
  requeue-Own :
      (p : Polling S R) (u : Task)
      → ((id : ℕ) → Requeued S locked now rows p.tasks id)
      → t ≡ u
      → Done S t (requeue now u p).tasks
  unfolding requeue
  requeue-Own p u h e =
      let (v, f) = present S locked now rows p.tasks t there (h t.id) in
      subst (λ x. Done S t (S.tasks.update (requeued_row x) p.tasks)) e
        (unfold requeued_row in S.tasks.find_update_self (requeued_row t) v p.tasks f)

  requeue-Done :
      (p : Polling S R) (u : Task)
      → Overdue S locked now rows u
      → ((id : ℕ) → Requeued S locked now rows p.tasks id)
      → Done S t p.tasks
      → Done S t (requeue now u p).tasks
  unfolding requeue
  requeue-Done p u o h d = elim (Bool-cases (u.id == t.id)) [
    | inl e ↦
        let i : u.id ≡ t.id = ground arith in
        let k : S.tasks.find t.id rows ≡ some u = subst (λ j. S.tasks.find j rows ≡ some u) i o.1 in
        let same : t ≡ u = cc in requeue-Own p u h same
    | inr e ↦
        let ne : (requeued_row u).id ≢ t.id = unfold requeued_row in λ k. ground arith in
        S.tasks.find_update_ne t.id (requeued_row u) p.tasks ne ∙ d
  ]

  requeue_all-kept :
      (ts : List Task) (p : Polling S R)
      → All (Overdue S locked now rows) ts
      → ((id : ℕ) → Requeued S locked now rows p.tasks id)
      → Done S t p.tasks
      → Done S t (requeue_all now ts p).tasks
  unfolding requeue_all
  requeue_all-kept [] p a h d = d
  requeue_all-kept (u ∷ us) p a h d =
      requeue_all-kept us (requeue now u p) a.1 (requeue-Requeued locked now rows p u a.0 h)
        (requeue-Done p u a.0 h d)

  requeue_all-Done :
      (ts : List Task) (p : Polling S R)
      → All (Overdue S locked now rows) ts
      → ((id : ℕ) → Requeued S locked now rows p.tasks id)
      → In t ts
      → Done S t (requeue_all now ts p).tasks
  unfolding requeue_all
  requeue_all-Done [] p a h i = absurd i
  requeue_all-Done (u ∷ us) p a h (inl e) =
      requeue_all-kept us (requeue now u p) a.1 (requeue-Requeued locked now rows p u a.0 h)
        (requeue-Own p u h e)
  requeue_all-Done (u ∷ us) p a h (inr i) =
      requeue_all-Done us (requeue now u p) a.1 (requeue-Requeued locked now rows p u a.0 h) i

module _ {S : Schema} {R : Rooms} (locked : ℕ → Bool) (now : ℕ) (before : Polling S R) where
  poll_and_requeue-Done :
      (t : Task)
      → S.tasks.find t.id before.tasks ≡ some t
      → overdue locked now t ≡ true
      → Done S t (poll_and_requeue locked now none before).1.tasks
  unfolding poll_and_requeue
  poll_and_requeue-Done t f e =
      let ts = S.tasks.select (overdue locked now) before.tasks in
      let start = record before { requeued = 0 } in
      ap (λ (x : Answer ℕ × Polling S R). S.tasks.find t.id x.1.tasks)
        (end_poll-none before (requeue_all now ts start) (requeue_all now ts start).requeued)
      ∙ requeue_all-Done locked now before.tasks t f ts start
          (S.tasks.select_sound (overdue locked now) before.tasks) (λ id. inl refl)
          (S.tasks.select_complete (overdue locked now) before.tasks t f e)

  row-exact :
      (id : ℕ) (o : Option Task)
      → S.tasks.find id before.tasks ≡ o
      → S.tasks.find id (poll_and_requeue locked now none before).1.tasks ≡ polled_row locked now o
  row-exact id none f = elim ((poll_and_requeue-Requeued locked now before).0 id) [
    | inl e ↦ e ∙ f
    | inr (u, g, o, e) ↦ absurd (cc)
  ]
  row-exact id (some t) f = elim ((poll_and_requeue-Requeued locked now before).0 id) [
    | inl e ↦ elim (Bool-cases (overdue locked now t)) [
      | inl due ↦
          let i = S.tasks.find_key id before.tasks t f in
          let k : S.tasks.find t.id before.tasks ≡ some t =
            subst (λ j. S.tasks.find j before.tasks ≡ some t) (sym i) f in
          subst
            (λ j.
              S.tasks.find j (poll_and_requeue locked now none before).1.tasks
              ≡ some (requeued_row t))
            i (poll_and_requeue-Done t k due)
          ∙ overdue-row locked now t due
      | inr later ↦ rw later (e ∙ f)
    ]
    | inr (u, g, o, e) ↦
        let same : u ≡ t = cc in
        let due : overdue locked now t ≡ true = subst (λ x. overdue locked now x ≡ true) same o in
        e ∙ ap (λ x. some (requeued_row x)) same ∙ overdue-row locked now t due
  ]

  -- A poll whose commit goes through puts back the rows that are PENDING with a retry time that has
  -- passed and that no other transaction has locked, all of them and no others: their retry time is
  -- cleared and their original enqueue time set, and every other row is as it was. The result is the
  -- number of those rows.
  pub poll_and_requeue-exact :
      (let (result, after) = poll_and_requeue locked now none before in
        ((id : ℕ)
          → S.tasks.find id after.tasks ≡ polled_row locked now (S.tasks.find id before.tasks))
        × (result ≡ ok (length (S.tasks.select (overdue locked now) before.tasks))))
  poll_and_requeue-exact =
      (λ id. row-exact id _ refl, (poll_and_requeue-Requeued locked now before).1)
