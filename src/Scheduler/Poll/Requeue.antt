-- ===== src/Scheduler/Poll/Requeue.antt =====
-- The rows after `_poll_and_requeue` of src/fairlane/scheduler/__init__.py.
pub mod Exact
use fairlane.Prelude.{
  not, ℕ, zero, suc, ◌+◌, ◌≡◌, ◌≢◌, refl, ap, ◌∙◌, Bool, true, ◌&&◌, ◌⊎◌, none, some, List, [], ◌∷◌,
  All, length, arith, ◌==◌, Bool-cases, inl, inr,
}
use mathlib.Core.Path.{subst}
use fairlane.Models.{Task, is_pending}
use fairlane.Retry.{Exception}
use fairlane.Answer.{ok}
use fairlane.Database.{Schema}
use fairlane.Scheduler.Queue.{Rooms}
use fairlane.Scheduler.Poll.{
  due, requeued_row, Polling, requeue, requeue_all, poll_and_requeue, end_poll,
}

-- The filter of the poll.
abbrev pub overdue : (ℕ → Bool) → ℕ → Task → Bool
overdue locked now t = is_pending t.status && (due now t.next_retry_at && not (locked t.id))

module _ (S : Schema) (locked : ℕ → Bool) (now : ℕ) (rows : S.tasks.Rows) where
  abbrev Overdue : Task → Type 0
  Overdue t = (overdue locked now t ≡ true) × (S.tasks.find t.id rows ≡ some t)

  -- A row is as it was, or it was overdue and has been put back.
  abbrev pub Requeued : S.tasks.Rows → ℕ → Type 0
  Requeued after id =
      (S.tasks.find id after ≡ S.tasks.find id rows)
      ⊎ ((t : Task) × (S.tasks.find id rows ≡ some t)
          × (overdue locked now t ≡ true)
          × (S.tasks.find id after ≡ some (requeued_row t)))

  present :
      (after : S.tasks.Rows) (t : Task)
      → S.tasks.find t.id rows ≡ some t
      → Requeued after t.id
      → (u : Task) × (S.tasks.find t.id after ≡ some u)
  present after t h (inl e) = (t, e ∙ h)
  present after t h (inr (u, _, _, e)) = (requeued_row u, e)

module _ {S : Schema} {R : Rooms} (locked : ℕ → Bool) (now : ℕ) (rows : S.tasks.Rows) where
  requeue-Requeued :
      (p : Polling S R) (t : Task)
      → Overdue S locked now rows t
      → ((id : ℕ) → Requeued S locked now rows p.tasks id)
      → (id : ℕ) → Requeued S locked now rows (requeue now t p).tasks id
  unfolding requeue
  requeue-Requeued p t o h id = elim (Bool-cases (t.id == id)) [
    | inl e ↦
        let same : t.id ≡ id = ground arith in
        let (u, f) = present S locked now rows p.tasks t o.1 (h t.id) in
        subst (λ i. Requeued S locked now rows (S.tasks.update (requeued_row t) p.tasks) i) same
          (inr (
            t,
            o.1,
            o.0,
            unfold requeued_row in S.tasks.find_update_self (requeued_row t) u p.tasks f,
          ))
    | inr e ↦
        let ne : (requeued_row t).id ≢ id = unfold requeued_row in λ k. ground arith in
        rw (S.tasks.find_update_ne id (requeued_row t) p.tasks ne) (h id)
  ]

  requeue_all-Requeued :
      (ts : List Task) (p : Polling S R)
      → All (Overdue S locked now rows) ts
      → ((id : ℕ) → Requeued S locked now rows p.tasks id)
      → ((id : ℕ) → Requeued S locked now rows (requeue_all now ts p).tasks id)
  unfolding requeue_all
  requeue_all-Requeued [] p a h = h
  requeue_all-Requeued (t ∷ ts) p a h =
      requeue_all-Requeued ts (requeue now t p) a.1 (requeue-Requeued p t a.0 h)

  requeue_all-requeued :
      (ts : List Task) (p : Polling S R) → (requeue_all now ts p).requeued ≡ length ts + p.requeued
  unfolding requeue_all requeue
  requeue_all-requeued [] p = omega arith
  requeue_all-requeued (t ∷ ts) p = omega (arith, requeue_all-requeued ts (requeue now t p))

end_poll-none :
    {S : Schema} {R : Rooms} (before after : Polling S R) (n : ℕ)
    → end_poll none before after n ≡ (ok n, after)
unfolding end_poll
end_poll-none before after zero = refl
end_poll-none before after (suc n) = refl

-- A poll whose commit goes through clears the retry time of the rows that are PENDING with a retry
-- time that has passed, and sets their original enqueue time, and leaves every other row alone: at
-- each id the row is as it was, or it was overdue and is put back. The result is the number of the
-- overdue rows.
pub poll_and_requeue-Requeued :
    {S : Schema} {R : Rooms} (locked : ℕ → Bool) (now : ℕ) (before : Polling S R)
    → (let (result, after) = poll_and_requeue locked now none before in
        ((id : ℕ) → Requeued S locked now before.tasks after.tasks id)
        × (result ≡ ok (length (S.tasks.select (overdue locked now) before.tasks))))
unfolding poll_and_requeue
poll_and_requeue-Requeued {S} locked now before =
    let ts = S.tasks.select (overdue locked now) before.tasks in
    let start = record before { requeued = 0 } in
    let after = requeue_all now ts start in
    let n = requeue_all-requeued locked now before.tasks ts start in
    rw (end_poll-none before after after.requeued) (
      requeue_all-Requeued locked now before.tasks ts start
          (S.tasks.select_sound (overdue locked now) before.tasks) (λ id. inl refl),
      ap ok (omega (arith, n)),
    )

module _ {S : Schema} {R : Rooms} where
  end_poll-fails :
      (e : Exception) (before after : Polling S R) (n : ℕ)
      → (n ≡ 0 → after.tasks ≡ before.tasks)
      → (end_poll (some e) before after n).1.tasks ≡ before.tasks
  unfolding end_poll
  end_poll-fails e before after zero h = h refl
  end_poll-fails e before after (suc n) h = refl

  requeue_all-none :
      (now : ℕ) (ts : List Task) (p : Polling S R)
      → length ts ≡ 0
      → (requeue_all now ts p).tasks ≡ p.tasks
  unfolding requeue_all
  requeue_all-none now [] p h = refl
  requeue_all-none now (t ∷ ts) p h = absurd (ground arith)

  -- A poll whose commit raises leaves the rows as they were.
  pub poll_and_requeue-fails :
      (locked : ℕ → Bool) (now : ℕ) (e : Exception) (before : Polling S R)
      → (poll_and_requeue locked now (some e) before).1.tasks ≡ before.tasks
  unfolding poll_and_requeue
  poll_and_requeue-fails locked now e before =
      let ts = S.tasks.select (overdue locked now) before.tasks in
      let start = record before { requeued = 0 } in
      let n = requeue_all-requeued locked now before.tasks ts start in
      end_poll-fails e before (requeue_all now ts start) _
        (λ z. requeue_all-none now ts start (omega (arith, n, z)))
