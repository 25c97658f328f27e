-- ===== src/System/Rowwise/Session.antt =====
-- The rows of one session of src/fairlane: of a reclamation, and of a poll.
use fairlane.Prelude.{
  not, Bool, In, ℕ, String, ◌≡◌, refl, Bool, true, false, ◌&&◌, Option, none, some, List, [], ◌∷◌,
  All, Bool-cases, inl, inr,
}
use fairlane.Models.{Task, DeadLetter, is_pending}
use fairlane.Database.{Schema, Db}
use fairlane.Scheduler.Queue.{Rooms}
use fairlane.Scheduler.Poll.{due, Polling, requeue, requeue_all}
use fairlane.Reaper.Reclaim.{
  terminal, poison_letter, Session, reclaim_task, reclaim_row, reclaim_id, reclaim_ids,
}
use fairlane.Reaper.Reclaim.Letters.{In-append_last, reclaim_ids-letters}
use fairlane.System.Rows.{Holds, Holds-update}
use fairlane.System.Rowwise.{Lettered, RowProperty, Rowwise}

module _ {S : Schema} (P : RowProperty S) (closed : Rowwise S P) (d : Db S) (now : ℕ)
    (dead_worker : String) where
  -- The session's dead letters stand in the table.
  abbrev pub Covered : List DeadLetter → Type 0
  Covered ds = (x : DeadLetter) → In x ds → Lettered S d x.task_id

  reclaim_row-Holds :
      (o : Option Task) (s : Session S)
      → ((t : Task) → o ≡ some t → P d t)
      → Covered (reclaim_row now dead_worker o s).letters
      → Holds S (P d) s.tasks
      → Holds S (P d) (reclaim_row now dead_worker o s).tasks
  unfolding reclaim_row reclaim_task poison_letter
  reclaim_row-Holds none s p c h = h
  reclaim_row-Holds (some t) s p c h = elim (Bool-cases (terminal t.status)) [
    | inl e ↦ rw e h
    | inr e ↦ rw e (
        Holds-update S (P d) s.tasks h _ (
          closed.reclaimed d t now e
            (λ x. c (poison_letter now dead_worker t) (rw e (rw x (In-append_last _ s.letters))))
            (p t refl)))
  ]

  reclaim_id-Holds :
      (o : Option ℕ) (s : Session S)
      → Covered (reclaim_id now dead_worker o s).letters
      → Holds S (P d) s.tasks
      → Holds S (P d) (reclaim_id now dead_worker o s).tasks
  unfolding reclaim_id
  reclaim_id-Holds none s c h = h
  reclaim_id-Holds (some id) s c h = reclaim_row-Holds _ s (h id) c h

  pub reclaim_ids-Holds :
      (parse : String → Option ℕ) (xs : List String) (s : Session S)
      → Covered (reclaim_ids now dead_worker parse xs s).letters
      → Holds S (P d) s.tasks
      → Holds S (P d) (reclaim_ids now dead_worker parse xs s).tasks
  unfolding reclaim_ids
  reclaim_ids-Holds parse [] s c h = h
  reclaim_ids-Holds parse (x ∷ xs) s c h = reclaim_ids-Holds parse xs _ c (
      reclaim_id-Holds (parse x) s (λ d i. c d (reclaim_ids-letters now dead_worker d parse xs _ i))
        h)

pending_of : (a b : Bool) → (a && b) ≡ true → a ≡ true
pending_of true b h = cc
pending_of false b h = h

module _ {S : Schema} (P : RowProperty S) (closed : Rowwise S P) (d : Db S) (locked : ℕ → Bool)
    (now : ℕ) where
  -- A row that the poll puts back: pending, and with the property.
  abbrev Ready : Task → Type 0
  Ready t = (is_pending t.status ≡ true) × P d t

  selected :
      (rows : S.tasks.Rows) (ts : List Task)
      → Holds S (P d) rows
      → All
          (λ t.
            ((is_pending t.status && (due now t.next_retry_at && not (locked t.id))) ≡ true)
            × (S.tasks.find t.id rows ≡ some t))
          ts
      → All Ready ts
  selected rows [] h a = tt
  selected rows (t ∷ ts) h a = ((pending_of _ _ a.0.0, h t.id t a.0.1), selected rows ts h a.1)

  requeue_all-Holds :
      {R : Rooms} (ts : List Task) (p : Polling S R)
      → All Ready ts
      → Holds S (P d) p.tasks
      → Holds S (P d) (requeue_all now ts p).tasks
  unfolding requeue_all requeue
  requeue_all-Holds [] p a h = h
  requeue_all-Holds (t ∷ ts) p a h =
      requeue_all-Holds ts (requeue now t p) a.1
        (Holds-update S (P d) p.tasks h _ (closed.requeued d t a.0.0 a.0.1))

  pub poll-Holds :
      {R : Rooms} (p : Polling S R)
      → Holds S (P d) p.tasks
      → Holds S
          (P d)
          (requeue_all now
            (S.tasks.select
              (λ t. is_pending t.status && (due now t.next_retry_at && not (locked t.id)))
              p.tasks)
            p).tasks
  poll-Holds p h = requeue_all-Holds _ p (selected p.tasks _ h (S.tasks.select_sound _ p.tasks)) h
