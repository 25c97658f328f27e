-- ===== src/Scheduler/Dispatch/Loop/Rate.antt =====
-- How often the dispatchers of src/fairlane/scheduler/dispatcher.py dispatch.
use fairlane.Prelude.{ℕ, String, ◌+◌, ◌*◌, ◌≤◌, ◌≡◌, refl, false, Option, none, some, [], length}
use fairlane.Answer.{Answer, ok, raise}
use fairlane.Database.{Schema}
use fairlane.Redis.{ExpiringKey}
use fairlane.Redis.Lease.{
  Apart, length-Apart, IsLeased, acquire-IsLeased, renew-IsLeased, past-IsLeased,
}
use fairlane.Scheduler.Queue.{Rooms}
use fairlane.Scheduler.Dispatch.Loop.{
  lock_ttl, Cluster, decoded, stored, is_own, ask, cycle, after_cycle, extend, leave, Step, Reach,
}

-- The comparison of text with bytes never holds, so no dispatcher deletes the lock.
not_own : (o : Option String) → is_own (decoded o) ≡ false
unfolding is_own
not_own none = refl
not_own (some s) = refl

module _ {L : ExpiringKey} {S : Schema} {R : Rooms} (unit : ℕ) where
  after_cycle-lease :
      (i : ℕ) (a : Answer Unit) (c : Cluster L S R) → (after_cycle i (a, c)).lease ≡ c.lease
  unfolding after_cycle
  after_cycle-lease i (ok u) c = refl
  after_cycle-lease i (raise e) c = refl

  abbrev Leased : Cluster L S R → Type 0
  Leased c = IsLeased L lock_ttl c.lease

  Step-Leased : {c d : Cluster L S R} → Step unit c d → Leased c → Leased d
  Step-Leased {c} (Step.asks i now le p) h =
      unfold ask in acquire-IsLeased L lock_ttl now c.lease le h
  Step-Leased {c} (Step.cycles i active_workers time commit p) h =
      let (a, d) = cycle unit active_workers time commit c in
      rw (after_cycle-lease i a d) (unfold cycle in h)
  Step-Leased {c} (Step.raises i e p) h = rw (after_cycle-lease i (raise e) c) h
  Step-Leased {c} (Step.extends i now le p) h =
      unfold extend in renew-IsLeased L lock_ttl now c.lease le h
  Step-Leased {c} (Step.leaves i now le) h =
      unfold leave in
      rw (not_own (stored L now c.lease.key)) (past-IsLeased L lock_ttl now c.lease le h)
  Step-Leased {c} (Step.others db queue) h = h

  Reach-Leased : {c d : Cluster L S R} → Reach unit c d → Leased c → Leased d
  Reach-Leased Reach.here h = h
  Reach-Leased (Reach.next r s) h = Step-Leased s (Reach-Leased r h)

  -- However many dispatchers run and whatever happens to them, the moments at which one of them
  -- takes the lock, and with it the only moments that a cycle follows, are at least three seconds
  -- apart, even those of one dispatcher: there is at most one more of them than three-second
  -- periods on the clock.
  pub Reach-Apart :
      {c d : Cluster L S R}
      → Reach unit c d
      → c.lease.starts ≡ []
      → Apart 3000 d.lease.starts × (length d.lease.starts * 3000 ≤ d.lease.clock + 3000)
  Reach-Apart {c} r start =
      let h =
        Reach-Leased r (record { apart = rw start tt; kept = rw start tt; past = rw start tt }) in
      (h.apart, length-Apart 3000 _ _ h.apart h.past)
