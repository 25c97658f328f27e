-- ===== src/Collector/Counted.antt =====
-- The gauges of counts after a round of src/fairlane/metrics_collector.py.
use fairlane.Prelude.{
  Bool, ◌&&◌, str_eq, arith, ℕ, ◌/◌, ◌≤◌, ◌<◌, String, ◌≡◌, refl, ap, ◌∙◌, true, Option, none, some,
  List, [], ◌∷◌, arith,
}
use fairlane.Models.{is_running, is_dead, is_pending, Task, TaskStatus}
use fairlane.Database.Group.{group_by, tally}
use fairlane.Database.Group.Lookup.{nonzero, group_by-Distinct, assoc-group_by}
use fairlane.Collector.{
  same_status, empty, same_group, Tenants, set_all, Gauges, Round, read_stream, collect_tenant,
  collect_tenants, tenants, set_counts, set_workers, known_tenants, gather, Collector,
  collect_metrics, with_lock, lock_expiry, unless_raised,
}
use fairlane.Retry.{Exception}
use fairlane.Answer.{Answer, ok, raise}
use fairlane.Database.{Schema}
use fairlane.Redis.{ExpiringKey}
use fairlane.Redis.Lease.{acquire}
use fairlane.Scheduler.Queue.{Rooms}
use fairlane.Collector.Raised.{unless_raised-keeps, not_raised}
use fairlane.Collector.Tallies.{
  over, Keyed, same_group_iff, set_all-Keyed, Shown, shown_status, part, place_all-Keyed,
  place_all-at,
}

-- The dictionaries at the start.
abbrev nothing : Tenants
nothing = record { running = empty; dlq = empty; waiting = empty }

nothing-Keyed : (k : Shown) → Keyed (part k nothing)
nothing-Keyed Shown.running t = refl
nothing-Keyed Shown.dlq t = refl
nothing-Keyed Shown.waiting t = refl

over-nothing : (k : Shown) (t : String) (o : Option ℕ) → over o ((part k nothing).at t) ≡ o
over-nothing Shown.running t o = ground arith
over-nothing Shown.dlq t o = ground arith
over-nothing Shown.waiting t o = ground arith

-- The gauge of each of the three counts.
abbrev pub gauge : Shown → Gauges → String → Option ℕ
gauge Shown.running g = g.tasks_running
gauge Shown.dlq g = g.dlq_size
gauge Shown.waiting g = g.queue_waiting

set_counts-gauge :
    (k : Shown) (c : Tenants) (g : Gauges)
    → gauge k (set_counts c g) ≡ set_all (part k c).keys (part k c) (gauge k g)
unfolding set_counts
set_counts-gauge Shown.running c g = refl
set_counts-gauge Shown.dlq c g = refl
set_counts-gauge Shown.waiting c g = refl

-- The three gauges are as in the others.
abbrev Kept : Gauges → Gauges → Type 0
Kept g h =
    (h.tasks_running ≡ g.tasks_running)
    × (h.dlq_size ≡ g.dlq_size)
    × (h.queue_waiting ≡ g.queue_waiting)

Kept-gauge : (k : Shown) (g h : Gauges) → Kept g h → gauge k h ≡ gauge k g
Kept-gauge Shown.running g h e = e.0
Kept-gauge Shown.dlq g h e = e.1
Kept-gauge Shown.waiting g h e = e.2

module _ {S : Schema} {R : Rooms} (r : Round S R) (g : Gauges) where
  collect_tenant-Kept : (t : String) (h : Gauges) → Kept g h → Kept g (collect_tenant r t h).1
  unfolding collect_tenant
  collect_tenant-Kept t = unless_raised-keeps (Kept g) (r.on_zrange t) _ (λ g1 e1.
      unless_raised-keeps (Kept g) (r.on_get t) _
        (λ g2 e2. unless_raised-keeps (Kept g) (r.on_hget t) _ (λ g3 e3. e3) _ e2) _ e1)

  collect_tenants-Kept :
      (ts : List String) (h : Gauges) → Kept g h → Kept g (collect_tenants r ts h).1
  unfolding collect_tenants
  collect_tenants-Kept [] h e = e
  collect_tenants-Kept (t ∷ ts) h e =
      unless_raised-keeps (Kept g) (collect_tenant r t h).0 _ (collect_tenants-Kept ts) _
        (collect_tenant-Kept t h e)

  set_workers-Kept : (h : Gauges) → Kept g h → Kept g (set_workers r h)
  unfolding set_workers
  set_workers-Kept h e = e

  read_stream-Kept : (a : Answer (Option ℕ)) → Kept g (read_stream a g)
  unfolding read_stream
  read_stream-Kept (raise e) = (refl, refl, refl)
  read_stream-Kept (ok none) = (refl, refl, refl)
  read_stream-Kept (ok (some n)) = (refl, refl, refl)

abbrev pub has_shown : Shown → TaskStatus → Bool
has_shown Shown.running s = is_running s
has_shown Shown.dlq s = is_dead s
has_shown Shown.waiting s = is_pending s

same_status-shown : (k : Shown) (s : TaskStatus) → same_status s (shown_status k) ≡ has_shown k s
same_status-shown Shown.running s = ground arith
same_status-shown Shown.dlq s = ground arith
same_status-shown Shown.waiting s = ground arith

tally-same :
    (k : Shown) (t : String) (l : List Task)
    → tally (λ (x : Task). same_group (x.tenant_id, x.status) (t, shown_status k)) l
      ≡ tally (λ (x : Task). str_eq x.tenant_id t && has_shown k x.status) l
tally-same k t [] = refl
tally-same k t (x ∷ l) =
    let r = tally-same k t l in let e = same_status-shown k x.status in rw (e, r) refl

module _ {S : Schema} {R : Rooms} (r : Round S R) (k : Shown) (t : String) where
  -- How many tasks of the tenant have the status.
  abbrev pub matching : ℕ
  matching =
      tally (λ (x : Task). str_eq x.tenant_id t && has_shown k x.status)
        (S.tasks.select (λ x. true) r.db.tasks)

  tenants-Keyed : Keyed (part k (tenants r))
  unfolding tenants
  tenants-Keyed = place_all-Keyed k _ nothing (nothing-Keyed k)

  tenants-at : (part k (tenants r)).at t ≡ nonzero matching
  unfolding tenants
  tenants-at =
      let all = S.tasks.select (λ (x : Task). true) r.db.tasks in
      let key : Task → String × TaskStatus = λ x. (x.tenant_id, x.status) in
      place_all-at k (group_by same_group key all) nothing t
        (group_by-Distinct same_group same_group_iff key all)
      ∙ over-nothing k t _
      ∙ assoc-group_by same_group same_group_iff key (t, shown_status k) all
      ∙ ap nonzero (tally-same k t all)

  gather-gauge :
      (g : Gauges)
      → r.status_query ≡ none
      → gauge k (gather r g).1 t ≡ over (nonzero matching) (gauge k g t)
  unfolding gather
  gather-gauge g q =
      let c = tenants r in
      let read = read_stream r.stream_info g in
      let counted = set_counts c read in
      let kept =
        unless_raised-keeps (Kept counted) r.workers_query
          (λ h. collect_tenants r (known_tenants c) (set_workers r h))
          (λ h e.
            collect_tenants-Kept r counted (known_tenants c) _ (set_workers-Kept r counted h e))
          counted (refl, refl, refl) in
      let final =
        (unless_raised r.workers_query (λ h. collect_tenants r (known_tenants c) (set_workers r h))
          counted).1 in
      ap (λ (o : Option Exception × Gauges). gauge k o.1 t) (not_raised r.status_query _ read q)
      ∙ ap (λ f. f t) (Kept-gauge k counted final kept)
      ∙ ap (λ f. f t) (set_counts-gauge k c read)
      ∙ set_all-Keyed (part k c) (gauge k read) t tenants-Keyed
      ∙ ap (λ o. over o (gauge k read t)) tenants-at
      ∙ ap (λ f. over (nonzero matching) (f t))
          (Kept-gauge k g read (read_stream-Kept r g r.stream_info))

-- A round that gets the lock, and whose query of the counts does not raise, sets the gauge of a
-- tenant's running, dead and pending tasks to the number of the rows of `tasks` with that tenant and
-- status, whatever else goes wrong, if there is such a row, and else leaves the gauge as it was. A
-- round that does not get the lock leaves every gauge as it was.
pub collect_metrics-counts :
    {L : ExpiringKey} {S : Schema} {R : Rooms} (r : Round S R) (c : Collector L)
    → r.lock ≡ none
    → r.status_query ≡ none
    → (let after = (collect_metrics r c).1.gauges in
        (L.until c.lease.key ≤ r.now / 1000
          → (k : Shown) (t : String)
          → gauge k after t ≡ over (nonzero (matching r k t)) (gauge k c.gauges t))
        × (r.now / 1000 < L.until c.lease.key → after ≡ c.gauges))
unfolding collect_metrics with_lock acquire
collect_metrics-counts {L} r c l q = (
  λ free k t.
      ap (λ o. gauge k (with_lock o r c).1.gauges t) l
      ∙ rw (L.set_nx_px_free (r.now / 1000) lock_expiry c.lease.key free).0
          (gather-gauge r k t c.gauges q),
  λ taken.
      ap (λ o. (with_lock o r c).1.gauges) l
      ∙ rw (L.set_nx_px_taken (r.now / 1000) lock_expiry c.lease.key taken) refl,
)
