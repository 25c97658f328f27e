-- ===== src/Collector/Ages.antt =====
-- What the rounds of src/fairlane/metrics_collector.py get wrong: the age of the oldest task, and the
-- end of the loop.
use fairlane.Prelude.{
  ℕ, ◌*◌, ◌/◌, ◌≤◌, String, ◌≡◌, refl, ap, ◌∙◌, true, none, some, List, [], ◌∷◌, All, arith, str_eq,
  eq_iff, Bool-cases, Option-cases, inl, inr,
}
use mathlib.Core.Path.{subst}
use text.Mathlib.TextPositions.{eq_refl}
use fairlane.Models.{Task}
use fairlane.Retry.{Exception}
use fairlane.Database.{Schema}
use fairlane.Redis.{ExpiringKey}
use fairlane.Redis.Lease.{acquire}
use fairlane.Scheduler.Queue.{Rooms, score}
use fairlane.Scheduler.Queue.Order.{enqueued_ms}
use fairlane.Collector.{
  Outcome, Gauges, Round, Collector, contains, oldest_age, collect_tenant, collect_tenants,
  known_tenants, tenants, gather, with_lock, collect_metrics, metrics_collection_loop, lock_expiry,
  set_counts, set_workers, read_stream, unless_ended,
}
use fairlane.Collector.Raised.{unless_raised-keeps, not_raised, has_raised}

-- The entry of a room is a task's, and the millisecond in which it was first enqueued, read as a
-- second, has not come yet.
abbrev pub Recent : ℕ → ℕ × ℕ → Type 0
Recent now e = (u : Task) × (e.1 ≡ score u) × (now ≤ enqueued_ms u * 1_000_000)

oldest_age-zero : (now : ℕ) (l : List (ℕ × ℕ)) → All (Recent now) l → oldest_age now l ≡ 0
unfolding oldest_age
oldest_age-zero now [] h = refl
oldest_age-zero now ((id, s) ∷ l) h =
    let (u, e, k) = h.0 in
    let p : enqueued_ms u ≤ score u = unfold score in omega arith in omega (arith, e, k, p)

-- Scores are milliseconds and the collector's clock counts seconds, so the age of the oldest task of
-- a tenant is given as 0 as long as the milliseconds in which its tasks were first enqueued, read as
-- seconds, lie in the future, as those since January 1970 do.
pub collect_tenant-age :
    {S : Schema} {R : Rooms} (r : Round S R) (t : String) (g : Gauges)
    → r.on_zrange t ≡ none
    → All (Recent r.now) (R.tasks.zrange (r.queue.ready t))
    → (collect_tenant r t g).1.queue_oldest_age t ≡ some 0
unfolding collect_tenant
collect_tenant-age {S} {R} r t g h k =
    let z = oldest_age-zero r.now (R.tasks.zrange (r.queue.ready t)) k in
    let aged : Gauges → Type 0 = λ h. h.queue_oldest_age t ≡ some 0 in
    ap (λ (o : Outcome). o.1.queue_oldest_age t) (not_raised (r.on_zrange t) _ g h)
    ∙ unless_raised-keeps aged (r.on_get t) _
        (λ g1 e1. unless_raised-keeps aged (r.on_hget t) _ (λ g2 e2. e2) _ e1) _
        (rw (eq_refl t) (ap some z))

module _ {S : Schema} {R : Rooms} (r : Round S R) (t : String) where
  collect_tenant-raises :
      (e : Exception) (g : Gauges) → r.on_zrange t ≡ some e → (collect_tenant r t g).0 ≡ some e
  unfolding collect_tenant
  collect_tenant-raises e g h = ap (λ (y : Outcome). y.0) (has_raised (r.on_zrange t) _ g e h)

  -- A tenant's command that raises ends the round, if no other has ended it before.
  collect_tenants-raises :
      (e : Exception) (ts : List String) (g : Gauges)
      → r.on_zrange t ≡ some e
      → contains t ts ≡ true
      → (x : Exception) × ((collect_tenants r ts g).0 ≡ some x)
  unfolding collect_tenants
  collect_tenants-raises e [] g h k = absurd (cc)
  collect_tenants-raises e (u ∷ us) g h k = elim (Option-cases (collect_tenant r u g).0) [
    | inr (x, o) ↦ (x, ap (λ (y : Outcome). y.0) (has_raised (collect_tenant r u g).0 _ _ x o))
    | inl o ↦ elim (Bool-cases (str_eq t u)) [
      | inl same ↦
          let p =
            subst (λ v. (collect_tenant r v g).0 ≡ some e) ((eq_iff t u).0 same)
              (collect_tenant-raises e g h) in
          absurd (cc)
      | inr other ↦
          let (x, rest) = collect_tenants-raises e us (collect_tenant r u g).1 h (rw other at k) in
          (x, ap (λ (y : Outcome). y.0) (not_raised (collect_tenant r u g).0 _ _ o) ∙ rest)
    ]
  ]

  gather-raises :
      (e : Exception) (g : Gauges)
      → r.status_query ≡ none
      → r.workers_query ≡ none
      → r.on_zrange t ≡ some e
      → contains t (known_tenants (tenants r)) ≡ true
      → (x : Exception) × ((gather r g).0 ≡ some x)
  unfolding gather
  gather-raises e g p q h k =
      let c = tenants r in
      let counted = set_counts c (read_stream r.stream_info g) in
      let (x, y) = collect_tenants-raises e (known_tenants c) (set_workers r counted) h k in
      (
        x,
        ap (λ (o : Outcome). o.0) (not_raised r.status_query _ (read_stream r.stream_info g) p)
            ∙ ap (λ (o : Outcome). o.0) (not_raised r.workers_query _ counted q)
            ∙ y,
      )

-- A reading of one tenant's room (its ZRANGE) that raises, in a round that has the lock and whose
-- queries do not raise, ends the collection of this worker: there are no further rounds, and the gauges stay as that
-- round leaves them.
pub metrics_collection_loop-ends :
    {L : ExpiringKey} {S : Schema} {R : Rooms} (r : Round S R) (c : Collector L) (t : String)
    (e : Exception)
    → r.lock ≡ none
    → L.until c.lease.key ≤ r.now / 1000
    → r.status_query ≡ none
    → r.workers_query ≡ none
    → r.on_zrange t ≡ some e
    → contains t (known_tenants (tenants r)) ≡ true
    → (x : Exception) × ((rounds : List (Round S R))
        → metrics_collection_loop (r ∷ rounds) c ≡ (some x, (collect_metrics r c).1))
unfolding metrics_collection_loop collect_metrics with_lock acquire
metrics_collection_loop-ends {L} r c t e l free p q h k =
    let (x, raised) = gather-raises r t e c.gauges p q h k in
    let answer : (collect_metrics r c).0 ≡ some x =
      ap (λ o. (with_lock o r c).0) l
      ∙ rw (L.set_nx_px_free (r.now / 1000) lock_expiry c.lease.key free).0 raised in
    (
      x,
      λ rounds.
          ap
            (λ o.
              unless_ended o (metrics_collection_loop rounds (collect_metrics r c).1)
                (collect_metrics r c).1)
            answer,
    )
