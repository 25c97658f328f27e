-- ===== src/Scheduler/Dispatch/Fairness.antt =====
-- Which tenant the script of src/fairlane/scheduler/dispatch.lua serves.
use fairlane.Prelude.{
  In, All-In, ℕ, ◌+◌, ◌/◌, ◌≤◌, String, ◌≡◌, sym, ap, ◌∙◌, true, Option, none, some, List, [], ◌∷◌,
  arith, ℤ, below, inl, inr, or_else, Bool-cases, ◌==◌,
}
use mathlib.Core.Path.{subst}
use fairlane.Redis.{Ascending}
use fairlane.Scheduler.Queue.{Rooms, Queue}
use fairlane.Scheduler.Dispatch.{first_with_room, advance, pop, pop_from}

least_of_head :
    (instream : String → ℤ) (cap : ℕ) (n : String) (r : ℕ) (l : List (String × ℕ)) (v : ℕ)
    → r ≡ v
    → (m : String) (s : ℕ) → Ascending ((n, r) ∷ l)
    → In (m, s) ((n, r) ∷ l)
    → v ≤ s
least_of_head instream cap n r l v f m s a (inl e) = ground arith
least_of_head instream cap n r l v f m s a (inr i) = omega (arith, All-In (λ x. r ≤ x.1) l a.0 i)

-- The first tenant with room has room, and no tenant with room has a smaller virtual time.
first_with_room-least :
    (instream : String → ℤ) (cap : ℕ) (l : List (String × ℕ)) (t : String) (v : ℕ)
    → first_with_room instream cap l ≡ some (t, v)
    → Ascending l
    → (below (instream t) cap ≡ true)
      × In (t, v) l
      × ((m : String) (s : ℕ) → In (m, s) l → below (instream m) cap ≡ true → v ≤ s)
unfolding first_with_room
first_with_room-least instream cap [] t v h a = absurd (cc)
first_with_room-least instream cap ((n, r) ∷ l) t v h a =
    elim (Bool-cases (below (instream n) cap)) [
      | inl room ↦
          let p : ◌≡◌ {A = Option (String × ℕ)} (some (n, r)) (some (t, v)) = rw room at h in
          let e : n ≡ t = cc in
          let f : r ≡ v = cc in
          (
            subst (λ x. below (instream x) cap ≡ true) e room,
            inl (cc),
            λ m s i b. least_of_head instream cap n r l v f m s a i,
          )
      | inr full ↦
          let (b, i, least) = first_with_room-least instream cap l t v (rw full at h) a.1 in
          (
            b,
            inr i,
            λ m s j c. elim j [
              | inl e ↦ absurd (cc (full, c, ap (λ (x : String × ℕ). below (instream x.0) cap) e))
              | inr k ↦ least m s k c
            ],
          )
    ]

module _ {R : Rooms} (unit cap : ℕ) (q : Queue R) (t : String) (v : ℕ)
    (chosen : first_with_room q.instream cap (R.tenants.zrange q.vtime) ≡ some (t, v)) where
  choice :
      (below (q.instream t) cap ≡ true)
      × In (t, v) (R.tenants.zrange q.vtime)
      × ((m : String) (s : ℕ)
          → In (m, s) (R.tenants.zrange q.vtime)
          → below (q.instream m) cap ≡ true
          → v ≤ s)
  choice = first_with_room-least q.instream cap _ t v chosen (R.tenants.zrange_ascending q.vtime)

  -- The virtual time of the tenant after its round.
  popped :
      (v' : ℕ) (id : Option ℕ)
      → R.tenants.zscore t (pop unit t v q id).0.vtime ≡ some v'
      → R.tenants.zscore t q.vtime ≡ some v
      → v' ≤ v + unit / or_else (q.weight t) 1
  unfolding pop advance
  popped v' none k z = absurd (cc (R.tenants.zscore_zrem_self t q.vtime))
  popped v' (some id) k z = elim (Bool-cases (R.tasks.zcard (R.tasks.zrem id (q.ready t)) == 0)) [
    | inl e ↦ absurd (cc (R.tenants.zscore_zrem_self t q.vtime, rw e at k))
    | inr e ↦
        let new = v + unit / or_else (q.weight t) 1 in
        let f : some new ≡ some v' = sym (R.tenants.zscore_zadd_self t new q.vtime) ∙ rw e at k in
        ground (arith, f)
  ]

  grown :
      (v' : ℕ)
      → R.tenants.zscore t (pop_from unit q (t, v)).0.vtime ≡ some v'
      → R.tenants.zscore t q.vtime ≡ some v
      → v' ≤ v + unit / or_else (q.weight t) 1
  unfolding pop_from
  grown v' k z = popped v' _ k z

  -- The tenant that a round serves waits with the virtual time `v` and has room in the stream; no
  -- waiting tenant with room has a smaller virtual time; and if the tenant still waits after the
  -- round, its virtual time is `v` or has grown by the inverse of its weight, so it leads no
  -- waiting tenant with room by more than that.
  pub dispatch_round_fair :
      (R.tenants.zscore t q.vtime ≡ some v)
      × (below (q.instream t) cap ≡ true)
      × ((m : String) (s : ℕ)
          → R.tenants.zscore m q.vtime ≡ some s
          → below (q.instream m) cap ≡ true
          → (v ≤ s)
            × ((v' : ℕ)
                → R.tenants.zscore t (pop_from unit q (t, v)).0.vtime ≡ some v'
                → v' ≤ s + unit / or_else (q.weight t) 1))
  dispatch_round_fair =
      let (room, i, least) = choice in
      let z =
        All-In (λ e. R.tenants.zscore e.0 q.vtime ≡ some e.1) _ (R.tenants.zrange_sound q.vtime)
          i in
      (
        z,
        room,
        λ m s h b.
            let le = least m s (R.tenants.zrange_complete m s q.vtime h) b in
            (le, λ v' k. omega (arith, le, grown v' k z)),
      )
