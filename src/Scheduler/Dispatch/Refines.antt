-- ===== src/Scheduler/Dispatch/Refines.antt =====
-- The script of src/fairlane/scheduler/dispatch.lua carries out the weighted fair queuing of `Spec`.
use fairlane.Prelude.{
  In, All-In, if-cases, ℕ, zero, suc, ◌≤◌, String, ◌≡◌, ◌≢◌, refl, sym, ap, ◌∙◌, ◌⊎◌, inl, inr,
  true, false, Option, none, some, List, [], ◌∷◌, All, ℤ, below, length, arith, str_eq, eq_iff,
  ◌==◌, Bool-cases, Option-cases,
}
use mathlib.Core.Path.{subst}
use text.Mathlib.TextPositions.{eq_refl}
use fairlane.Redis.{SortedSet, Ascending}
use fairlane.Scheduler.Queue.{Rooms, Queue}
use fairlane.Scheduler.Dispatch.{
  advance, first_with_room, first_task, collect, pop, pop_from, dispatch,
}
use fairlane.Scheduler.Dispatch.Fairness.{dispatch_round_fair}
use fairlane.Scheduler.Dispatch.Spec.{View, view, Chosen, Served, Retired, Dispatched}

other : (m k : String) → m ≢ k → str_eq m k ≡ false
other m k n = elim (Bool-cases (str_eq m k)) [ inl e ↦ absurd (n ((eq_iff m k).0 e)) | inr e ↦ e ]

-- A sorted set's entries, read from its range.
module _ {M : Type 0} (R : SortedSet M) (z : R.Z) where
  listed :
      (l : List (M × ℕ)) → R.zrange z ≡ l → (m : M) (s : ℕ) → R.zscore m z ≡ some s → In (m, s) l
  listed l h m s e = subst (In (m, s)) h (R.zrange_complete m s z e)

  unlisted : R.zrange z ≡ [] → (m : M) → R.zscore m z ≡ none
  unlisted h m = elim (Option-cases (R.zscore m z)) [
    | inl e ↦ e
    | inr (s, e) ↦ absurd (listed [] h m s e)
  ]

  -- The first entry has the least score.
  head_least :
      (a : M) (s : ℕ) (l : List (M × ℕ))
      → R.zrange z ≡ (a, s) ∷ l
      → (R.zscore a z ≡ some s) × ((m : M) (r : ℕ) → R.zscore m z ≡ some r → s ≤ r)
  head_least a s l h =
      let up = subst Ascending h (R.zrange_ascending z) in
      let sound = subst (All (λ (e : M × ℕ). R.zscore e.0 z ≡ some e.1)) h (R.zrange_sound z) in
      (
        sound.0,
        λ m r e. elim (listed ((a, s) ∷ l) h m r e) [
          | inl p ↦ let q : r ≡ s = cc in omega arith
          | inr i ↦ All-In (λ x. s ≤ x.1) l up.0 i
        ],
      )

  -- The count says whether there is an entry.
  counted :
      (l : List (M × ℕ))
      → R.zrange z ≡ l
      → (((R.zcard z == 0) ≡ true) × ((m : M) → R.zscore m z ≡ none))
        ⊎ (((R.zcard z == 0) ≡ false) × ((m : M) × (s : ℕ) × (R.zscore m z ≡ some s)))
  counted [] h = inl (let c = R.zcard_zrange z ∙ ap length h in ground (arith, c), unlisted h)
  counted ((a, s) ∷ l) h =
      inr (
        let c = R.zcard_zrange z ∙ ap length h in ground (arith, c),
        (a, s, (head_least a s l h).0),
      )

module _ {R : Rooms} (unit cap : ℕ) (q : Queue R) (t : String) (v : ℕ)
    (choice : first_with_room q.instream cap (R.tenants.zrange q.vtime) ≡ some (t, v)) where
  chosen : Chosen cap (view q) t v
  chosen =
      let (waits, room, least) = dispatch_round_fair unit cap q t v choice in
      record { waits = waits; room = room; least = λ m s h b. (least m s h b).0 }

  -- An empty room.
  pop-Retired :
      R.tasks.zrange (q.ready t) ≡ [] → Retired cap (view q) (view (pop unit t v q none).0) t
  unfolding pop
  pop-Retired h = record {
    at = v;
    chosen = chosen;
    vacant = unlisted R.tasks (q.ready t) h;
    waiting = unlisted R.tasks (q.ready t) h;
    clock = R.tenants.zscore_zrem_self t q.vtime;
    instream = refl;
    stream = refl;
    apart = record {
      waiting = λ m n id. refl;
      clock = λ m n. R.tenants.zscore_zrem_ne t m q.vtime (λ e. n (sym e));
      instream = λ m n. refl;
      weight = refl;
    };
  }

  pop-Served :
      (id s : ℕ) (l : List (ℕ × ℕ))
      → R.tasks.zrange (q.ready t) ≡ (id, s) ∷ l
      → Served unit cap (view q) (view (pop unit t v q (some id)).0) t id
  unfolding pop advance
  pop-Served id s l h =
      let (first, best) = head_least R.tasks (q.ready t) id s l h in
      let room = R.tasks.zrem id (q.ready t) in
      let self = eq_refl t in
      record {
        at = v;
        score = s;
        chosen = chosen;
        first = first;
        best = best;
        taken = rw self (R.tasks.zscore_zrem_self id (q.ready t));
        kept = λ j n. rw self (R.tasks.zscore_zrem_ne id j (q.ready t) n);
        charged = elim (counted R.tasks room (R.tasks.zrange room) refl) [
          | inl (e, none_left) ↦
              inl (rw self none_left, rw e (R.tenants.zscore_zrem_self t q.vtime))
          | inr (e, entry) ↦ inr (rw self entry, rw e (R.tenants.zscore_zadd_self t _ q.vtime))
        ];
        counted = rw self refl;
        sent = refl;
        apart = record {
          waiting = λ m n j. rw (other m t n) refl;
          clock = λ m n.
              if-cases (λ (z : R.tenants.Z). R.tenants.zscore m z ≡ R.tenants.zscore m q.vtime)
                (R.tasks.zcard room == 0) _ _
                (λ e. R.tenants.zscore_zrem_ne t m q.vtime (λ p. n (sym p)))
                (λ e. R.tenants.zscore_zadd_ne t m _ q.vtime (λ p. n (sym p)));
          instream = λ m n. rw (other m t n) refl;
          weight = refl;
        };
      }

unblocked :
    (instream : String → ℤ) (cap : ℕ) (l : List (String × ℕ))
    → first_with_room instream cap l ≡ none
    → (m : String) (s : ℕ) → In (m, s) l
    → below (instream m) cap ≡ false
unfolding first_with_room
unblocked instream cap [] h m s i = absurd i
unblocked instream cap ((n, r) ∷ l) h m s i = elim (Bool-cases (below (instream n) cap)) [
  | inl e ↦ let p : ◌≡◌ {A = Option (String × ℕ)} (some (n, r)) none = rw e at h in absurd (cc)
  | inr e ↦ elim i [
    | inl p ↦ ap (λ (x : String × ℕ). below (instream x.0) cap) p ∙ e
    | inr k ↦ unblocked instream cap l (rw e at h) m s k
  ]
]

module _ {R : Rooms} (unit cap : ℕ) where
  -- One more round, on what the chosen tenant's room lists.
  round :
      (n : ℕ) (q : Queue R) (t : String) (v : ℕ)
      → first_with_room q.instream cap (R.tenants.zrange q.vtime) ≡ some (t, v)
      → (l : List (ℕ × ℕ)) → R.tasks.zrange (q.ready t) ≡ l
      → (ids : List ℕ) (after : View)
      → Dispatched unit cap n (view (pop unit t v q (first_task l)).0) ids after
      → Dispatched unit cap (suc n) (view q) (collect (pop unit t v q (first_task l)).1 ids) after
  unfolding pop
  round n q t v c [] h ids after d = Dispatched.retired t (pop-Retired unit cap q t v c h) d
  round n q t v c ((id, s) ∷ l) h ids after d =
      Dispatched.served t id (pop-Served unit cap q t v c id s l h) d

  -- The script implements weighted fair queuing: on the view of the waiting rooms, each of its
  -- rounds serves, among the tenants that wait and have room in the stream, one with the least
  -- virtual time, sends that tenant's task with the least score and charges the tenant the inverse
  -- of its weight, or drops a tenant whose room is empty; what it returns are the tasks it sent, in
  -- order; and it stops before its last round only if no tenant that waits has room.
  pub dispatch-Dispatched :
      (rounds : ℕ) (q : Queue R)
      → (let (after, ids) = dispatch unit cap rounds q in
          Dispatched unit cap rounds (view q) ids (view after))
  unfolding dispatch pop_from
  dispatch-Dispatched zero q = Dispatched.spent
  dispatch-Dispatched (suc rounds) q =
      elim (Option-cases (first_with_room q.instream cap (R.tenants.zrange q.vtime))) [
        | inl h ↦
            rw (h, dispatch)
              (Dispatched.blocked (λ m s e.
                unblocked q.instream cap _ h m s (R.tenants.zrange_complete m s q.vtime e)))
        | inr ((t, v), h) ↦
            let q' = (pop_from unit q (t, v)).0 in
            rw (h, dispatch)
              (round rounds q t v h (R.tasks.zrange (q.ready t)) refl
                (dispatch unit cap rounds q').1 (view (dispatch unit cap rounds q').0)
                (dispatch-Dispatched rounds q'))
      ]
