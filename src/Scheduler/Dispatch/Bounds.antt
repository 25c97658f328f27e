-- ===== src/Scheduler/Dispatch/Bounds.antt =====
-- How much the dispatcher (src/fairlane/scheduler/dispatch.lua, dispatcher.py) puts into the stream.
use fairlane.Prelude.{
  ℕ, zero, suc, ◌≤◌, max, String, ◌≡◌, refl, sym, ap, ◌∙◌, true, Option, none, some, List, [], ◌∷◌,
  ◌++◌, arith, ℤ, pos, negsuc, incr, below, pos_part, inl, inr, Bool-cases, Option-cases, str_eq,
  length, length-append, if-cases,
}
use mathlib.Core.List.{append-nil, append_assoc}
use fairlane.Config.{dispatch_batch_size, max_in_stream_per_tenant}
use fairlane.Scheduler.Queue.{Rooms, Queue}
use fairlane.Scheduler.Dispatch.{
  first_with_room, pop, pop_from, collect, dispatch, target_depth, batch_size, dispatch_cycle,
}

collect-append : (id : Option ℕ) (ids : List ℕ) → collect id ids ≡ collect id [] ++ ids
collect-append none ids = refl
collect-append (some id) ids = refl

length-collect : (id : Option ℕ) (ids : List ℕ) → length (collect id ids) ≤ suc (length ids)
length-collect none ids = omega arith
length-collect (some id) ids = omega arith

incr-within : (i : ℤ) (room : ℕ) → below i room ≡ true → pos_part (incr i) ≤ room
incr-within (pos n) room b = ground arith
incr-within (negsuc zero) room b = omega arith
incr-within (negsuc (suc n)) room b = omega arith

first_with_room-below :
    (instream : String → ℤ) (room : ℕ) (l : List (String × ℕ)) (best : String × ℕ)
    → first_with_room instream room l ≡ some best
    → below (instream best.0) room ≡ true
unfolding first_with_room
first_with_room-below instream room [] best h = absurd (cc)
first_with_room-below instream room ((n, r) ∷ l) best h =
    elim (Bool-cases (below (instream n) room)) [
      | inl e ↦ let p : ◌≡◌ {A = Option (String × ℕ)} (some (n, r)) (some best) = rw e at h in cc
      | inr e ↦ first_with_room-below instream room l best (rw e at h)
    ]

-- No tenant has more tasks in the stream than the cap.
abbrev pub WithinCap : {R : Rooms} → ℕ → Queue R → Type 0
WithinCap room q = (m : String) → pos_part (q.instream m) ≤ room

module _ {R : Rooms} (unit : ℕ) where
  pop-stream :
      (tenant : String) (v : ℕ) (q : Queue R) (id : Option ℕ)
      → (pop unit tenant v q id).0.stream ≡ q.stream ++ collect (pop unit tenant v q id).1 []
  unfolding pop
  pop-stream tenant v q none = sym (append-nil q.stream)
  pop-stream tenant v q (some id) = refl

  pop_from-stream :
      (q : Queue R) (best : String × ℕ)
      → (pop_from unit q best).0.stream ≡ q.stream ++ collect (pop_from unit q best).1 []
  unfolding pop_from
  pop_from-stream q (tenant, v) = pop-stream tenant v q _

  -- The tasks that the script returns are those that it has put at the end of the stream, in that
  -- order, and there are at most as many as its rounds.
  pub dispatch-stream :
      (room rounds : ℕ) (q : Queue R)
      → ((dispatch unit room rounds q).0.stream ≡ q.stream ++ (dispatch unit room rounds q).1)
        × (length (dispatch unit room rounds q).1 ≤ rounds)
  unfolding dispatch
  dispatch-stream room zero q = (sym (append-nil q.stream), omega arith)
  dispatch-stream room (suc rounds) q =
      elim (Option-cases (first_with_room q.instream room (R.tenants.zrange q.vtime))) [
        | inl h ↦ rw (h, dispatch) (sym (append-nil q.stream), omega arith)
        | inr (best, h) ↦
            let (q', id) = pop_from unit q best in
            let (s, n) = dispatch-stream room rounds q' in
            rw (h, dispatch)
              (
                s
                    ∙ ap (λ l. l ++ (dispatch unit room rounds q').1) (pop_from-stream q best)
                    ∙ append_assoc q.stream (collect id []) (dispatch unit room rounds q').1
                    ∙ ap (λ l. q.stream ++ l)
                        (sym (collect-append id (dispatch unit room rounds q').1)),
                omega (arith, n, length-collect id (dispatch unit room rounds q').1),
              )
      ]

  pop-WithinCap :
      (room : ℕ) (tenant : String) (v : ℕ) (q : Queue R) (id : Option ℕ)
      → below (q.instream tenant) room ≡ true
      → WithinCap room q
      → WithinCap room (pop unit tenant v q id).0
  unfolding pop
  pop-WithinCap room tenant v q none b h m = h m
  pop-WithinCap room tenant v q (some id) b h m =
      if-cases (λ z. pos_part z ≤ room) (str_eq m tenant) (incr (q.instream tenant)) (q.instream m)
        (λ _. incr-within (q.instream tenant) room b) (λ _. h m)

  pop_from-WithinCap :
      (room : ℕ) (q : Queue R) (best : String × ℕ)
      → below (q.instream best.0) room ≡ true
      → WithinCap room q
      → WithinCap room (pop_from unit q best).0
  unfolding pop_from
  pop_from-WithinCap room q (tenant, v) b h = pop-WithinCap room tenant v q _ b h

  dispatch-WithinCap :
      (room rounds : ℕ) (q : Queue R)
      → WithinCap room q
      → WithinCap room (dispatch unit room rounds q).0
  unfolding dispatch
  dispatch-WithinCap room zero q w = w
  dispatch-WithinCap room (suc rounds) q w =
      elim (Option-cases (first_with_room q.instream room (R.tenants.zrange q.vtime))) [
        | inl h ↦ rw (h, dispatch) w
        | inr (best, h) ↦
            let b = first_with_room-below q.instream room (R.tenants.zrange q.vtime) best h in
            rw (h, dispatch)
              (dispatch-WithinCap room rounds (pop_from unit q best).0
                (pop_from-WithinCap room q best b w))
      ]

  -- A cycle appends the tasks that it returns to the stream, in their order, and does not fill the
  -- stream beyond the target depth for the workers that are alive, or beyond its length if that is
  -- more. It returns at most a batch. If no tenant has more tasks in the stream than the cap, none
  -- has after the cycle.
  pub dispatch_cycle-bounds :
      (active_workers : ℕ) (q : Queue R)
      → WithinCap max_in_stream_per_tenant q
      → (let (after, ids) = dispatch_cycle unit active_workers q in
          (after.stream ≡ q.stream ++ ids)
          × (length ids ≤ dispatch_batch_size)
          × (length after.stream ≤ max (length q.stream) (target_depth active_workers))
          × WithinCap max_in_stream_per_tenant after)
  unfolding dispatch_cycle batch_size
  dispatch_cycle-bounds active_workers q w =
      let rounds = batch_size (length q.stream) active_workers in
      let (s, n) = dispatch-stream max_in_stream_per_tenant rounds q in
      let l = length-append q.stream (dispatch unit max_in_stream_per_tenant rounds q).1 in
      (
        s,
        ground (arith, n),
        rw s (ground (arith, n, l)),
        dispatch-WithinCap max_in_stream_per_tenant rounds q w,
      )
