-- ===== src/System/Rowwise/Keeps.antt =====
-- Keys that an insert or an update of a table keeps, and what a session of src/fairlane adds.
use mathlib.Core.Path.{subst}
use mathlib.Core.List.{append_assoc, append-nil}
use fairlane.Prelude.{
  In, ℕ, ◌+◌, ◌≡◌, ◌≢◌, refl, sym, ap, ◌∙◌, true, none, some, List, [], ◌∷◌, ◌++◌, is_some,
  Option-cases, Bool-cases, inl, inr, ◌==◌, arith,
}
use fairlane.Models.{Task, TaskEvent, DeadLetter, SideEffect}
use fairlane.Database.{Table, Schema}
use fairlane.Scheduler.Queue.{Rooms}
use fairlane.Scheduler.Poll.{Polling, requeue, requeue_all}
use fairlane.Worker.Process.{upserted}
use fairlane.Reaper.Reclaim.{insert_all}

module _ {V : Type 0} (key : V → ℕ) (T : Table key) where
  abbrev pub Has : T.Rows → ℕ → Type 0
  Has rows id = is_some (T.find id rows) ≡ true

  -- No key is lost.
  abbrev pub Keeps : T.Rows → T.Rows → Type 0
  Keeps rows after = (id : ℕ) → Has rows id → Has after id

  there : (v : V) (rows : T.Rows) → T.find (key v) rows ≡ some v → Has rows (key v)
  there v rows f = ap is_some f

  -- The key of `v` is in, and the others are as they were.
  Keeps-at :
      (v : V) (rows after : T.Rows)
      → T.find (key v) after ≡ some v
      → ((id : ℕ) → key v ≢ id → T.find id after ≡ T.find id rows)
      → Keeps rows after
  Keeps-at v rows after self ne id h = elim (Bool-cases (key v == id)) [
    | inl e ↦ let q : key v ≡ id = ground arith in subst (Has after) q (there v after self)
    | inr e ↦ let n : key v ≢ id = λ q. ground arith in ap is_some (ne id n) ∙ h
  ]

  pub Keeps-insert : (v : V) (rows after : T.Rows) → T.insert v rows ≡ some after → Keeps rows after
  Keeps-insert v rows after i =
      Keeps-at v rows after (T.find_insert_self v rows after i)
        (λ id n. T.find_insert_ne id v rows after i n)

  pub Keeps-update : (v : V) (rows : T.Rows) → Keeps rows (T.update v rows)
  Keeps-update v rows = elim (Option-cases (T.find (key v) rows)) [
    | inl e ↦ subst (Keeps rows) (sym (T.update_missing v rows e)) (λ id h. h)
    | inr (u, e) ↦
        Keeps-at v rows _ (T.find_update_self v u rows e) (λ id n. T.find_update_ne id v rows n)
  ]

  pub Has-insert :
      (v : V) (id : ℕ) (rows after : T.Rows)
      → key v ≡ id
      → T.insert v rows ≡ some after
      → Has after id
  Has-insert v id rows after q i =
      subst (Has after) q (there v after (T.find_insert_self v rows after i))

  pub Has-update :
      (v u : V) (rows : T.Rows) → T.find (key v) rows ≡ some u → Has (T.update v rows) (key v)
  Has-update v u rows f = there v _ (T.find_update_self v u rows f)

insert_all-fails :
    (S : Schema) (v : DeadLetter) (ds : List DeadLetter) (l : S.dead_letters.Rows)
    → S.dead_letters.insert v l ≡ none
    → insert_all S (v ∷ ds) l ≡ none
unfolding insert_all
insert_all-fails S v ds l h = rw (h, insert_all) refl

insert_all-step :
    (S : Schema) (v : DeadLetter) (ds : List DeadLetter) (l next : S.dead_letters.Rows)
    → S.dead_letters.insert v l ≡ some next
    → insert_all S (v ∷ ds) l ≡ insert_all S ds next
unfolding insert_all
insert_all-step S v ds l next h = rw (h, insert_all) refl

-- The dead letters of a session stand in the table after it, and no other is lost.
pub insert_all-Keeps :
    (S : Schema) (ds : List DeadLetter) (l after : S.dead_letters.Rows)
    → insert_all S ds l ≡ some after
    → Keeps _ S.dead_letters l after
      × ((d : DeadLetter) → In d ds → Has _ S.dead_letters after d.task_id)
unfolding insert_all
insert_all-Keeps S [] l after i =
    let q : l ≡ after = cc in (subst (Keeps _ S.dead_letters l) q (λ id h. h), λ d k. absurd k)
insert_all-Keeps S (v ∷ ds) l after i = elim (Option-cases (S.dead_letters.insert v l)) [
  | inl h ↦ absurd (cc (insert_all-fails S v ds l h, i))
  | inr (next, h) ↦
      let r = insert_all-Keeps S ds next after (sym (insert_all-step S v ds l next h) ∙ i) in
      (
        λ id q. r.0 id (Keeps-insert _ S.dead_letters v l next h id q),
        λ d k. elim k [
          | inl e ↦ r.0 d.task_id (
              Has-insert _ S.dead_letters v d.task_id l next
                (ap (λ (y : DeadLetter). y.task_id) (sym e)) h)
          | inr n ↦ r.1 d n
        ],
      )
]

-- The upsert keeps the keys that are there, and puts in the task's.
pub upserted-Keeps :
    (S : Schema) (id : ℕ) (rows : S.side_effects.Rows)
    → Keeps _ S.side_effects rows (upserted S id rows (S.side_effects.find id rows))
      × Has _ S.side_effects (upserted S id rows (S.side_effects.find id rows)) id
unfolding upserted
upserted-Keeps S id rows = elim (Option-cases (S.side_effects.find id rows)) [
  | inl n ↦
      let v : SideEffect = record { task_id = id; count = 1 } in
      let (after, i) = S.side_effects.insert_free v rows n in
      rw (n, upserted, i)
        (
          Keeps-insert _ S.side_effects v rows after i,
          Has-insert _ S.side_effects v id rows after refl i,
        )
  | inr (u, f) ↦
      let k : u.task_id ≡ id = S.side_effects.find_key id rows u f in
      rw (f, upserted)
        (
          Keeps-update _ S.side_effects (record u { count = u.count + 1 }) rows,
          subst
              (Has _ S.side_effects (S.side_effects.update (record u { count = u.count + 1 }) rows))
              k
              (Has-update _ S.side_effects (record u { count = u.count + 1 }) u rows
                (ap (λ j. S.side_effects.find j rows) k ∙ f)),
        )
]

-- A poll only adds events.
pub requeue_all-events :
    {S : Schema} {R : Rooms} (now : ℕ) (ts : List Task) (p : Polling S R)
    → (vs : List TaskEvent) × ((requeue_all now ts p).events ≡ p.events ++ vs)
unfolding requeue_all requeue
requeue_all-events now [] p = ([], sym (append-nil p.events))
requeue_all-events now (t ∷ ts) p =
    let r = requeue_all-events now ts (requeue now t p) in
    (_ ∷ r.0, r.1 ∙ append_assoc p.events (_ ∷ []) r.0)
