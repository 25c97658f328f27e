-- ===== src/Collector/Tallies.antt =====
-- The counts by tenant and status that src/fairlane/metrics_collector.py puts into gauges.
use mathlib.Core.Logic.{◌↔◌}
use mathlib.Core.Path.{subst}
use text.Mathlib.TextPositions.{eq_refl}
use fairlane.Prelude.{
  ℕ, String, ◌≡◌, refl, sym, ap, ◌∙◌, Bool, true, ◌&&◌, ◌||◌, Option, none, some, List, [], ◌∷◌,
  ◌++◌, is_some, str_eq, eq_iff, if◌then◌else◌, if-cases, Bool-cases, inl, inr, arith,
}
use fairlane.Models.{TaskStatus}
use fairlane.Database.Group.Lookup.{assoc, Distinct}
use fairlane.Scheduler.Queue.{update}
use fairlane.Collector.{
  CountsByTenant, put, same_status, same_group, Tenants, place, place_all, set_at, set_all,
  contains,
}

same_status-eq : (a b : TaskStatus) → same_status a b ≡ true → a ≡ b
same_status-eq TaskStatus.pending b h = ground arith
same_status-eq TaskStatus.running b h = ground arith
same_status-eq TaskStatus.succeeded b h = ground arith
same_status-eq TaskStatus.failed b h = ground arith
same_status-eq TaskStatus.dead b h = ground arith

same_status_self : (a : TaskStatus) → same_status a a ≡ true
same_status_self TaskStatus.pending = refl
same_status_self TaskStatus.running = refl
same_status_self TaskStatus.succeeded = refl
same_status_self TaskStatus.failed = refl
same_status_self TaskStatus.dead = refl

and_true : (a b : Bool) → (a && b) ≡ true → (a ≡ true) × (b ≡ true)
and_true a b h = ground arith

pub same_group_iff : (j k : String × TaskStatus) → (same_group j k ≡ true) ↔ (j ≡ k)
same_group_iff (t, s) (u, r) = (
  λ h.
      let (p, q) = and_true (str_eq t u) (same_status s r) h in
      let e : t ≡ u = (eq_iff t u).0 p in let f : s ≡ r = same_status-eq s r q in cc,
  λ e.
      subst (λ (x : String × TaskStatus). same_group (t, s) x ≡ true) e
        (rw (eq_refl t) (same_status_self s)),
)

-- The first value that is there.
abbrev pub over : Option ℕ → Option ℕ → Option ℕ
over (some n) x = some n
over none x = x

twice : (o x : Option ℕ) → over o (over o x) ≡ over o x
twice none x = refl
twice (some n) x = refl

-- The keys are those with a value.
abbrev pub Keyed : CountsByTenant → Type 0
Keyed d = (t : String) → contains t d.keys ≡ is_some (d.at t)

contains-append :
    (t u : String) (l : List String) → contains t (l ++ u ∷ []) ≡ (contains t l || str_eq t u)
contains-append t u [] = ground arith
contains-append t u (x ∷ l) = let h = contains-append t u l in ground (arith, h)

put-Keyed : (u : String) (n : ℕ) (d : CountsByTenant) → Keyed d → Keyed (put u n d)
unfolding put
put-Keyed u n d h t = elim (Bool-cases (str_eq t u)) [
  | inl e ↦
      let p : is_some (d.at t) ≡ is_some (d.at u) = ap (λ x. is_some (d.at x)) ((eq_iff t u).0 e) in
      let k = h t in
      let a = contains-append t u d.keys in
      if-cases (λ (ks : List String). contains t ks ≡ is_some (update d.at u (some n) t))
        (is_some (d.at u)) d.keys (d.keys ++ u ∷ []) (λ i. rw e (k ∙ p ∙ i))
        (λ i. rw e (ground (arith, a)))
  | inr e ↦
      let k = h t in
      let a = contains-append t u d.keys in
      if-cases (λ (ks : List String). contains t ks ≡ is_some (update d.at u (some n) t))
        (is_some (d.at u)) d.keys (d.keys ++ u ∷ []) (λ i. rw e k)
        (λ i. rw e (ground (arith, a, k)))
]

set_at-at :
    (u : String) (o : Option ℕ) (g : String → Option ℕ) (t : String)
    → set_at u o g t ≡ (if str_eq t u then over o (g t) else g t)
set_at-at u none g t = ground arith
set_at-at u (some n) g t = refl

set_all-at :
    (ts : List String) (d : CountsByTenant) (g : String → Option ℕ) (t : String)
    → set_all ts d g t ≡ (if contains t ts then over (d.at t) (g t) else g t)
unfolding set_all
set_all-at [] d g t = refl
set_all-at (u ∷ ts) d g t =
    set_all-at ts d (set_at u (d.at u) g) t ∙ elim (Bool-cases (str_eq t u)) [
      | inl e ↦
          let p : d.at u ≡ d.at t = ap d.at (sym ((eq_iff t u).0 e)) in
          let a : set_at u (d.at u) g t ≡ over (d.at t) (g t) =
            set_at-at u (d.at u) g t ∙ rw e (ap (λ o. over o (g t)) p) in
          rw e (
            rw a (
              if-cases (λ x. x ≡ over (d.at t) (g t)) (contains t ts) _ _
                (λ i. twice (d.at t) (g t)) (λ i. refl)))
      | inr e ↦
          let a : set_at u (d.at u) g t ≡ g t = set_at-at u (d.at u) g t ∙ rw e refl in
          rw e (rw a refl)
    ]

pub set_all-Keyed :
    (d : CountsByTenant) (g : String → Option ℕ) (t : String)
    → Keyed d
    → set_all d.keys d g t ≡ over (d.at t) (g t)
set_all-Keyed d g t k = set_all-at d.keys d g t ∙ known (d.at t) (contains t d.keys) (k t)
  where
    known :
        (o : Option ℕ) (b : Bool) → b ≡ is_some o → (if b then over o (g t) else g t) ≡ over o (g t)
    known none b e = ground arith
    known (some n) b e = ground arith

-- The three groups of statuses that the collector counts.
pub data Shown : Type 0 where
  running dlq waiting : Shown

abbrev pub shown_status : Shown → TaskStatus
shown_status Shown.running = TaskStatus.running
shown_status Shown.dlq = TaskStatus.dead
shown_status Shown.waiting = TaskStatus.pending

abbrev pub part : Shown → Tenants → CountsByTenant
part Shown.running c = c.running
part Shown.dlq c = c.dlq
part Shown.waiting c = c.waiting

place-part :
    (k : Shown) (u : String) (s : TaskStatus) (n : ℕ) (c : Tenants)
    → part k (place u s n c)
      ≡ (if same_status s (shown_status k) then put u n (part k c) else part k c)
unfolding place
place-part Shown.running u s n c = ground arith
place-part Shown.dlq u s n c = ground arith
place-part Shown.waiting u s n c = ground arith

str_eq_comm : (t u : String) → str_eq t u ≡ str_eq u t
str_eq_comm t u = elim (Bool-cases (str_eq t u)) [
  | inl e ↦ let p = sym ((eq_iff t u).0 e) in e ∙ sym ((eq_iff u t).1 p)
  | inr e ↦ elim (Bool-cases (str_eq u t)) [
    | inl f ↦ let p = sym ((eq_iff u t).0 f) in absurd (cc (e, (eq_iff t u).1 p))
    | inr f ↦ e ∙ sym f
  ]
]

place-at :
    (k : Shown) (u t : String) (s : TaskStatus) (n : ℕ) (c : Tenants)
    → (part k (place u s n c)).at t
      ≡ (if same_group (u, s) (t, shown_status k) then some n else (part k c).at t)
place-at k u t s n c =
    ap (λ (d : CountsByTenant). d.at t) (place-part k u s n c)
    ∙ elim (Bool-cases (same_status s (shown_status k))) [
      | inl e ↦ rw e (unfold put in let q = str_eq_comm t u in ground (arith, q))
      | inr e ↦ rw e (ground arith)
    ]

place-Keyed :
    (k : Shown) (u : String) (s : TaskStatus) (n : ℕ) (c : Tenants)
    → Keyed (part k c)
    → Keyed (part k (place u s n c))
place-Keyed k u s n c h =
    subst Keyed (sym (place-part k u s n c)) (
      if-cases Keyed (same_status s (shown_status k)) _ _ (λ e. put-Keyed u n (part k c) h)
        (λ e. h))

module _ (k : Shown) where
  pub place_all-Keyed :
      (rows : List ((String × TaskStatus) × ℕ)) (c : Tenants)
      → Keyed (part k c)
      → Keyed (part k (place_all rows c))
  unfolding place_all
  place_all-Keyed [] c h = h
  place_all-Keyed (((u, s), n) ∷ rows) c h =
      place_all-Keyed rows (place u s n c) (place-Keyed k u s n c h)

  pub place_all-at :
      (rows : List ((String × TaskStatus) × ℕ)) (c : Tenants) (t : String)
      → Distinct same_group rows
      → (part k (place_all rows c)).at t
        ≡ over (assoc same_group (t, shown_status k) rows) ((part k c).at t)
  unfolding place_all
  place_all-at [] c t d = refl
  place_all-at (((u, s), n) ∷ rows) c t d =
      place_all-at rows (place u s n c) t d.1
      ∙ ap (over (assoc same_group (t, shown_status k) rows)) (place-at k u t s n c)
      ∙ elim (Bool-cases (same_group (u, s) (t, shown_status k))) [
        | inl e ↦
            let p = (same_group_iff (u, s) (t, shown_status k)).0 e in
            let q : assoc same_group (t, shown_status k) rows ≡ none =
              ap (λ x. assoc same_group x rows) (sym p) ∙ d.0 in
            rw q (rw e refl)
        | inr e ↦ rw e refl
      ]
