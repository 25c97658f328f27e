-- ===== src/Tests/Zset.antt =====
-- A sorted set as a list without a member twice, its scores ascending.
use mathlib.Core.Logic.{◌↔◌}
use mathlib.Core.Path.{subst}
use fairlane.Prelude.{
  In, ℕ, suc, ◌≤◌, ◌<◌, ◌≡◌, ◌≢◌, refl, sym, ap, ◌∙◌, Bool, true, false, Option, none, some, List,
  [], ◌∷◌, All, Bool-cases, inl, inr, if◌then◌else◌, length, leb, arith,
}
use fairlane.Redis.{Ascending, SortedSet}

module _ {M : Type 0} (eqb : M → M → Bool) (eqb_iff : (a b : M) → (eqb a b ≡ true) ↔ (a ≡ b)) where
  abbrev Entries : Type 0
  Entries = List (M × ℕ)

  abbrev lookup : M → Entries → Option ℕ
  lookup k [] = none
  lookup k ((m, s) ∷ l) = if eqb m k then some s else lookup k l

  abbrev remove : M → Entries → Entries
  remove k [] = []
  remove k ((m, s) ∷ l) = if eqb m k then l else (m, s) ∷ remove k l

  abbrev place : M → ℕ → Entries → Entries
  place k r [] = (k, r) ∷ []
  place k r ((m, s) ∷ l) = if leb r s then (k, r) ∷ (m, s) ∷ l else (m, s) ∷ place k r l

  abbrev index : M → Entries → Option ℕ
  index k [] = none
  index k ((m, s) ∷ l) =
      if eqb m k then some 0 else elim (index k l) [ none ↦ none | some i ↦ some (suc i) ]

  abbrev Distinct : Entries → Type 0
  Distinct [] = Unit
  Distinct ((m, s) ∷ l) = (lookup m l ≡ none) × Distinct l

  abbrev Good : Entries → Type 0
  Good l = Ascending l × Distinct l

  eqb_self : (k : M) → eqb k k ≡ true
  eqb_self k = (eqb_iff k k).1 refl

  eqb_ne : (a b : M) → a ≢ b → eqb a b ≡ false
  eqb_ne a b n = elim (Bool-cases (eqb a b)) [ inl e ↦ absurd (n ((eqb_iff a b).0 e)) | inr e ↦ e ]

  pub lookup-remove_self : (k : M) (l : Entries) → Distinct l → lookup k (remove k l) ≡ none
  lookup-remove_self k [] d = refl
  lookup-remove_self k ((m, s) ∷ l) d = elim (Bool-cases (eqb m k)) [
    | inl e ↦ rw e (subst (λ x. lookup x l ≡ none) ((eqb_iff m k).0 e) d.0)
    | inr e ↦ rw e (rw e (lookup-remove_self k l d.1))
  ]

  pub lookup-remove_ne : (k j : M) (l : Entries) → k ≢ j → lookup j (remove k l) ≡ lookup j l
  lookup-remove_ne k j [] n = refl
  lookup-remove_ne k j ((m, s) ∷ l) n = elim (Bool-cases (eqb m k)) [
    | inl e ↦ rw e (rw (eqb_ne m j (λ q. n (sym ((eqb_iff m k).0 e) ∙ q))) refl)
    | inr e ↦ rw e (elim (Bool-cases (eqb m j)) [
      | inl f ↦ rw f refl
      | inr f ↦ rw f (lookup-remove_ne k j l n)
    ])
  ]

  lookup-place_ne : (k j : M) (r : ℕ) (l : Entries) → k ≢ j → lookup j (place k r l) ≡ lookup j l
  lookup-place_ne k j r [] n = rw (eqb_ne k j n) refl
  lookup-place_ne k j r ((m, s) ∷ l) n = elim (Bool-cases (leb r s)) [
    | inl e ↦ rw e (rw (eqb_ne k j n) refl)
    | inr e ↦ rw e (elim (Bool-cases (eqb m j)) [
      | inl f ↦ rw f refl
      | inr f ↦ rw f (lookup-place_ne k j r l n)
    ])
  ]

  lookup-place_self :
      (k : M) (r : ℕ) (l : Entries) → lookup k l ≡ none → lookup k (place k r l) ≡ some r
  lookup-place_self k r [] h = rw (eqb_self k) refl
  lookup-place_self k r ((m, s) ∷ l) h = elim (Bool-cases (leb r s)) [
    | inl e ↦ rw e (rw (eqb_self k) refl)
    | inr e ↦ rw e (elim (Bool-cases (eqb m k)) [
      | inl f ↦ let p : ◌≡◌ {A = Option ℕ} (some s) none = rw f at h in absurd (cc)
      | inr f ↦ rw f (lookup-place_self k r l (rw f at h))
    ])
  ]

  length-place : (k : M) (r : ℕ) (l : Entries) → length (place k r l) ≡ suc (length l)
  length-place k r [] = refl
  length-place k r ((m, s) ∷ l) = elim (Bool-cases (leb r s)) [
    | inl e ↦ rw e refl
    | inr e ↦ rw e (ap suc (length-place k r l))
  ]

  pub length-remove :
      (k : M) (s : ℕ) (l : Entries) → lookup k l ≡ some s → suc (length (remove k l)) ≡ length l
  length-remove k s [] h = absurd (cc)
  length-remove k s ((m, r) ∷ l) h = elim (Bool-cases (eqb m k)) [
    | inl e ↦ rw e refl
    | inr e ↦ rw e (ap suc (length-remove k s l (rw e at h)))
  ]

  remove-absent : (k : M) (l : Entries) → lookup k l ≡ none → remove k l ≡ l
  remove-absent k [] h = refl
  remove-absent k ((m, s) ∷ l) h = elim (Bool-cases (eqb m k)) [
    | inl e ↦ let p : ◌≡◌ {A = Option ℕ} (some s) none = rw e at h in absurd (cc)
    | inr e ↦ rw e (ap (λ x. (m, s) ∷ x) (remove-absent k l (rw e at h)))
  ]

  All-remove : (P : M × ℕ → Type 0) (k : M) (l : Entries) → All P l → All P (remove k l)
  All-remove P k [] a = a
  All-remove P k ((m, s) ∷ l) a = elim (Bool-cases (eqb m k)) [
    | inl e ↦ rw e (a.1)
    | inr e ↦ rw e (a.0, All-remove P k l a.1)
  ]

  All-place :
      (P : M × ℕ → Type 0) (k : M) (r : ℕ) (l : Entries) → P (k, r) → All P l → All P (place k r l)
  All-place P k r [] p a = (p, a)
  All-place P k r ((m, s) ∷ l) p a = elim (Bool-cases (leb r s)) [
    | inl e ↦ rw e (p, a)
    | inr e ↦ rw e (a.0, All-place P k r l p a.1)
  ]

  All-rise : (a b : ℕ) (l : Entries) → a ≤ b → All (λ e. b ≤ e.1) l → All (λ e. a ≤ e.1) l
  All-rise a b [] h x = x
  All-rise a b ((m, s) ∷ l) h x = (omega (arith, h, x.0), All-rise a b l h x.1)

  pub remove-Good : (k : M) (l : Entries) → Good l → Good (remove k l)
  remove-Good k [] g = g
  remove-Good k ((m, s) ∷ l) g = elim (Bool-cases (eqb m k)) [
    | inl e ↦ rw e (g.0.1, g.1.1)
    | inr e ↦
        let r = remove-Good k l (g.0.1, g.1.1) in
        let n = λ (q : k ≡ m). absurd (cc ((eqb_iff m k).1 (sym q), e)) in
        rw e ((All-remove (λ x. s ≤ x.1) k l g.0.0, r.0), (lookup-remove_ne k m l n ∙ g.1.0, r.1))
  ]

  pub place-Good : (k : M) (r : ℕ) (l : Entries) → lookup k l ≡ none → Good l → Good (place k r l)
  place-Good k r [] h g = ((tt, tt), (refl, tt))
  place-Good k r ((m, s) ∷ l) h g = elim (Bool-cases (leb r s)) [
    | inl e ↦
        let le : r ≤ s = ground (arith, e) in rw e (((le, All-rise r s l le g.0.0), g.0), (h, g.1))
    | inr e ↦
        let le : s ≤ r = ground (arith, e) in
        rw e (elim (Bool-cases (eqb m k)) [
          | inl f ↦ let p : ◌≡◌ {A = Option ℕ} (some s) none = rw f at h in absurd (cc)
          | inr f ↦
              let i = place-Good k r l (rw f at h) (g.0.1, g.1.1) in
              let n = λ (q : k ≡ m). absurd (cc ((eqb_iff m k).1 (sym q), f)) in
              (
                (All-place (λ x. s ≤ x.1) k r l le g.0.0, i.0),
                (lookup-place_ne k m r l n ∙ g.1.0, i.1),
              )
        ])
  ]

  abbrev pub zadd : M → ℕ → (l : Entries) × Good l → (l : Entries) × Good l
  zadd k r (l, g) = (
    place k r (remove k l),
    place-Good k r (remove k l) (lookup-remove_self k l g.1) (remove-Good k l g),
  )

  abbrev pub expire : ℕ → (l : Entries) → Good l → (l : Entries) × Good l
  expire top [] g = ([], g)
  expire top ((m, s) ∷ l) g = if leb s top then expire top l (g.0.1, g.1.1) else ((m, s) ∷ l, g)

  pub index-lt : (k : M) (i : ℕ) (l : Entries) → index k l ≡ some i → i < length l
  index-lt k i [] h = absurd (cc)
  index-lt k i ((m, s) ∷ l) h = elim (Bool-cases (eqb m k)) [
    | inl e ↦
        let p : ◌≡◌ {A = Option ℕ} (some 0) (some i) = rw e at h in
        let q : 0 ≡ i = cc in omega (arith, q)
    | inr e ↦ next k l (index k l) (λ j p. index-lt k j l p) refl (rw e at h)
  ]
    where
      next :
          (k : M) (l : Entries) (o : Option ℕ)
          → ((j : ℕ) → index k l ≡ some j → j < length l)
          → index k l ≡ o
          → ◌≡◌ {A = Option ℕ} (elim o [ none ↦ none | some j ↦ some (suc j) ]) (some i)
          → i < suc (length l)
      next k l none f p q = absurd (cc)
      next k l (some j) f p q = let r : suc j ≡ i = cc in omega (arith, r, f j p)

  pub lookup-In : (k : M) (s : ℕ) (l : Entries) → lookup k l ≡ some s → In (k, s) l
  lookup-In k s [] h = absurd (cc)
  lookup-In k s ((m, r) ∷ l) h = elim (Bool-cases (eqb m k)) [
    | inl e ↦
        let p : ◌≡◌ {A = Option ℕ} (some r) (some s) = rw e at h in
        let q : m ≡ k = (eqb_iff m k).0 e in inl (cc)
    | inr e ↦ inr (lookup-In k s l (rw e at h))
  ]

  keep_found :
      (m : M) (r : ℕ) (l : Entries) (k : M) (s : ℕ)
      → lookup m l ≡ none
      → lookup k l ≡ some s
      → lookup k ((m, r) ∷ l) ≡ some s
  keep_found m r l k s n h = elim (Bool-cases (eqb m k)) [
    | inl e ↦
        let q : lookup k l ≡ none = subst (λ x. lookup x l ≡ none) ((eqb_iff m k).0 e) n in
        absurd (cc)
    | inr e ↦ rw e h
  ]

  -- What a shorter list finds, a longer one finds too.
  All-found :
      (m : M) (r : ℕ) (l j : Entries)
      → lookup m l ≡ none
      → All (λ e. lookup e.0 l ≡ some e.1) j
      → All (λ e. lookup e.0 ((m, r) ∷ l) ≡ some e.1) j
  All-found m r l [] n a = tt
  All-found m r l ((k, s) ∷ j) n a = (keep_found m r l k s n a.0, All-found m r l j n a.1)

  pub lookup-All : (l : Entries) → Distinct l → All (λ e. lookup e.0 l ≡ some e.1) l
  lookup-All [] d = tt
  lookup-All ((m, s) ∷ l) d = (rw (eqb_self m) refl, All-found m s l l d.0 (lookup-All l d.1))

  pub lookup-zadd_self :
      (m : M) (s : ℕ) (z : (l : Entries) × Good l) → lookup m (zadd m s z).0 ≡ some s
  lookup-zadd_self m s (l, g) = lookup-place_self m s (remove m l) (lookup-remove_self m l g.1)

  pub lookup-zadd_ne :
      (m k : M) (s : ℕ) (z : (l : Entries) × Good l)
      → m ≢ k
      → lookup k (zadd m s z).0 ≡ lookup k z.0
  lookup-zadd_ne m k s (l, g) n = lookup-place_ne m k s (remove m l) n ∙ lookup-remove_ne m k l n

  pub length-zadd_new :
      (m : M) (s : ℕ) (z : (l : Entries) × Good l)
      → lookup m z.0 ≡ none
      → length (zadd m s z).0 ≡ suc (length z.0)
  length-zadd_new m s (l, g) h =
      length-place m s (remove m l) ∙ ap (λ x. suc (length x)) (remove-absent m l h)

  pub length-zadd_old :
      (m : M) (s r : ℕ) (z : (l : Entries) × Good l)
      → lookup m z.0 ≡ some r
      → length (zadd m s z).0 ≡ length z.0
  length-zadd_old m s r (l, g) h = length-place m s (remove m l) ∙ length-remove m r l h

  abbrev pub zset : SortedSet M
  zset = record {
    Z = (l : Entries) × Good l;
    zscore = λ m z. lookup m z.0;
    zadd = zadd;
    zrem = λ m z. (remove m z.0, remove-Good m z.0 z.1);
    zremrangebyscore = λ top z. expire top z.0 z.1;
    zcard = λ z. length z.0;
    zrank = λ m z. index m z.0;
    zrange = λ z. z.0;
    zcard_zrange = λ z. refl;
    zscore_zadd_self = lookup-zadd_self;
    zscore_zadd_ne = lookup-zadd_ne;
    zscore_zrem_self = λ m z. lookup-remove_self m z.0 z.1.1;
    zscore_zrem_ne = λ m k z n. lookup-remove_ne m k z.0 n;
    zcard_zadd_new = length-zadd_new;
    zcard_zadd_old = length-zadd_old;
    zcard_zrem = λ m s z h. length-remove m s z.0 h;
    zrank_lt = λ m r z h. index-lt m r z.0 h;
    zrange_ascending = λ z. z.1.0;
    zrange_complete = λ m s z h. lookup-In m s z.0 h;
    zrange_sound = λ z. lookup-All z.0 z.1.1;
  }
