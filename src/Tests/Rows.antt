-- ===== src/Tests/Rows.antt =====
-- A table as the keys that were inserted and the row of each.
use mathlib.Core.Logic.{◌↔◌}
use mathlib.Core.Path.{subst}
use fairlane.Prelude.{
  ◌≡◌, ◌≢◌, refl, sym, ap, ◌∙◌, Bool, true, false, Option, none, some, List, [], ◌∷◌, All,
  Bool-cases, inl, inr, if◌then◌else◌, if-cases, ◌||◌, In, arith,
}
use fairlane.Database.{Table}

or_true : (b : Bool) → (b || true) ≡ true
or_true b = ground arith

module _ {K V : Type 0} (key : V → K) (eqb : K → K → Bool)
    (eqb_iff : (a b : K) → (eqb a b ≡ true) ↔ (a ≡ b)) where
  abbrev Data : Type 0
  Data = List K × (K → Option V)

  abbrev checked : K → Option V → Option V
  checked k none = none
  checked k (some v) = if eqb (key v) k then some v else none

  abbrev mem : K → List K → Bool
  mem k [] = false
  mem k (j ∷ ks) = eqb j k || mem k ks

  abbrev find : K → Data → Option V
  find k t = if mem k t.0 then checked k (t.1 k) else none

  abbrev put : V → Data → Data
  put v t = (t.0, λ k. if eqb (key v) k then some v else t.1 k)

  abbrev without : K → List K → List K
  without k [] = []
  without k (j ∷ ks) = if eqb k j then without k ks else j ∷ without k ks

  abbrev insert_at : V → Data → Option V → Option Data
  insert_at v t none = some (key v ∷ without (key v) t.0, (put v t).1)
  insert_at v t (some u) = none

  abbrev keep : (V → Bool) → Option V → List V → List V
  keep p none l = l
  keep p (some v) l = if p v then v ∷ l else l

  abbrev walk : (V → Bool) → List K → (K → Option V) → List V
  walk p [] f = []
  walk p (k ∷ ks) f = keep p (checked k (f k)) (walk p ks f)

  abbrev change_at : V → Data → Option V → Data
  change_at v t none = t
  change_at v t (some u) = put v t

  eqb_self : (k : K) → eqb k k ≡ true
  eqb_self k = (eqb_iff k k).1 refl

  eqb_ne : (a b : K) → a ≢ b → eqb a b ≡ false
  eqb_ne a b n = elim (Bool-cases (eqb a b)) [ inl e ↦ absurd (n ((eqb_iff a b).0 e)) | inr e ↦ e ]

  pub checked-key : (k : K) (o : Option V) (v : V) → checked k o ≡ some v → key v ≡ k
  checked-key k none v h = absurd (cc)
  checked-key k (some u) v h = elim (Bool-cases (eqb (key u) k)) [
    | inl e ↦
        let p : ◌≡◌ {A = Option V} (some u) (some v) = rw e at h in
        let q : u ≡ v = cc in ap key (sym q) ∙ (eqb_iff (key u) k).0 e
    | inr e ↦ let p : ◌≡◌ {A = Option V} none (some v) = rw e at h in absurd (cc)
  ]

  find-mem : (k : K) (t : Data) → mem k t.0 ≡ true → find k t ≡ checked k (t.1 k)
  find-mem k t h = rw h refl

  pub found :
      (k : K) (t : Data) (v : V)
      → find k t ≡ some v
      → (mem k t.0 ≡ true) × (checked k (t.1 k) ≡ some v)
  found k t v h = elim (Bool-cases (mem k t.0)) [
    | inl e ↦ (e, rw e at h)
    | inr e ↦ let p : ◌≡◌ {A = Option V} none (some v) = rw e at h in absurd (cc)
  ]

  mem-without : (k j : K) (ks : List K) → k ≢ j → mem j (without k ks) ≡ mem j ks
  mem-without k j [] n = refl
  mem-without k j (i ∷ ks) n = elim (Bool-cases (eqb k i)) [
    | inl e ↦
        let f = eqb_ne i j (λ p. n ((eqb_iff k i).0 e ∙ p)) in rw e (rw f (mem-without k j ks n))
    | inr e ↦ rw e (ap (λ b. eqb i j || b) (mem-without k j ks n))
  ]

  put-checked : (v : V) (t : Data) → checked (key v) ((put v t).1 (key v)) ≡ some v
  put-checked v t = rw (eqb_self (key v)) (rw (eqb_self (key v)) refl)

  put_self : (v : V) (t : Data) → mem (key v) t.0 ≡ true → find (key v) (put v t) ≡ some v
  put_self v t h = rw h (put-checked v t)

  put-ne : (k : K) (v : V) (t : Data) → key v ≢ k → find k (put v t) ≡ find k t
  put-ne k v t n = rw (eqb_ne (key v) k n) refl

  -- The table after an insert.
  abbrev added : V → Data → Data
  added v t = (key v ∷ without (key v) t.0, (put v t).1)

  pub insert_at-some :
      (v : V) (t t' : Data) (o : Option V) → insert_at v t o ≡ some t' → t' ≡ added v t
  insert_at-some v t t' none h = cc
  insert_at-some v t t' (some u) h = absurd (cc)

  pub added_self : (v : V) (t : Data) → find (key v) (added v t) ≡ some v
  added_self v t = rw (eqb_self (key v)) (rw (eqb_self (key v)) refl)

  pub added-ne : (k : K) (v : V) (t : Data) → key v ≢ k → find k (added v t) ≡ find k t
  added-ne k v t n = rw (eqb_ne (key v) k n) (rw (mem-without (key v) k t.0 n) refl)

  pub change_at_self :
      (v u : V) (t : Data) (o : Option V)
      → find (key v) t ≡ some u
      → o ≡ some u
      → find (key v) (change_at v t o) ≡ some v
  change_at_self v u t none f h = absurd (cc)
  change_at_self v u t (some x) f h = put_self v t (found (key v) t u f).0

  pub change_at-ne :
      (k : K) (v : V) (t : Data) (o : Option V) → key v ≢ k → find k (change_at v t o) ≡ find k t
  change_at-ne k v t none n = refl
  change_at-ne k v t (some x) n = put-ne k v t n

  keep-All :
      (p : V → Bool) (P : V → Type 0) (o : Option V) (l : List V)
      → ((v : V) → o ≡ some v → p v ≡ true → P v)
      → All P l
      → All P (keep p o l)
  keep-All p P none l h a = a
  keep-All p P (some v) l h a = elim (Bool-cases (p v)) [
    | inl e ↦ rw e (h v refl e, a)
    | inr e ↦ rw e a
  ]

  pub walk_sound :
      (p : V → Bool) (t : Data) (ks : List K)
      → ((j : K) → mem j ks ≡ true → mem j t.0 ≡ true)
      → All (λ v. (p v ≡ true) × (find (key v) t ≡ some v)) (walk p ks t.1)
  walk_sound p t [] m = tt
  walk_sound p t (k ∷ ks) m =
      keep-All p _ _ _
        (λ v h e.
          let own = checked-key k (t.1 k) v h in
          (
            e,
            subst (λ j. find j t ≡ some v) (sym own)
                (find-mem k t (m k (rw (eqb_self k) refl)) ∙ h),
          ))
        (walk_sound p t ks (λ j h. m j (rw h (or_true (eqb k j)))))

  keep-In : (p : V → Bool) (v : V) (l : List V) → p v ≡ true → In v (keep p (some v) l)
  keep-In p v l e = rw e (inl refl)

  keep_later : (p : V → Bool) (v : V) (o : Option V) (l : List V) → In v l → In v (keep p o l)
  keep_later p v none l i = i
  keep_later p v (some u) l i =
      if-cases (λ (x : List V). In v x) (p u) (u ∷ l) l (λ e. inr i) (λ e. i)

  pub walk_complete :
      (p : V → Bool) (f : K → Option V) (v : V) (k : K) (ks : List K)
      → mem k ks ≡ true
      → checked k (f k) ≡ some v
      → p v ≡ true
      → In v (walk p ks f)
  walk_complete p f v k [] m h e = absurd (cc)
  walk_complete p f v k (j ∷ ks) m h e = elim (Bool-cases (eqb j k)) [
    | inl same ↦
        let q = (eqb_iff j k).0 same in
        let own : checked j (f j) ≡ some v = subst (λ i. checked i (f i) ≡ some v) (sym q) h in
        subst (λ o. In v (keep p o (walk p ks f))) (sym own) (keep-In p v _ e)
    | inr other ↦ keep_later p v (checked j (f j)) _ (walk_complete p f v k ks (rw other at m) h e)
  ]

  keep-none :
      (p : V → Bool) (o : Option V) (l : List V) → keep p o l ≡ [] → (keep p o [] ≡ []) × (l ≡ [])
  keep-none p none l h = (refl, h)
  keep-none p (some v) l h = elim (Bool-cases (p v)) [
    | inl e ↦ let q : v ∷ l ≡ [] = rw e at h in absurd (cc)
    | inr e ↦ rw e (refl, rw e at h)
  ]

  walk-without :
      (p : V → Bool) (v : V) (ks : List K) (f : K → Option V)
      → walk p ks f ≡ []
      → walk p (without (key v) ks) (put v (ks, f)).1 ≡ []
  walk-without p v [] f h = refl
  walk-without p v (k ∷ ks) f h =
      let (a, b) = keep-none p (checked k (f k)) (walk p ks f) h in
      let r = walk-without p v ks f b in
      elim (Bool-cases (eqb (key v) k)) [ inl e ↦ rw e r | inr e ↦ rw e (rw e (rw r a)) ]

  pub select_insert :
      (p : V → Bool) (v : V) (t t' : Data) (o : Option V)
      → insert_at v t o ≡ some t'
      → walk p t.0 t.1 ≡ []
      → p v ≡ true
      → walk p t'.0 t'.1 ≡ v ∷ []
  select_insert p v t t' (some u) i h e = absurd (cc)
  select_insert p v t t' none i h e =
      let q : (key v ∷ without (key v) t.0, (put v t).1) ≡ t' = cc in
      rw (← q) (rw (put-checked v t) (rw e (ap (λ l. v ∷ l) (walk-without p v t.0 t.1 h))))

  abbrev pub table : Table key
  table = record {
    Rows = Data;
    find = find;
    insert = λ v t. insert_at v t (find (key v) t);
    update = λ v t. change_at v t (find (key v) t);
    select = λ p t. walk p t.0 t.1;
    find_key = λ k t v h. checked-key k (t.1 k) v (found k t v h).1;
    insert_taken = λ v u t h. ap (insert_at v t) h;
    insert_free = λ v t h. (_, ap (insert_at v t) h);
    find_insert_self = λ v t t' h. ap (find (key v)) (insert_at-some v t t' _ h) ∙ added_self v t;
    find_insert_ne = λ k v t t' h n. ap (find k) (insert_at-some v t t' _ h) ∙ added-ne k v t n;
    find_update_self = λ v u t h. change_at_self v u t _ h h;
    find_update_ne = λ k v t n. change_at-ne k v t _ n;
    update_missing = λ v t h. ap (change_at v t) h;
    select_sound = λ p t. walk_sound p t t.0 (λ j h. h);
    select_complete =
        λ p t v h e. let (m, c) = found (key v) t v h in walk_complete p t.1 v (key v) t.0 m c e;
    select_insert = λ p v t t' h n e. select_insert p v t t' _ h n e;
  }
