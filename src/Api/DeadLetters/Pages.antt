-- ===== src/Api/DeadLetters/Pages.antt =====
-- The pages of the list of dead letters (src/fairlane/api/dlq_routes.py).
use native.Mathlib.Nat.{suc-mul}
use fairlane.Prelude.{
  In, ℕ, zero, suc, ◌+◌, ◌-◌, ◌*◌, ◌≤◌, String, ◌≡◌, refl, sym, ap, ◌∙◌, Option, List, [], ◌∷◌,
  ◌++◌, length, ltb, arith, Bool-cases, inl, inr,
}
use fairlane.Models.{DeadLetter}
use fairlane.Database.{Schema, Db}
use fairlane.Api.DeadLetters.{
  wanted, insert_letter, order_letters, offset, limit, list_dead_letters,
}

module _ {A : Type 0} where
  limit-append : (a b : ℕ) (l : List A) → limit a l ++ limit b (offset a l) ≡ limit (a + b) l
  limit-append zero b l = let e : b ≡ 0 + b = omega arith in ap (λ k. limit k l) e
  limit-append (suc a) zero [] =
      let e : suc (a + 0) ≡ suc a + 0 = omega arith in ap (λ k. limit {A = A} k []) e
  limit-append (suc a) (suc b) [] =
      let e : suc (a + suc b) ≡ suc a + suc b = omega arith in ap (λ k. limit {A = A} k []) e
  limit-append (suc a) b (x ∷ l) =
      let e : suc a + b ≡ suc (a + b) = omega arith in
      ap (λ r. x ∷ r) (limit-append a b l) ∙ ap (λ k. limit k (x ∷ l)) (sym e)

  limit_all : (k : ℕ) (l : List A) → length l ≤ k → limit k l ≡ l
  limit_all zero [] h = refl
  limit_all zero (x ∷ l) h = absurd (omega (arith, h))
  limit_all (suc k) [] h = refl
  limit_all (suc k) (x ∷ l) h = ap (λ r. x ∷ r) (limit_all k l (omega (arith, h)))

-- No letter died after the one before it.
abbrev pub Descending : List DeadLetter → Type 0
Descending [] = Unit
Descending (d ∷ []) = Unit
Descending (d ∷ e ∷ es) = (e.dead_at ≤ d.dead_at) × Descending (e ∷ es)

-- The same letters.
abbrev pub Same : List DeadLetter → List DeadLetter → Type 0
Same l k = (d : DeadLetter) → (In d l → In d k) × (In d k → In d l)

insert_letter-length :
    (d : DeadLetter) (l : List DeadLetter) → length (insert_letter d l) ≡ suc (length l)
unfolding insert_letter
insert_letter-length d [] = refl
insert_letter-length d (e ∷ es) = elim (Bool-cases (ltb d.dead_at e.dead_at)) [
  | inl h ↦ rw h (ap suc (insert_letter-length d es))
  | inr h ↦ rw h refl
]

order_letters-length : (l : List DeadLetter) → length (order_letters l) ≡ length l
unfolding order_letters
order_letters-length [] = refl
order_letters-length (d ∷ ds) =
    insert_letter-length d (order_letters ds) ∙ ap suc (order_letters-length ds)

insert_letter-Same : (d : DeadLetter) (l : List DeadLetter) → Same (insert_letter d l) (d ∷ l)
unfolding insert_letter
insert_letter-Same d [] x = (λ i. i, λ i. i)
insert_letter-Same d (e ∷ es) x = elim (Bool-cases (ltb d.dead_at e.dead_at)) [
  | inl h ↦
      let (p, q) = insert_letter-Same d es x in
      rw h (
        λ i. elim i [
          | inl a ↦ inr (inl a)
          | inr b ↦ elim (p b) [ inl c ↦ inl c | inr c ↦ inr (inr c) ]
        ],
        λ i. elim i [
          | inl a ↦ inr (q (inl a))
          | inr b ↦ elim b [ inl c ↦ inl c | inr c ↦ inr (q (inr c)) ]
        ],
      )
  | inr h ↦ rw h (λ i. i, λ i. i)
]

order_letters-Same : (l : List DeadLetter) → Same (order_letters l) l
unfolding order_letters
order_letters-Same [] x = (λ i. i, λ i. i)
order_letters-Same (d ∷ ds) x =
    let (p, q) = insert_letter-Same d (order_letters ds) x in
    let (r, s) = order_letters-Same ds x in
    (
      λ i. elim (p i) [ inl a ↦ inl a | inr b ↦ inr (r b) ],
      λ i. q (elim i [ inl a ↦ inl a | inr b ↦ inr (s b) ]),
    )

insert_letter-Descending :
    (d : DeadLetter) (l : List DeadLetter) → Descending l → Descending (insert_letter d l)
unfolding insert_letter
insert_letter-Descending d [] h = tt
insert_letter-Descending d (e ∷ []) h = elim (Bool-cases (ltb d.dead_at e.dead_at)) [
  | inl k ↦ rw k (ground arith, tt)
  | inr k ↦ rw k (ground arith, tt)
]
insert_letter-Descending d (e ∷ f ∷ fs) h = elim (Bool-cases (ltb d.dead_at e.dead_at)) [
  | inl k ↦
      let rest = insert_letter-Descending d (f ∷ fs) h.1 in
      rw k (elim (Bool-cases (ltb d.dead_at f.dead_at)) [
        | inl j ↦ rw j (h.0, rw j at rest)
        | inr j ↦ rw j (ground arith, rw j at rest)
      ])
  | inr k ↦ rw k (ground arith, h)
]

order_letters-Descending : (l : List DeadLetter) → Descending (order_letters l)
unfolding order_letters
order_letters-Descending [] = tt
order_letters-Descending (d ∷ ds) =
    insert_letter-Descending d (order_letters ds) (order_letters-Descending ds)

module _ {S : Schema} (scan : List DeadLetter → List DeadLetter)
    (tenant_id failure_category : Option String) (page_size : ℕ) (d : Db S) where
  -- The items of the pages from the first to the n-th.
  abbrev pub pages : ℕ → List DeadLetter
  pages zero = []
  pages (suc n) =
      pages n ++ (list_dead_letters scan tenant_id failure_category (suc n) page_size d).items

  abbrev pub matching : List DeadLetter
  matching = S.dead_letters.select (wanted tenant_id failure_category) d.dead_letters

  pages-limit : (n : ℕ) → pages n ≡ limit (n * page_size) (order_letters (scan matching))
  unfolding list_dead_letters
  pages-limit zero =
      let e : 0 ≡ 0 * page_size = omega arith in ap (λ k. limit k (order_letters (scan matching))) e
  pages-limit (suc n) =
      let l = order_letters (scan matching) in
      let e : suc n - 1 ≡ n = omega arith in
      let m : n * page_size + page_size ≡ suc n * page_size = sym (suc-mul n page_size) in
      rw e (
        ap (λ k. k ++ limit page_size (offset (n * page_size) l)) (pages-limit n)
        ∙ limit-append (n * page_size) page_size l
        ∙ ap (λ k. limit k l) m)

  -- The pages of the list, one after the other, are the dead letters that pass both filters, each
  -- of them and no other, ordered from the latest death to the earliest, as soon as they are enough
  -- pages for the total that each page reports, and as long as the database meets the same letters
  -- in the same order for each page: the query says nothing about letters of one moment.
  pub list_dead_letters-pages :
      (n : ℕ)
      → Same (scan matching) matching
      → length (scan matching) ≡ length matching
      → (list_dead_letters scan tenant_id failure_category n page_size d).total ≤ n * page_size
      → Same (pages n) matching
        × Descending (pages n)
        × (length (pages n)
            ≡ (list_dead_letters scan tenant_id failure_category n page_size d).total)
  unfolding list_dead_letters
  list_dead_letters-pages n same size h =
      let l = order_letters (scan matching) in
      let e : pages n ≡ l =
        pages-limit n
        ∙ limit_all (n * page_size) l
            (omega (arith, h, order_letters-length (scan matching), size)) in
      rw e (
        λ x. (
          λ i. (same x).0 ((order_letters-Same (scan matching) x).0 i),
          λ i. (order_letters-Same (scan matching) x).1 ((same x).1 i),
        ),
        order_letters-Descending (scan matching),
        order_letters-length (scan matching) ∙ size,
      )
