-- ===== src/Memory/Buddy/Frees.antt =====
-- The positions on the free lists of kernel/memory/src/buddy.rs, level by level.
use aarch.Base.{
  ℕ, ◌≡◌, ◌≢◌, ◌⊎◌, inl, inr, refl, sym, ap, arith, subst, true, false, List, [], ◌∷◌, ◌++◌, ◌==◌,
  if◌then◌else◌, All, Bool-cases,
}
use mathlib.Core.Path.{fun_ext}

abbrev pub Among : ℕ → List ℕ → Type 0
Among x [] = ⊥
Among x (y ∷ ys) = (x ≡ y) ⊎ Among x ys

pub All-Among : (P : ℕ → Type 0) (xs : List ℕ) → ((x : ℕ) → Among x xs → P x) → All P xs
All-Among P [] f = tt
All-Among P (x ∷ xs) f = (f x (inl refl), All-Among P xs λ y h. f y (inr h))

pub Among-middle : (front : List ℕ) (x : ℕ) (back : List ℕ) → Among x (front ++ x ∷ back)
Among-middle [] x back = inl refl
Among-middle (y ∷ front) x back = inr (Among-middle front x back)

pub Among-rest :
    (y : ℕ) (front : List ℕ) (x : ℕ) (back : List ℕ)
    → Among y (front ++ back)
    → Among y (front ++ x ∷ back)
Among-rest y [] x back h = inr h
Among-rest y (z ∷ front) x back (inl e) = inl e
Among-rest y (z ∷ front) x back (inr h) = inr (Among-rest y front x back h)

-- An element of the sequence stands between what is before it and what is behind it.
pub Among-split :
    (x : ℕ) (xs : List ℕ) → Among x xs → (front back : List ℕ) × (xs ≡ front ++ x ∷ back)
Among-split x [] h = absurd h
Among-split x (y ∷ ys) (inl e) = ([], ys, ap (λ z. z ∷ ys) (sym e))
Among-split x (y ∷ ys) (inr h) =
    let (front, back, e) = Among-split x ys h in (y ∷ front, back, ap (λ zs. y ∷ zs) e)

-- The elements of the free list of each level.
abbrev pub Frees : Type 0
Frees = ℕ → List ℕ

abbrev pub update : Frees → ℕ → List ℕ → Frees
update frees k xs = λ j. if j == k then xs else frees j

pub update_at : (frees : Frees) (k : ℕ) (xs : List ℕ) (j : ℕ) → j ≡ k → update frees k xs j ≡ xs
update_at frees k xs j e = (let same : (j == k) ≡ true = ground arith in rw same refl)

pub update_ne :
    (frees : Frees) (k : ℕ) (xs : List ℕ) (j : ℕ) → j ≢ k → update frees k xs j ≡ frees j
update_ne frees k xs j other =
    (let differs : (j == k) ≡ false = ground (arith, other) in rw differs refl)

pub update_same : (frees : Frees) (k : ℕ) → update frees k (frees k) ≡ frees
update_same frees k = fun_ext λ j. same j
  where
    same : (j : ℕ) → update frees k (frees k) j ≡ frees j
    same j = elim (Bool-cases (j == k)) [
      | inl t ↦ (let e : j ≡ k = ground arith in rw t (ap frees (sym e)))
      | inr f ↦ rw f refl
    ]

-- What is in the lists after a push, a removal, and before.
pub pushed :
    (frees : Frees) (k p j x : ℕ)
    → Among x (update frees k (p ∷ frees k) j)
    → ((x ≡ p) × (j ≡ k)) ⊎ Among x (frees j)
pushed frees k p j x a = elim (Bool-cases (j == k)) [
  | inr f ↦ inr (subst (λ zs. Among x zs) (rw f refl) a)
  | inl t ↦
      let same : j ≡ k = ground arith in
      let b : Among x (p ∷ frees k) =
        subst (λ zs. Among x zs) (update_at frees k (p ∷ frees k) j same) a in
      elim b [ inl e ↦ inl (e, same) | inr b ↦ inr (subst (λ i. Among x (frees i)) (sym same) b) ]
]

pub still :
    (frees : Frees) (k p j x : ℕ) → Among x (frees j) → Among x (update frees k (p ∷ frees k) j)
still frees k p j x a = elim (Bool-cases (j == k)) [
  | inr f ↦ subst (λ zs. Among x zs) (rw f refl) a
  | inl t ↦
      let same : j ≡ k = ground arith in
      subst (λ zs. Among x zs) (sym (update_at frees k (p ∷ frees k) j same))
        (inr (subst (λ i. Among x (frees i)) same a))
]
