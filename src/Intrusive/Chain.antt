-- ===== src/Intrusive/Chain.antt =====
-- What the links of kernel/intrusive/src/list.rs hold when they chain up a sequence of elements.
use aarch.Base.{
  ℕ, zero, suc, ◌<◌, ◌≡◌, ◌≢◌, refl, sym, ◌∙◌, arith, false, some, List, [], ◌∷◌, ◌++◌, lt→ltb,
  length, get_elem?, get_elem?-set_ne, get_elem?-set_self, length-set, set, All, ok, store,
}
use aarch.Intrusive.{Pointer, IntrusiveListLink, Links, same_pointer, set_prev}

pub get_elem?-inside :
    {A : Type 0} (xs : List A) (i : ℕ) (v : A) → get_elem? xs i ≡ some v → i < length xs
get_elem?-inside [] i v h = absurd cc
get_elem?-inside (x ∷ xs) zero v h = omega arith
get_elem?-inside (x ∷ xs) (suc i) v h = omega (arith, get_elem?-inside xs i v h)

pub store-inside :
    {A : Type 0} (xs : List A) (i : ℕ) (v : A) → i < length xs → store xs i v ≡ ok (set xs i v)
store-inside xs i v h = rw (lt→ltb i (length xs) h) refl

-- `links` chains up `xs` from the pointer `first`, and the last element, `last`, points on to
-- `next`; the first one points back to `prev`.
pub data Chain (links : Links) : Pointer → List ℕ → Pointer → Pointer → Pointer → Type 0 where
  nil : (prev next : Pointer) → Chain links prev [] next next prev
  cons :
      (prev : Pointer) (x : ℕ) (xs : List ℕ) (second next last : Pointer)
      → get_elem? links x ≡ some (record { next = second; prev = prev })
      → Chain links (some x) xs second next last
      → Chain links prev (x ∷ xs) (some x) next last

-- No element stands twice.
abbrev pub Distinct : List ℕ → Type 0
Distinct [] = Unit
Distinct (x ∷ xs) = All (λ y. y ≢ x) xs × Distinct xs

-- `j` is not among `xs`.
abbrev pub Misses : ℕ → List ℕ → Type 0
Misses j xs = All (λ y. y ≢ j) xs

-- A change of `links` that leaves the elements but `xs`.
abbrev pub Kept : Links → Links → List ℕ → Type 0
Kept links after xs = (j : ℕ) → Misses j xs → get_elem? after j ≡ get_elem? links j

pub Kept-set :
    (links : Links) (x : ℕ) (v : IntrusiveListLink) (xs : List ℕ)
    → Kept links (set links x v) (x ∷ xs)
Kept-set links x v xs j other = get_elem?-set_ne links x j v other.0

pub Kept-Chain :
    {links after : Links} {prev : Pointer} (xs : List ℕ) {ys : List ℕ} {first next last : Pointer}
    → Kept links after xs
    → All (λ y. Misses y xs) ys
    → Chain links prev ys first next last
    → Chain after prev ys first next last
Kept-Chain xs kept apart (nil prev next) = nil prev next
Kept-Chain xs kept apart (cons prev y rest second next last held chain) =
    cons prev y rest second next last (kept y apart.0 ∙ held) (Kept-Chain xs kept apart.1 chain)

pub split-Chain :
    {links : Links} (xs ys : List ℕ) {prev first next last : Pointer}
    → Chain links prev (xs ++ ys) first next last
    → (m l : Pointer) × Chain links prev xs first m l × Chain links l ys m next last
split-Chain [] ys {prev} {first} chain = (first, prev, nil prev first, chain)
split-Chain (x ∷ xs) ys (cons prev y rest second next last held chain) =
    let (m, l, front, back) = split-Chain xs ys chain in
    (m, l, cons prev x xs second m l held front, back)

pub join-Chain :
    {links : Links} {xs : List ℕ} (ys : List ℕ) {prev first m l next last : Pointer}
    → Chain links prev xs first m l
    → Chain links l ys m next last
    → Chain links prev (xs ++ ys) first next last
join-Chain ys (nil prev next) back = back
join-Chain ys {next} {last} (cons prev x xs second m l held front) back =
    cons prev x (xs ++ ys) second next last held (join-Chain ys front back)

pub alone : (x : ℕ) (xs : List ℕ) → Misses x xs → All (λ y. Misses y (x ∷ [])) xs
alone x [] h = tt
alone x (y ∷ ys) h = (((λ e. h.0 (sym e)), tt), alone x ys h.1)

module _ {links : Links} where
  -- The first element may point back to another pointer; the other links stay.
  pub point_back :
      (p : Pointer) {prev : Pointer} {x : ℕ} {xs : List ℕ} {first next last : Pointer}
      → Distinct (x ∷ xs)
      → Chain links prev (x ∷ xs) first next last
      → (after : Links) × (set_prev links x p ≡ ok after)
        × Chain after p (x ∷ xs) first next last
        × (length after ≡ length links)
        × Kept links after (x ∷ [])
  unfolding set_prev
  point_back p distinct (cons prev x xs second next last held chain) =
      let inside : x < length links = get_elem?-inside links x _ held in
      let link : IntrusiveListLink = record { next = second; prev = p } in
      let kept = Kept-set links x link [] in
      (
        set links x link,
        rw held (store-inside links x link inside),
        cons p x xs second next last (get_elem?-set_self links x link inside)
            (Kept-Chain (x ∷ []) kept (alone x xs distinct.0) chain),
        length-set links x link,
        kept,
      )

  -- A pointer to no element of the sequence, nor what it points back to, is not its last.
  pub last_differs :
      (x : ℕ) {prev : Pointer} {xs : List ℕ} {first next last : Pointer}
      → same_pointer (some x) prev ≡ false
      → Misses x xs
      → Chain links prev xs first next last
      → same_pointer (some x) last ≡ false
  last_differs x before other (nil prev next) = before
  last_differs x before other (cons prev y ys second next last held chain) =
      last_differs x (ground (arith, other.0)) other.1 chain
