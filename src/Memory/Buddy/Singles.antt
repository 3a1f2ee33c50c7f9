-- ===== src/Memory/Buddy/Singles.antt =====
-- Single pages of kernel/memory/src/buddy.rs that are handed out one beside the other.
use aarch.Base.{
  ℕ, zero, suc, ◌+◌, ◌-◌, ◌^◌, ◌≤◌, ◌<◌, ◌≡◌, ◌⊎◌, inl, inr, ap, ◌∙◌, false, arith, max, List, [],
  ◌∷◌, ◌++◌, All, Bool-cases, leb, ◌==◌, subst,
}
use aarch.Base.Bits.{two_pow_pos}
use aarch.Memory.Buddy.{BuddySystem, levels}
use aarch.Memory.Buddy.Apart.{Block, Apart, Aligned}
use aarch.Memory.Buddy.Frees.{Frees}
use aarch.Memory.Buddy.Layout.{Marked, Fits, Covers, ApartFree, Separate}
use aarch.Memory.Buddy.Halves.{Layout-used}
use aarch.Memory.Buddy.Invariant.{Inv, Holding}

-- `n` pages from the position `s` on, each a block of its own.
abbrev pub singles : ℕ → ℕ → List Block
singles s zero = []
singles s (suc n) = (s, 0) ∷ singles (suc s) n

pub singles-add :
    (s m n : ℕ) (rest : List Block)
    → singles s (m + n) ++ rest ≡ singles s m ++ (singles (s + m) n ++ rest)
singles-add s zero n rest =
    let none_more : 0 + n ≡ n = omega arith in
    let start : s ≡ s + 0 = omega arith in
    ap (λ i. singles s i ++ rest) none_more ∙ ap (λ i. singles i n ++ rest) start
singles-add s (suc m) n rest =
    let shift : suc s + m ≡ s + suc m = omega arith in
    let up : suc m + n ≡ suc (m + n) = omega arith in
    ap (λ i. singles s i ++ rest) up
    ∙ ap (λ bs. (s, 0) ∷ bs)
        (singles-add (suc s) m n rest ∙ ap (λ i. singles (suc s) m ++ (singles i n ++ rest)) shift)

-- What holds of the blocks holds of each single page and of the rest.
module _ (P : Block → Type 0) where
  singles-each :
      (s n : ℕ) (rest : List Block)
      → All P (singles s n ++ rest)
      → (x : ℕ) → s ≤ x
      → x < s + n
      → P (x, 0)
  singles-each s zero rest h x low high = absurd (omega arith)
  singles-each s (suc n) rest h x low high = elim (Bool-cases (x == s)) [
    | inl t ↦ (let same : s ≡ x = ground arith in subst (λ i. P (i, 0)) same h.0)
    | inr f ↦ singles-each (suc s) n rest h.1 x (ground arith) (omega arith)
  ]

  singles-rest : (s n : ℕ) (rest : List Block) → All P (singles s n ++ rest) → All P rest
  singles-rest s zero rest h = h
  singles-rest s (suc n) rest h = singles-rest (suc s) n rest h.1

Separate-rest : (s n : ℕ) (rest : List Block) → Separate (singles s n ++ rest) → Separate rest
Separate-rest s zero rest h = h
Separate-rest s (suc n) rest h = Separate-rest (suc s) n rest h.1

Separate-each :
    (s n : ℕ) (rest : List Block)
    → Separate (singles s n ++ rest)
    → (x : ℕ) → s ≤ x
    → x < s + n
    → All (Apart (x, 0)) rest
Separate-each s zero rest h x low high = absurd (omega arith)
Separate-each s (suc n) rest h x low high = elim (Bool-cases (x == s)) [
  | inl t ↦
      let same : s ≡ x = ground arith in
      subst (λ i. All (Apart (i, 0)) rest) same (singles-rest (Apart (s, 0)) (suc s) n rest h.0)
  | inr f ↦ Separate-each (suc s) n rest h.1 x (ground arith) (omega arith)
]

pub Covers-singles :
    (s n : ℕ) (rest : List Block) (p : ℕ)
    → Covers (singles s n ++ rest) p
    → ((s ≤ p) × (p < s + n)) ⊎ Covers rest p
Covers-singles s zero rest p h = inr h
Covers-singles s (suc n) rest p (inl (low, high)) = inl (low, omega arith)
Covers-singles s (suc n) rest p (inr h) = elim (Covers-singles (suc s) n rest p h) [
  | inl (low, high) ↦ inl (omega arith, omega arith)
  | inr covered ↦ inr covered
]

-- A block is apart from what each of its pages is apart from.
Apart-pages :
    (s k : ℕ) (c : Block) → ((x : ℕ) → s ≤ x → x < s + 2 ^ k → Apart (x, 0) c) → Apart (s, k) c
Apart-pages s k (q, j) f =
    let pos : 0 < 2 ^ k = two_pow_pos k in
    let pos' : 0 < 2 ^ j = two_pow_pos j in
    elim (Bool-cases (leb (s + 2 ^ k) q)) [
      | inl t ↦ inl (ground arith)
      | inr before ↦ elim (Bool-cases (leb (q + 2 ^ j) s)) [
        | inl t ↦ inr (ground arith)
        | inr behind ↦
            let high : max s q < s + 2 ^ k = ground arith in
            let low : max s q < q + 2 ^ j = ground arith in
            elim (f (max s q) (omega arith) high) [
              | inl h ↦ absurd (omega arith)
              | inr h ↦ absurd (omega arith)
            ]
      ]
    ]

All-Apart-pages :
    (s k : ℕ) (rest : List Block)
    → ((x : ℕ) → s ≤ x → x < s + 2 ^ k → All (Apart (x, 0)) rest)
    → All (Apart (s, k)) rest
All-Apart-pages s k [] f = tt
All-Apart-pages s k (c ∷ rest) f = (
  Apart-pages s k c (λ x low high. (f x low high).0),
  All-Apart-pages s k rest (λ x low high. (f x low high).1),
)

-- The pages of an aligned block that were handed out one by one are taken in hand together.
pub take_singles :
    (sys : BuddySystem) (frees : Frees) (s k : ℕ) (rest : List Block)
    → Inv sys frees (singles s (2 ^ k) ++ rest)
    → Aligned sys.offset (s, k)
    → k < levels
    → Holding sys frees (s, k) rest
take_singles sys frees s k rest h aligned low =
    let pos : 0 < 2 ^ k = two_pow_pos k in
    let fit : Fits sys.offset sys.pages (s + 2 ^ k - 1, 0) =
      singles-each (Fits sys.offset sys.pages) s (2 ^ k) rest h.layout.used_fit (s + 2 ^ k - 1)
        (omega arith) (omega arith) in
    record {
      lists = h.lists;
      layout =
          Layout-used h.layout
            (
              record { aligned = aligned; inside = omega (arith, fit.inside); order = low },
              singles-rest (Fits sys.offset sys.pages) s (2 ^ k) rest h.layout.used_fit,
            )
            (
              All-Apart-pages s k rest (Separate-each s (2 ^ k) rest h.layout.used_separate),
              Separate-rest s (2 ^ k) rest h.layout.used_separate,
            )
            (
              (λ j q low' a.
                  Apart-pages s k (q, j)
                    λ x from to.
                      singles-each (ApartFree frees) s (2 ^ k) rest h.layout.used_free x from to j q
                        low' a),
              singles-rest (ApartFree frees) s (2 ^ k) rest h.layout.used_free,
            )
            (λ p. Covers-singles s (2 ^ k) rest p);
      marks = singles-rest (λ b. Marked sys.pages b.0 false b.1) s (2 ^ k) rest h.marks;
    }
