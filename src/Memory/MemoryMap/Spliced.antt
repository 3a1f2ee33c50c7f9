-- ===== src/Memory/MemoryMap/Spliced.antt =====
-- The sequence that `add_memory` of kernel/memory/src/memory_map.rs hands to `compact`.
use aarch.Base.{
  ℕ, ◌≤◌, true, List, [], ◌∷◌, ◌++◌, ◌≡◌, ◌⊎◌, inl, inr, refl, arith, if◌then◌else◌, All,
  All-append, Bool-cases, some,
}
use mathlib.Core.List.{append_assoc}
use native.Mathlib.Decide.{dec_lt}
use aarch.Memory.MemoryMap.Seq.{MemoryRange}
use aarch.Memory.MemoryMap.Order.{
  Between, Between-append, IsNonEmpty, look, look-append, look_below, look_above, contains, or_else,
}
use aarch.Memory.MemoryMap.Compact.{merged}
use aarch.Memory.MemoryMap.Merge.{merged-IsNonEmpty}
use aarch.Memory.MemoryMap.Empty.{at_start, at_end, merged-at_start, merged-at_end}
use aarch.Memory.MemoryMap.Edges.{kind, Before, After}

abbrev pub spliced :
    MemoryRange → List MemoryRange → List MemoryRange → MemoryRange → MemoryRange → List MemoryRange
spliced mem front back b f = front ++ b ∷ (mem ∷ (f ∷ back))

Between-weaken :
    (lo mid hi : ℕ) (xs : List MemoryRange) → lo ≤ mid → Between mid hi xs → Between lo hi xs
Between-weaken lo mid hi [] h p = omega arith
Between-weaken lo mid hi (x ∷ xs) h p = (omega arith, p.1, p.2)

module _ (mem : MemoryRange) (front middle back : List MemoryRange) (b f : MemoryRange) (c d hi : ℕ)
    (whole : IsNonEmpty mem) (fits : Between 0 c front) (before : Before mem c middle b)
    (after : After mem d middle f) (rest : Between d hi back) where
  pub spliced-Between : Between 0 hi (spliced mem front back b f)
  spliced-Between = Between-append 0 c hi front _ fits (
    before.within,
    omega (arith, before.ends, before.starts),
    (
      omega (arith, before.ends),
      omega (arith, whole),
      (
        omega (arith, after.starts),
        omega (arith, after.starts, after.ends),
        Between-weaken f.range.end d hi back after.within rest,
      ),
    ),
  )

  -- Behind the front: the edges stand for what `mem` left of the middle part.
  look_behind_front :
      (a : ℕ)
      → mem.range.end ≤ d
      → look (b ∷ (mem ∷ (f ∷ back))) a
        ≡ (if contains mem.range a then some (kind mem) else or_else (look middle a) (look back a))
  look_behind_front a q = elim (dec_lt a mem.range.start) [
    | yes low ↦
        ground
          (arith, before.same a low, before.ends, after.starts, look_below d hi back a rest, whole)
    | no high ↦ elim (dec_lt a mem.range.end) [
      | yes inside ↦ ground (arith, before.ends)
      | no past ↦
          ground (arith, before.ends, before.starts, after.same a (omega arith), after.starts)
    ]
  ]

  pub look-spliced :
      (a : ℕ)
      → c ≤ mem.range.start
      → mem.range.end ≤ d
      → look (spliced mem front back b f) a
        ≡ (if contains mem.range a then some (kind mem) else look (front ++ (middle ++ back)) a)
  look-spliced a p q =
      rw
        (
          look-append front (b ∷ (mem ∷ (f ∷ back))) a,
          look_behind_front a q,
          look-append front (middle ++ back) a,
          look-append middle back a,
        )
        (elim (Bool-cases (contains mem.range a)) [
          | inl inside ↦
              rw (inside, look_above 0 c front a fits (omega (arith, contains→le inside))) refl
          | inr outside ↦ rw outside refl
        ])
    where
      contains→le : contains mem.range a ≡ true → mem.range.start ≤ a
      contains→le h = ground arith

-- An empty edge is merged into `mem`.
module _ (mem : MemoryRange) (back : List MemoryRange) (whole : IsNonEmpty mem)
    (bs : All IsNonEmpty back) where
  after-IsNonEmpty :
      (front : List MemoryRange) (f : MemoryRange)
      → (f ≡ at_end mem) ⊎ IsNonEmpty f
      → All IsNonEmpty front
      → All IsNonEmpty (merged (front ++ mem ∷ (f ∷ back)))
  after-IsNonEmpty front f (inl e) fs =
      rw (e, merged-at_end front back mem)
        (merged-IsNonEmpty _ (All-append IsNonEmpty front (mem ∷ back) fs (whole, bs)))
  after-IsNonEmpty front f (inr g) fs =
      merged-IsNonEmpty _ (All-append IsNonEmpty front (mem ∷ (f ∷ back)) fs (whole, (g, bs)))

  pub spliced-IsNonEmpty :
      (front : List MemoryRange) (b f : MemoryRange)
      → (b ≡ at_start mem) ⊎ IsNonEmpty b
      → (f ≡ at_end mem) ⊎ IsNonEmpty f
      → All IsNonEmpty front
      → All IsNonEmpty (merged (spliced mem front back b f))
  spliced-IsNonEmpty front b f (inl e) h fs =
      rw (e, merged-at_start front (f ∷ back) mem) (after-IsNonEmpty front f h fs)
  spliced-IsNonEmpty front b f (inr g) h fs =
      rw (← append_assoc front (b ∷ []) (mem ∷ (f ∷ back)))
        (after-IsNonEmpty (front ++ b ∷ []) f h (All-append IsNonEmpty front (b ∷ []) fs (g, tt)))

pub All-front {ℓ κ} : {A : Type ℓ} (P : A → Type κ) (xs ys : List A) → All P (xs ++ ys) → All P xs
All-front P [] ys h = tt
All-front P (x ∷ xs) ys h = (h.0, All-front P xs ys h.1)

pub All-back {ℓ κ} : {A : Type ℓ} (P : A → Type κ) (xs ys : List A) → All P (xs ++ ys) → All P ys
All-back P [] ys h = h
All-back P (x ∷ xs) ys h = All-back P xs ys h.1
