-- ===== src/Memory/MemoryMap/Order.antt =====
-- What a sequence of kernel/memory/src/memory_map.rs stands for, and its order.
use aarch.Base.{
  ℕ, ◌≤◌, ◌<◌, Bool, true, false, ◌&&◌, Option, none, some, List, [], ◌∷◌, ◌++◌, ◌≡◌, refl, arith,
  ltb, leb, if◌then◌else◌, All, u64_max,
}
use aarch.Memory.MemoryMap.Seq.{
  MemoryType, MemoryStatus, MemoryRange, Range, regular, non_regular, free, reserved, unknown,
  eq_type, eq_status, can_concat,
}

-- `Range::contains`
abbrev pub contains : Range → ℕ → Bool
contains r a = leb r.start a && ltb a r.end

-- The type and the status of the address `a`.
abbrev pub Cell : Type 0
Cell = MemoryType × MemoryStatus

abbrev pub look : List MemoryRange → ℕ → Option Cell
look [] a = none
look (x ∷ xs) a = if contains x.range a then some (x.memtype, x.status) else look xs a

-- Ranges that do not overlap, in increasing order from `lo` up to `hi`.
abbrev pub Between : ℕ → ℕ → List MemoryRange → Type 0
Between lo hi [] = lo ≤ hi
Between lo hi (x ∷ xs) =
    (lo ≤ x.range.start) × (x.range.start ≤ x.range.end) × Between x.range.end hi xs

abbrev pub IsNonEmpty : MemoryRange → Type 0
IsNonEmpty x = x.range.start < x.range.end

-- No range continues the one before it.
abbrev pub NoConcat : List MemoryRange → Type 0
NoConcat [] = Unit
NoConcat (x ∷ []) = Unit
NoConcat (x ∷ (y ∷ ys)) = (can_concat x y ≡ false) × NoConcat (y ∷ ys)

-- The invariant of the sequences of a memory map.
pub record IsOrdered (seq : List MemoryRange) : Type 0 where
  pub between : Between 0 u64_max seq
  pub nonempty : All IsNonEmpty seq
  pub compacted : NoConcat seq

pub eq_type→eq : (a b : MemoryType) → eq_type a b ≡ true → a ≡ b
eq_type→eq a b h = ground arith

pub eq_status→eq : (a b : MemoryStatus) → eq_status a b ≡ true → a ≡ b
eq_status→eq a b h = ground arith

pub eq_type_self : (a : MemoryType) → eq_type a a ≡ true
eq_type_self regular = refl
eq_type_self non_regular = refl

pub eq_status_self : (a : MemoryStatus) → eq_status a a ≡ true
eq_status_self free = refl
eq_status_self reserved = refl
eq_status_self unknown = refl

pub record Continues (l r : MemoryRange) : Type 0 where
  pub meet : l.range.end ≡ r.range.start
  pub same_type : l.memtype ≡ r.memtype
  pub same_status : l.status ≡ r.status

pub can_concat→Continues : (l r : MemoryRange) → can_concat l r ≡ true → Continues l r
unfolding can_concat
can_concat→Continues l r h = record {
  meet = ground arith;
  same_type = ground arith;
  same_status = ground arith;
}

pub Continues→can_concat : (l r : MemoryRange) → Continues l r → can_concat l r ≡ true
unfolding can_concat
Continues→can_concat l r c =
    rw (c.meet, c.same_type, c.same_status, eq_type_self r.memtype, eq_status_self r.status)
      (ground arith)

pub Between-append :
    (lo mid hi : ℕ) (xs ys : List MemoryRange)
    → Between lo mid xs
    → Between mid hi ys
    → Between lo hi (xs ++ ys)
Between-append lo mid hi [] [] p q = omega arith
Between-append lo mid hi [] (y ∷ ys) p q = (omega arith, q.1, q.2)
Between-append lo mid hi (x ∷ xs) ys p q = (p.0, p.1, Between-append x.range.end mid hi xs ys p.2 q)

pub Between-le : (lo hi : ℕ) (xs : List MemoryRange) → Between lo hi xs → lo ≤ hi
Between-le lo hi [] h = h
Between-le lo hi (x ∷ xs) h = omega (arith, Between-le x.range.end hi xs h.2)

abbrev pub or_else {ℓ} : {A : Type ℓ} → Option A → Option A → Option A
or_else none d = d
or_else (some c) d = some c

pub look-append :
    (xs ys : List MemoryRange) (a : ℕ) → look (xs ++ ys) a ≡ or_else (look xs a) (look ys a)
look-append [] ys a = refl
look-append (x ∷ xs) ys a = ground (arith, look-append xs ys a)

-- Nothing is found outside the bounds.
pub look_below :
    (lo hi : ℕ) (xs : List MemoryRange) (a : ℕ) → Between lo hi xs → a < lo → look xs a ≡ none
look_below lo hi [] a h out = refl
look_below lo hi (x ∷ xs) a h out = ground (arith, look_below x.range.end hi xs a h.2)

pub look_above :
    (lo hi : ℕ) (xs : List MemoryRange) (a : ℕ) → Between lo hi xs → hi ≤ a → look xs a ≡ none
look_above lo hi [] a h out = refl
look_above lo hi (x ∷ xs) a h out =
    ground (arith, look_above x.range.end hi xs a h.2, Between-le x.range.end hi xs h.2)
