-- ===== src/Memory/Start/Part.antt =====
-- The whole pages of one free range, in `Memory::new` of kernel/memory/src/lib.rs.
use aarch.Base.{
  ℕ, ◌+◌, ◌-◌, ◌*◌, ◌/◌, ◌%◌, ◌^◌, ◌≤◌, ◌<◌, ◌≡◌, inl, inr, refl, ap₂, ◌∙◌, arith, none, List, [],
  ◌∷◌, max, Bool-cases, leb, ok, min,
}
use aarch.Memory.MemoryMap.Seq.{MemoryRange, Range, free, overlap}
use aarch.Memory.MemoryMap.Order.{Between}
use aarch.Memory.MemoryMap.Map.{free_part}
use aarch.Memory.MemoryMap.Free.{IsFreePart}
use aarch.Memory.Zones.{Zone, free_page_range}
use aarch.Memory.Start.{memory_page_size}
use aarch.Memory.Start.Filling.{Usable, InRange, Filling, Filling-give, free_page_range-nothing}

-- The limits are those of the zone, which ends below the last page of the address space.
pub record Limits (limits : Range) (zone : Zone) (n : ℕ) : Type 0 where
  pub from : limits.start ≡ zone.freelist.offset * memory_page_size
  pub to : limits.end ≤ (zone.freelist.offset + n) * memory_page_size
  pub room : limits.end + memory_page_size ≤ 2 ^ 64

-- What one round gives.
pub record Given (memory : List MemoryRange) (limits : Range) (zone : Zone) (n c top start end : ℕ)
    : Type 0 where
  pub after : Zone
  pub runs : free_page_range zone (start / memory_page_size) (end / memory_page_size) ≡ ok after
  pub reached : ℕ
  pub filling : Filling memory limits.end after n reached
  pub onward : c ≤ reached
  pub all : start ≤ end → end ≤ (zone.freelist.offset + reached) * memory_page_size
  pub low : (zone.freelist.offset + reached) * memory_page_size ≤ top
  pub place : after.freelist.offset ≡ zone.freelist.offset
  pub space : after.space ≡ zone.space

module _ (memory : List MemoryRange) (limits : Range) (n : ℕ) where
  -- The pages from `start` to `end`, both at the border of a page, are inside the free part.
  pub give_part :
      (zone : Zone) (c lo : ℕ) (m : MemoryRange) (start end top : ℕ)
      → Filling memory limits.end zone n c
      → Limits limits zone n
      → IsFreePart memory limits m
      → (zone.freelist.offset + c) * memory_page_size ≤ max lo (limits.start)
      → lo ≤ m.range.start
      → m.range.end ≤ top
      → start / memory_page_size * memory_page_size ≡ start
      → end / memory_page_size * memory_page_size ≡ end
      → m.range.start ≤ start
      → end ≤ m.range.end
      → ((p : ℕ)
          → c ≤ p
          → Usable memory limits.end (zone.freelist.offset + p)
          → start ≤ (zone.freelist.offset + p) * memory_page_size)
      → Given memory limits zone n c top start end
  give_part zone c lo m start end top f l part bound before behind s e from to passed =
      let o : ℕ = zone.freelist.offset in
      let bottom : o * memory_page_size ≤ m.range.start = omega (arith, l.from, part.low) in
      let high : m.range.end ≤ (o + n) * memory_page_size = omega (arith, l.to, part.high) in
      let reached : (o + c) * memory_page_size ≤ m.range.start =
        omega (arith, bound, before, part.low) in
      elim (Bool-cases (leb start end)) [
        | inr less ↦ record {
          after = zone;
          runs =
              free_page_range-nothing zone (start / memory_page_size) (end / memory_page_size)
                (ground arith);
          reached = c;
          filling = f;
          onward = omega arith;
          all = λ le. absurd (ground arith);
          low = omega (arith, part.whole);
          place = refl;
          space = refl;
        }
        | inl more ↦
            let le : start ≤ end = ground arith in
            let a : ℕ = start / memory_page_size - o in
            let b : ℕ = end / memory_page_size - o in
            let first : start / memory_page_size ≡ o + a = omega arith in
            let last : end / memory_page_size ≡ o + b = omega arith in
            let (after, runs, filling, place, space) =
              Filling-give memory limits.end zone n c a b f (omega arith) (omega arith)
                (omega arith)
                (λ p low up x above below. (m.memtype, part.cells x (omega arith) (omega arith)))
                (λ p low up usable. absurd (omega (arith, passed p low usable))) in
            record {
              after = after;
              runs = ap₂ (λ i j. free_page_range zone i j) first last ∙ runs;
              reached = b;
              filling = filling;
              onward = omega arith;
              all = λ _. omega arith;
              low = omega arith;
              place = place;
              space = space;
            }
      ]

module _ (limits : Range) where
  -- A free range with a page inside the limits is not passed over.
  pub not_skipped :
      (x : MemoryRange) (o p : ℕ)
      → limits.start ≡ o * memory_page_size
      → (o + p) * memory_page_size + memory_page_size ≤ limits.end
      → (x.status ≡ free)
        × (x.range.start ≤ (o + p) * memory_page_size)
        × ((o + p) * memory_page_size + memory_page_size ≤ x.range.end)
      → ¬ (free_part limits x ≡ none)
  unfolding free_part overlap
  not_skipped x o p from to (is_free, low, high) e = ground arith

  -- A page behind those that a round has given is not in its range.
  pub not_first :
      (o p reached start end : ℕ) (x m : MemoryRange) (xs : List MemoryRange)
      → m.range.start ≡ max x.range.start limits.start
      → m.range.end ≡ min x.range.end limits.end
      → limits.start ≡ o * memory_page_size
      → start % memory_page_size ≡ 0
      → start < m.range.start + memory_page_size
      → end % memory_page_size ≡ 0
      → m.range.end < end + memory_page_size
      → (start ≤ end → end ≤ (o + reached) * memory_page_size)
      → reached ≤ p
      → (o + p) * memory_page_size + memory_page_size ≤ limits.end
      → InRange (x ∷ xs) (o + p)
      → InRange xs (o + p)
  not_first o p reached start end x m xs low high from whole above whole' below all le top
        (inl (is_free, under, over)) =
      let before : start ≤ (o + p) * memory_page_size = omega arith in
      let behind : (o + p) * memory_page_size + memory_page_size ≤ end = omega arith in
      absurd (omega (arith, all (omega arith)))
  not_first o p reached start end x m xs low high from whole above whole' below all le top
        (inr later) =
      later

pub InRange-behind :
    (lo hi : ℕ) (xs : List MemoryRange) (page : ℕ)
    → Between lo hi xs
    → InRange xs page
    → lo ≤ page * memory_page_size
InRange-behind lo hi [] page b h = absurd h
InRange-behind lo hi (x ∷ xs) page b (inl h) = omega arith
InRange-behind lo hi (x ∷ xs) page b (inr h) =
    omega (arith, InRange-behind x.range.end hi xs page b.2 h)
