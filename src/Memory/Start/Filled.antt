-- ===== src/Memory/Start/Filled.antt =====
-- The loop of `Memory::new` of kernel/memory/src/lib.rs over the free memory of a zone.
use aarch.Base.{
  ℕ, ◌+◌, ◌*◌, ◌/◌, ◌≤◌, ◌≡◌, inl, inr, refl, sym, ap, ◌∙◌, arith, subst, none, some, List, [], ◌∷◌,
  max, Option-cases, ok, bind-ok, u64_max, ◌>>=◌, Result,
}
use aarch.Numeric.{align_up, align_down}
use aarch.Numeric.Align.{align_up-least, align_down-greatest}
use aarch.Memory.MemoryMap.Seq.{MemoryRange, Range}
use aarch.Memory.MemoryMap.Order.{Between}
use aarch.Memory.MemoryMap.Map.{free_part}
use aarch.Memory.MemoryMap.Free.{Within, IsFreePart-Within, first-Taken, skip-Within, free_part-eq}
use aarch.Memory.Zones.{Zone, free_page_range}
use aarch.Memory.Start.{free_loop, memory_page_size}
use aarch.Memory.Start.Filling.{Usable, InRange, Filling}
use aarch.Memory.Start.Part.{Limits, give_part, not_skipped, not_first, InRange-behind}

module _ (memory : List MemoryRange) (limits : Range) (n : ℕ) where
  -- Where the loop ends.
  pub record Ended (zone : Zone) (xs : List MemoryRange) : Type 0 where
    pub after : Zone
    pub runs : free_loop limits xs zone ≡ ok after
    pub reached : ℕ
    pub filling : Filling memory limits.end after n reached
    pub done : (p : ℕ) → reached ≤ p → ¬ Usable memory limits.end (after.freelist.offset + p)
    pub place : after.freelist.offset ≡ zone.freelist.offset
    pub space : after.space ≡ zone.space

  round :
      (zone : Zone) (x m : MemoryRange) (xs : List MemoryRange) (start end : ℕ) (given : Zone)
      → free_part limits x ≡ some m
      → align_up m.range.start memory_page_size ≡ ok start
      → align_down m.range.end memory_page_size ≡ ok end
      → free_page_range zone (start / memory_page_size) (end / memory_page_size) ≡ ok given
      → free_loop limits (x ∷ xs) zone ≡ free_loop limits xs given
  unfolding free_loop
  round zone x m xs start end given found up down runs =
      rw (found, free_loop)
        (bind-ok (align_up m.range.start memory_page_size) after_up up (
          bind-ok (align_down m.range.end memory_page_size) (after_down start) down (
            bind-ok (free_page_range zone (start / memory_page_size) (end / memory_page_size))
              (free_loop limits xs) runs refl)))
    where
      after_down : ℕ → ℕ → Result Zone
      after_down start' end' = do
        zone' ← free_page_range zone (start' / memory_page_size) (end' / memory_page_size)
        free_loop limits xs zone'

      after_up : ℕ → Result Zone
      after_up start' = do end' ← align_down m.range.end memory_page_size; after_down start' end'

  -- The system after a round, which does not pass the end of the range.
  record Stepped (zone : Zone) (x : MemoryRange) (xs : List MemoryRange) : Type 0 where
    after : Zone
    runs : free_loop limits (x ∷ xs) zone ≡ free_loop limits xs after
    reached : ℕ
    filling : Filling memory limits.end after n reached
    ahead :
        (p : ℕ)
        → reached ≤ p
        → Usable memory limits.end (after.freelist.offset + p)
        → InRange xs (after.freelist.offset + p)
    low : (after.freelist.offset + reached) * memory_page_size ≤ max x.range.end limits.start
    place : after.freelist.offset ≡ zone.freelist.offset
    space : after.space ≡ zone.space

  step_skipped :
      (zone : Zone) (c lo : ℕ) (x : MemoryRange) (xs : List MemoryRange)
      → Filling memory limits.end zone n c
      → (zone.freelist.offset + c) * memory_page_size ≤ max lo limits.start
      → lo ≤ x.range.end
      → free_part limits x ≡ none
      → Limits limits zone n
      → ((p : ℕ)
          → c ≤ p
          → Usable memory limits.end (zone.freelist.offset + p)
          → InRange (x ∷ xs) (zone.freelist.offset + p))
      → Stepped zone x xs
  unfolding free_loop
  step_skipped zone c lo x xs f bound le skipped l coming = record {
    after = zone;
    runs = rw (skipped, free_loop) refl;
    reached = c;
    filling = f;
    ahead = λ p from usable. elim (coming p from usable) [
      | inr later ↦ later
      | inl inside ↦
          absurd (not_skipped limits x zone.freelist.offset p l.from usable.0 inside skipped)
    ];
    low = omega arith;
    place = refl;
    space = refl;
  }

  step_given :
      (zone : Zone) (c lo : ℕ) (x m : MemoryRange) (xs : List MemoryRange)
      → Filling memory limits.end zone n c
      → Limits limits zone n
      → (zone.freelist.offset + c) * memory_page_size ≤ max lo limits.start
      → Between lo u64_max (x ∷ xs)
      → Within (x ∷ xs) memory
      → free_part limits x ≡ some m
      → ((p : ℕ)
          → c ≤ p
          → Usable memory limits.end (zone.freelist.offset + p)
          → InRange (x ∷ xs) (zone.freelist.offset + p))
      → Stepped zone x xs
  step_given zone c lo x m xs f l bound b w found coming =
      let k = first-Taken limits lo u64_max x xs m b found in
      let (is_free, same_type, low, high, whole) = free_part-eq limits x m found in
      let (start, up, start_whole, from, from') =
        align_up-least m.range.start memory_page_size (omega (arith, l.room, k.part.high))
          (12, omega arith, refl) in
      let (end, down, end_whole, to, to') =
        align_down-greatest m.range.end memory_page_size (omega (arith, k.top))
          (12, omega arith, refl) in
      let g =
        give_part memory limits n zone c lo m start end x.range.end f l (IsFreePart-Within w k.part)
          bound (omega arith) (omega arith) (omega arith) (omega arith) from to
          (λ p c_le usable. elim (coming p c_le usable) [
            | inl (free_there, under, over) ↦ omega (arith, l.from, under, low)
            | inr later ↦ omega (
              arith,
              low,
              high,
              whole,
              InRange-behind x.range.end u64_max xs (zone.freelist.offset + p) b.2 later,
            )
          ]) in
      record {
        after = g.after;
        runs = round zone x m xs start end g.after found up down g.runs;
        reached = g.reached;
        filling = g.filling;
        ahead = λ p le usable.
            subst (λ o. InRange xs (o + p)) (sym g.place)
              (not_first limits zone.freelist.offset p g.reached start end x m xs low high l.from
                start_whole from' end_whole to' g.all le
                (subst (λ o. Usable memory limits.end (o + p)) g.place usable).0
                (coming p (omega (arith, g.onward))
                  (subst (λ o. Usable memory limits.end (o + p)) g.place usable)));
        low = omega (arith, g.low, g.place);
        place = g.place;
        space = g.space;
      }

  step :
      (zone : Zone) (c lo : ℕ) (x : MemoryRange) (xs : List MemoryRange)
      → Filling memory limits.end zone n c
      → Limits limits zone n
      → (zone.freelist.offset + c) * memory_page_size ≤ max lo limits.start
      → Between lo u64_max (x ∷ xs)
      → Within (x ∷ xs) memory
      → ((p : ℕ)
          → c ≤ p
          → Usable memory limits.end (zone.freelist.offset + p)
          → InRange (x ∷ xs) (zone.freelist.offset + p))
      → Stepped zone x xs
  step zone c lo x xs f l bound b w coming = elim (Option-cases (free_part limits x)) [
    | inl skipped ↦ step_skipped zone c lo x xs f bound (omega arith) skipped l coming
    | inr (m, found) ↦ step_given zone c lo x m xs f l bound b w found coming
  ]

  after_step :
      (zone : Zone) (x : MemoryRange) (xs : List MemoryRange) (s : Stepped zone x xs)
      → Ended s.after xs
      → Ended zone (x ∷ xs)
  after_step zone x xs s rest = record {
    after = rest.after;
    runs = s.runs ∙ rest.runs;
    reached = rest.reached;
    filling = rest.filling;
    done = rest.done;
    place = rest.place ∙ s.place;
    space = rest.space ∙ s.space;
  }

  moved :
      (zone other : Zone)
      → other.freelist.offset ≡ zone.freelist.offset
      → Limits limits zone n
      → Limits limits other n
  moved zone other e l = record {
    from = l.from ∙ ap (λ o. o * memory_page_size) (sym e);
    to = omega (arith, l.to, e);
    room = l.room;
  }

  pub free_loop-Ended :
      (zone : Zone) (c lo : ℕ) (xs : List MemoryRange)
      → Filling memory limits.end zone n c
      → Limits limits zone n
      → (zone.freelist.offset + c) * memory_page_size ≤ max lo limits.start
      → Between lo u64_max xs
      → Within xs memory
      → ((p : ℕ)
          → c ≤ p
          → Usable memory limits.end (zone.freelist.offset + p)
          → InRange xs (zone.freelist.offset + p))
      → Ended zone xs
  unfolding free_loop
  free_loop-Ended zone c lo [] f l bound b w coming = record {
    after = zone;
    runs = refl;
    reached = c;
    filling = f;
    done = λ p from usable. coming p from usable;
    place = refl;
    space = refl;
  }
  free_loop-Ended zone c lo (x ∷ xs) f l bound b w coming =
      let s = step zone c lo x xs f l bound b w coming in
      after_step zone x xs s (
        free_loop-Ended s.after s.reached x.range.end xs s.filling (moved zone s.after s.place l)
          s.low b.2 (λ a t e. w a t (skip-Within limits lo u64_max x xs b a t e)) s.ahead)
