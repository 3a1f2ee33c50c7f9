-- ===== src/Setup/Calls.antt =====
-- The calls of kernel/kernel/src/setup.rs into the memory map, whose errors it unwraps.
use aarch.Base.{
  ◌≤◌, String, List, ◌≡◌, refl, sym, Result, ok, err, panic, stuck, Steps, Calm, Bool-cases, inl,
  inr, u64_max, subst,
}
use aarch.Memory.MemoryMap.Seq.{MemoryType, MemoryStatus, MemoryRange, Range, add_memory, unknown}
use aarch.Memory.MemoryMap.Edges.{conflicts}
use aarch.Memory.MemoryMap.Add.{add_memory-refuses}
use aarch.Memory.MemoryMap.Map.{MemoryMap, mem_range, record_range, and_result, left_behind}
use aarch.Memory.MemoryMap.Record.{IsConsistent, IsFree, Recorded, record_range-Recorded}
use aarch.Setup.{unwrapped}
use aarch.Memory.MemoryMap.Calm.{add_memory-Calm}

refused :
    (P : MemoryMap → Type 0) (m : MemoryMap) (message : String) (second : Result (List MemoryRange))
    → Calm second
    → Steps P (unwrapped (m, and_result (err message) second))
unfolding unwrapped
refused P m message (ok seq) calm = tt
refused P m message (err e) calm = tt
refused P m message panic calm = tt
refused P m message stuck calm = calm

module _ (status : MemoryStatus) (m : MemoryMap) (r : Range) (memtype : MemoryType)
    (good : IsConsistent m) (fits : r.end ≤ u64_max) where
  -- What is to be shown, where the first of the two calls has given `first`.
  Outcome : Result (List MemoryRange) → Type 0
  Outcome first =
      let second = add_memory m.zones (mem_range r memtype unknown) in
      Steps (Recorded status r memtype m) (
        unwrapped (
          record { memory = left_behind m.memory first; zones = left_behind m.zones second },
          and_result first second,
        ))

  Recorded-cases :
      (first : Result (List MemoryRange))
      → add_memory m.memory (mem_range r memtype status) ≡ first
      → Steps (Recorded status r memtype m) (unwrapped (record_range status m r memtype))
  unfolding unwrapped record_range Outcome
  Recorded-cases (ok seq) e =
      let (m', runs, recorded) = record_range-Recorded m r memtype good fits status is_free in
      subst (λ call. Steps (Recorded status r memtype m) (unwrapped call)) (sym runs) recorded
    where
      is_free : IsFree m (mem_range r memtype status)
      is_free a c p q held = elim (Bool-cases (conflicts (mem_range r memtype status) c)) [
        | inr harmless ↦ harmless
        | inl bad ↦
            let (message, stops) =
              add_memory-refuses (mem_range r memtype status) m.memory a c good.memory_ordered fits
                p q held bad in
            cc
      ]
  Recorded-cases (err message) e =
      subst Outcome (sym e)
        (refused (Recorded status r memtype m) _ message _ (add_memory-Calm m.zones _))
  Recorded-cases panic e = subst Outcome (sym e) tt
  Recorded-cases stuck e =
      absurd (subst Calm e (add_memory-Calm m.memory (mem_range r memtype status)))

  -- The call is not stuck, and where its error is unwrapped without a panic the range is recorded.
  pub unwrapped-Recorded :
      Steps (Recorded status r memtype m) (unwrapped (record_range status m r memtype))
  unwrapped-Recorded = Recorded-cases _ refl
