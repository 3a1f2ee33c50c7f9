-- ===== src/Setup/Reserve.antt =====
-- The ranges that kernel/kernel/src/setup.rs reserves are reserved, and stay so.
use aarch.Base.{
  ℕ, ◌≤◌, ◌<◌, true, some, List, [], ◌∷◌, ◌≡◌, refl, ◌∙◌, arith, Steps, Steps-bind, Steps-map,
  Bool-cases, inl, inr, All, u64_max,
}
use aarch.Memory.MemoryMap.Seq.{regular, reserved, range}
use aarch.Memory.MemoryMap.Order.{look, contains}
use aarch.Memory.MemoryMap.Map.{MemoryMap, map_reserve_memory}
use aarch.Memory.MemoryMap.Record.{IsConsistent, Recorded}
use aarch.Setup.{unwrapped, reserve_all}
use aarch.Setup.Calls.{unwrapped-Recorded}

-- The addresses of the range are reserved regular memory.
abbrev pub IsReserved : MemoryMap → ℕ × ℕ → Type 0
IsReserved m (start, end) =
    (a : ℕ) → start ≤ a → a < end → look m.memory a ≡ some (regular, reserved)

Recorded-inside :
    {start end : ℕ} {m m' : MemoryMap}
    → Recorded reserved (range start end) regular m m'
    → IsReserved m' (start, end)
Recorded-inside {start} {end} recorded a p q =
    let covered : contains (range start end) a ≡ true = ground arith in
    recorded.memory_cells a ∙ rw covered refl

Recorded-stays :
    {start end : ℕ} {m m' : MemoryMap}
    → Recorded reserved (range start end) regular m m'
    → (r : ℕ × ℕ) → IsReserved m r
    → IsReserved m' r
Recorded-stays {start} {end} recorded r h a p q = elim (Bool-cases (contains (range start end) a)) [
  | inl covered ↦ recorded.memory_cells a ∙ rw covered refl
  | inr other ↦ recorded.memory_cells a ∙ rw other (h a p q)
]

-- After the call the map is consistent, the ranges are reserved, and so is what was before.
pub record AllReserved (ranges : List (ℕ × ℕ)) (m m' : MemoryMap) : Type 0 where
  pub consistent : IsConsistent m'
  pub all : All (IsReserved m') ranges
  pub stays : (r : ℕ × ℕ) → IsReserved m r → IsReserved m' r

pub reserve_all-AllReserved :
    (ranges : List (ℕ × ℕ)) (m : MemoryMap)
    → All (λ r. r.1 ≤ u64_max) ranges
    → IsConsistent m
    → Steps (AllReserved ranges m) (reserve_all ranges m)
unfolding reserve_all map_reserve_memory
reserve_all-AllReserved [] m fits good = record { consistent = good; all = tt; stays = λ r h. h }
reserve_all-AllReserved ((start, end) ∷ rest) m fits good =
    Steps-bind (Recorded reserved (range start end) regular m) _
      (unwrapped (map_reserve_memory m (range start end) regular)) (reserve_all rest)
      (unwrapped-Recorded reserved m (range start end) regular good fits.0)
      λ m' recorded.
        Steps-map (AllReserved rest m') (AllReserved ((start, end) ∷ rest) m) (reserve_all rest m')
          (reserve_all-AllReserved rest m' fits.1 recorded.consistent)
          λ m'' done. record {
            consistent = done.consistent;
            all = (done.stays (start, end) (Recorded-inside recorded), done.all);
            stays = λ r h. done.stays r (Recorded-stays recorded r h);
          }
