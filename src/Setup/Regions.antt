-- ===== src/Setup/Regions.antt =====
-- The loops of kernel/kernel/src/setup.rs keep the map consistent, and end.
use aarch.Base.{
  ℕ, zero, suc, ◌+◌, ◌-◌, ◌≤◌, ◌<◌, ◌^◌, none, some, List, ◌≡◌, ◌⊎◌, inl, inr, refl, ap, ◌∙◌, arith,
  Steps, Steps-bind, Bool-cases, Option-cases, u64, length, unwrap, ltb, ◌==◌,
}
use aarch.Devicetree.Scanner.{
  AddressSpace, Scanner, new, remains, consume_cells, consume_address, consume_size,
}
use aarch.Devicetree.Scanner.Numbers.{IsScanner, consume_be32-cases, consume_be64-cases}
use aarch.Devicetree.Tree.{DeviceTreeNode, Nodes, nil, entry, Text, property, properties, get}
use aarch.Memory.MemoryMap.Seq.{regular, range, free}
use aarch.Memory.MemoryMap.Map.{MemoryMap, map_add_memory}
use aarch.Memory.MemoryMap.Record.{IsConsistent, Recorded}
use aarch.Setup.{reg_name, unwrapped, regions_loop, nodes_regions, is_memory}
use aarch.Setup.Calls.{unwrapped-Recorded}

-- A number of cells has been read: the scanner is a good one, and has moved if there are cells.
Moved : ℕ → Scanner → Scanner → Type 0
Moved cells s s' =
    IsScanner s'
    × (s'.bytes ≡ s.bytes)
    × (s.offset ≤ s'.offset)
    × (0 < cells → s.offset < s'.offset)

cells-Moved :
    (cells : ℕ) (s : Scanner)
    → IsScanner s
    → Steps (λ r. Moved cells s r.1) (unwrap (consume_cells cells s))
unfolding consume_cells Moved
cells-Moved cells s good = elim (Bool-cases (cells == 0)) [
  | inl none_at_all ↦ rw none_at_all (good, refl, omega arith, λ h. absurd (ground arith))
  | inr some_cells ↦ elim (Bool-cases (cells == 1)) [
    | inl one ↦
        rw (some_cells, one)
          (elim (consume_be32-cases s good) [
            | inl short ↦ rw short tt
            | inr (v, runs, room) ↦
                rw runs (
                  record { inside = room; sized = good.sized },
                  refl,
                  omega arith,
                  λ h. omega arith,
                )
          ])
    | inr more ↦ elim (Bool-cases (cells == 2)) [
      | inr other ↦ rw (some_cells, more, other) tt
      | inl two ↦
          rw (some_cells, more, two)
            (elim (consume_be64-cases s good) [
              | inl short ↦ rw short tt
              | inr (v, runs, room) ↦ rw runs (
                record { inside = room; sized = good.sized },
                refl,
                omega arith,
                λ h. omega arith,
              )
            ])
    ]
  ]
]

-- Two numbers have been read, which have a cell together: fewer bytes remain.
Moved-shorter :
    (cells cells' fuel : ℕ) (s s' s'' : Scanner)
    → Moved cells s s'
    → Moved cells' s' s''
    → 0 < cells + cells'
    → length s.bytes - s.offset < suc fuel
    → length s''.bytes - s''.offset < fuel
unfolding Moved
Moved-shorter cells cells' fuel s s' s'' p q progress enough =
    let same : length s''.bytes ≡ length s.bytes = ap length (q.1 ∙ p.1) in
    let inside : s''.offset ≤ length s''.bytes = q.0.inside in
    let further : s.offset < s''.offset = elim (Bool-cases (ltb 0 cells)) [
      | inl first ↦
          (let h : s.offset < s'.offset = p.3 (ground arith) in
            let k : s'.offset ≤ s''.offset = q.2 in omega arith)
      | inr other ↦
          (let h : s'.offset < s''.offset = q.3 (ground arith) in
            let k : s.offset ≤ s'.offset = p.2 in omega arith)
    ] in
    omega arith

module _ (space : AddressSpace) (progress : 0 < space.address_cells + space.size_cells) where
  regions_loop-IsConsistent :
      (fuel : ℕ) (reg : Scanner) (m : MemoryMap)
      → IsScanner reg
      → IsConsistent m
      → length reg.bytes - reg.offset < fuel
      → Steps IsConsistent (regions_loop fuel space reg m)
  unfolding regions_loop map_add_memory Moved
  regions_loop-IsConsistent zero reg m scanner good enough = absurd (omega arith)
  regions_loop-IsConsistent (suc fuel) reg m scanner good enough =
      elim (Bool-cases (ltb 0 (remains reg))) [
        | inr over ↦ rw over good
        | inl more ↦ rw more (
            Steps-bind (λ r. Moved space.address_cells reg r.1) IsConsistent
              (unwrap (consume_address reg space)) _ (cells-Moved space.address_cells reg scanner)
              λ a p.
                Steps-bind (λ r. Moved space.size_cells a.1 r.1) IsConsistent
                  (unwrap (consume_size a.1 space)) _ (cells-Moved space.size_cells a.1 p.0)
                  λ b q.
                    Steps-bind (Recorded free _ regular m) IsConsistent
                      (unwrapped (map_add_memory m _ regular)) _
                      (unwrapped-Recorded free m (range a.0 (u64 (a.0 + b.0))) regular good
                        (omega arith))
                      λ m' recorded. regions_loop-IsConsistent fuel b.1 m' q.0 recorded.consistent (
                        Moved-shorter space.address_cells space.size_cells fuel reg a.1 b.1 p q
                          progress enough))
      ]

-- The values of the `reg` properties are no longer than a Rust slice may be.
abbrev pub SizedRegs : Nodes → Type 0
SizedRegs nil = Unit
SizedRegs (entry unitname n others) =
    ((v : List ℕ) → get reg_name (properties n) ≡ some v → length v < 2 ^ 63) × SizedRegs others

property-cases :
    (n : DeviceTreeNode) (name : Text)
    → (property n name ≡ none)
      ⊎ ((v : List ℕ) × (get name (properties n) ≡ some v) × (property n name ≡ some (new v)))
unfolding property
property-cases n name = elim (Option-cases (get name (properties n))) [
  | inl missing ↦ inl (rw (missing, property) refl)
  | inr (v, held) ↦ inr (v, held, rw (held, property) refl)
]

pub nodes_regions-IsConsistent :
    (space : AddressSpace) (nodes : Nodes) (m : MemoryMap)
    → 0 < space.address_cells + space.size_cells
    → SizedRegs nodes
    → IsConsistent m
    → Steps IsConsistent (nodes_regions space nodes m)
unfolding nodes_regions
nodes_regions-IsConsistent space nil m progress sized good = good
nodes_regions-IsConsistent space (entry unitname n others) m progress sized good =
    elim (Bool-cases (is_memory unitname)) [
      | inr other ↦ rw other (nodes_regions-IsConsistent space others m progress sized.1 good)
      | inl memory ↦ rw memory (elim (property-cases n reg_name) [
        | inl missing ↦ rw missing tt
        | inr (v, held, found) ↦ rw found (
            Steps-bind IsConsistent IsConsistent (regions_loop (suc (length v)) space (new v) m) _
              (regions_loop-IsConsistent space progress (suc (length v)) (new v) m
                (record { inside = omega arith; sized = sized.0 v held }) good (omega arith))
              λ m' good'. nodes_regions-IsConsistent space others m' progress sized.1 good')
      ])
    ]
