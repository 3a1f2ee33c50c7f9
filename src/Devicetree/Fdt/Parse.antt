-- ===== src/Devicetree/Fdt/Parse.antt =====
-- `parse` of kernel/devicetree/src/fdt.rs comes to an end.
use aarch.Base.{
  ℕ, zero, suc, ◌+◌, ◌-◌, ◌^◌, ◌≤◌, ◌<◌, inl, inr, ap, arith, Bool-cases, All, All-append, List, [],
  ◌∷◌, ◌++◌, ◌&&◌, ◌==◌, ltb, leb, drop, length, length-drop, length-take, u64, u64_max, Calm,
  Steps, Steps-bind, Steps-map, if-Steps, refl, bind-Calm, if-Calm, slice, slice_from, not,
}
use aarch.Devicetree.Scanner.{Scanner, new, consume_be32, consume_be64}
use aarch.Devicetree.Scanner.Numbers.{IsScanner, consume_be64-cases}
use aarch.Devicetree.Tree.{DeviceTree, device_tree_spec_version}
use aarch.Devicetree.Fdt.{
  FdtHeader, parse_header, check_header, reserved_loop, parse_reserved, parse_nodes, parse,
}
use aarch.Devicetree.Fdt.Progress.{Ahead, consume_be32-Calm}
use aarch.Devicetree.Fdt.Rounds.{Pieces}
use aarch.Devicetree.Fdt.Total.{parse_nodes-Pieces}

parse_header-Calm : (fdt : List ℕ) → Calm (parse_header fdt)
unfolding parse_header
parse_header-Calm fdt = bind-Calm (consume_be32 (new fdt)) _ (consume_be32-Calm (new fdt)) λ a.
    bind-Calm (consume_be32 a.1) _ (consume_be32-Calm a.1) λ b.
      bind-Calm (consume_be32 b.1) _ (consume_be32-Calm b.1) λ c.
        bind-Calm (consume_be32 c.1) _ (consume_be32-Calm c.1) λ d.
          bind-Calm (consume_be32 d.1) _ (consume_be32-Calm d.1) λ e.
            bind-Calm (consume_be32 e.1) _ (consume_be32-Calm e.1) λ f.
              bind-Calm (consume_be32 f.1) _ (consume_be32-Calm f.1) λ g.
                bind-Calm (consume_be32 g.1) _ (consume_be32-Calm g.1) λ h.
                  bind-Calm (consume_be32 h.1) _ (consume_be32-Calm h.1)
                    λ i. bind-Calm (consume_be32 i.1) _ (consume_be32-Calm i.1) (λ j. tt)

check_header-Calm : (header : FdtHeader) (size : ℕ) → Calm (check_header header size)
unfolding check_header
check_header-Calm header size = if-Calm (not (header.magic == 0xd00dfeed)) _ _ tt (
    if-Calm (ltb device_tree_spec_version header.last_comp_version) _ _ tt
      (if-Calm (ltb size header.totalsize) _ _ tt tt))

-- A piece of the data is no longer than the data.
slice-short :
    (xs : List ℕ) (lo hi : ℕ) → Steps (λ (ys : List ℕ). length ys ≤ length xs) (slice xs lo hi)
slice-short xs lo hi = elim (Bool-cases (leb lo hi && leb hi (length xs))) [
  | inl inside ↦ rw inside (omega (arith, length-take (hi - lo) (drop lo xs), length-drop lo xs))
  | inr out ↦ rw out tt
]

slice_from-short :
    (xs : List ℕ) (lo : ℕ) → Steps (λ (ys : List ℕ). length ys ≤ length xs) (slice_from xs lo)
slice_from-short xs lo = elim (Bool-cases (leb lo (length xs))) [
  | inl inside ↦ rw inside (omega (arith, length-drop lo xs))
  | inr out ↦ rw out tt
]

-- The ranges end below 2^64.
abbrev pub SmallEnds : List (ℕ × ℕ) → Type 0
SmallEnds = All (λ r. r.1 ≤ u64_max)

consume_be64-Ahead :
    (s : Scanner)
    → IsScanner s
    → Steps (λ r. Ahead s r.1 × (s.offset + 8 ≤ r.1.offset)) (consume_be64 s)
consume_be64-Ahead s good = elim (consume_be64-cases s good) [
  | inl stops ↦ rw stops tt
  | inr (v, runs, room) ↦ rw runs (
    record {
      good = record { inside = room; sized = good.sized };
      same = refl;
      forward = omega arith;
    },
    omega arith,
  )
]

reserved_loop-SmallEnds :
    (fuel : ℕ) (s : Scanner) (reserved : List (ℕ × ℕ))
    → IsScanner s
    → length s.bytes - s.offset < fuel
    → SmallEnds reserved
    → Steps SmallEnds (reserved_loop fuel s reserved)
unfolding reserved_loop
reserved_loop-SmallEnds zero s reserved good enough small = absurd (omega arith)
reserved_loop-SmallEnds (suc fuel) s reserved good enough small =
    Steps-bind (λ r. Ahead s r.1 × (s.offset + 8 ≤ r.1.offset)) SmallEnds (consume_be64 s) _
      (consume_be64-Ahead s good)
      λ a p.
        Steps-bind (λ r. Ahead a.1 r.1 × (a.1.offset + 8 ≤ r.1.offset)) SmallEnds (consume_be64 a.1)
          _ (consume_be64-Ahead a.1 p.0.good)
          λ b q. if-Steps SmallEnds (a.0 == 0 && b.0 == 0) _ _ small (
            reserved_loop-SmallEnds fuel b.1 (reserved ++ (a.0, u64 (a.0 + b.0)) ∷ []) q.0.good
              (omega (
                arith,
                ap length p.0.same,
                ap length q.0.same,
                p.1,
                q.1,
                q.0.good.inside,
                p.0.good.inside,
              ))
              (All-append (λ r. r.1 ≤ u64_max) reserved ((a.0, u64 (a.0 + b.0)) ∷ []) small
                (omega arith, tt)))

parse_reserved-SmallEnds :
    (bytes : List ℕ) → length bytes < 2 ^ 63 → Steps SmallEnds (parse_reserved bytes)
unfolding parse_reserved
parse_reserved-SmallEnds bytes sized =
    reserved_loop-SmallEnds (suc (length bytes)) (new bytes) []
      (record { inside = omega arith; sized = sized }) (omega arith) tt

-- A tree whose reserved ranges end below 2^64, and whose values are pieces of a block of data that is
-- no longer than what has been parsed.
pub record IsParsed (fdt : List ℕ) (dt : DeviceTree) : Type 0 where
  pub small_ends : SmallEnds dt.reserved
  pub structs : List ℕ
  pub short : length structs ≤ length fdt
  pub pieces : Pieces structs dt.root

-- For every flattened device tree shorter than 2^63 bytes, parse ends, and unless it gives an
-- error or panics, the reserved ranges of the tree end below 2^64, and the value of each
-- property of each node is a piece of one block of data that is no longer than the whole.
pub parse-IsParsed : (fdt : List ℕ) → length fdt < 2 ^ 63 → Steps (IsParsed fdt) (parse fdt)
unfolding parse
parse-IsParsed fdt sized =
    Steps-bind (λ _. Unit {0}) (IsParsed fdt) (parse_header fdt) _ (parse_header-Calm fdt)
      λ header _.
        Steps-bind (λ _. Unit {0}) (IsParsed fdt) (check_header header (length fdt)) _
          (check_header-Calm header (length fdt))
          λ _ _.
            Steps-bind (λ (ys : List ℕ). length ys ≤ length fdt) (IsParsed fdt)
              (slice_from fdt header.off_mem_rsvmap) _ (slice_from-short fdt header.off_mem_rsvmap)
              λ map low.
                Steps-bind SmallEnds (IsParsed fdt) (parse_reserved map) _
                  (parse_reserved-SmallEnds map (omega arith))
                  λ reserved small.
                    Steps-bind (λ (ys : List ℕ). length ys ≤ length fdt) (IsParsed fdt)
                      (slice fdt header.off_dt_struct
                        (header.off_dt_struct + header.size_dt_struct))
                      _
                      (slice-short fdt header.off_dt_struct
                        (header.off_dt_struct + header.size_dt_struct))
                      λ structs low'.
                        Steps-bind (λ _. Unit {0}) (IsParsed fdt)
                          (slice fdt header.off_dt_strings
                            (header.off_dt_strings + header.size_dt_strings))
                          _
                          (Steps-map (λ (ys : List ℕ). length ys ≤ length fdt) (λ _. Unit {0})
                            (slice fdt header.off_dt_strings
                              (header.off_dt_strings + header.size_dt_strings))
                            (slice-short fdt header.off_dt_strings
                              (header.off_dt_strings + header.size_dt_strings))
                            (λ _ _. tt))
                          λ strings _.
                            Steps-bind (Pieces structs) (IsParsed fdt) (parse_nodes structs strings)
                              _ (parse_nodes-Pieces structs strings (omega arith))
                              λ root pieces. record {
                                small_ends = small;
                                structs = structs;
                                short = low';
                                pieces = pieces;
                              }
