-- ===== src/Devicetree/Fdt/Blob.antt =====
-- `parse` of kernel/devicetree/src/fdt.rs reads a whole device tree blob that has been printed.
use mathlib.Core.List.{append_assoc}
use aarch.Base.{
  ℕ, ◌+◌, ◌^◌, ◌≤◌, ◌<◌, ◌≡◌, refl, sym, ap, ◌∙◌, arith, false, List, [], ◌++◌, All, map, length,
  length-append, append-nil, Result, ok, ◌>>=◌, slice, slice_from, ltb,
}
use aarch.Base.Slices.{slice-middle, le→leb}
use aarch.Devicetree.Tree.{DeviceTreeNode, new_node}
use aarch.Devicetree.Fdt.{FdtHeader, parse_header, check_header, parse_reserved, parse_nodes, parse}
use aarch.Devicetree.Fdt.Reserved.{block_bytes, IsEntry, as_range, parse_reserved-block_bytes}
use aarch.Devicetree.Fdt.Print.{print}
use aarch.Devicetree.Fdt.Trees.{Source, flatten, build, CanPrint, parse_nodes-build}
use aarch.Devicetree.Fdt.Header.{header_bytes, IsHeader, parse_header-header_bytes}

-- The header of a blob whose parts stand one behind the other.
abbrev pub header_of : List ℕ → List ℕ → List ℕ → ℕ → ℕ → FdtHeader
header_of block structs strings last_comp_version boot_cpuid_phys = record {
  magic = 0xd00dfeed;
  totalsize = 40 + length block + length structs + length strings;
  off_dt_struct = 40 + length block;
  off_dt_strings = 40 + length block + length structs;
  off_mem_rsvmap = 40;
  version = 17;
  last_comp_version = last_comp_version;
  boot_cpuid_phys = boot_cpuid_phys;
  size_dt_strings = length strings;
  size_dt_struct = length structs;
}

abbrev pub blob_of : List ℕ → List ℕ → List ℕ → ℕ → ℕ → List ℕ
blob_of block structs strings last_comp_version boot_cpuid_phys =
    header_bytes (header_of block structs strings last_comp_version boot_cpuid_phys)
    ++ (block ++ (structs ++ strings))

module _ (block structs strings : List ℕ) (last boot : ℕ) (old : last ≤ 17) (low : boot < 2 ^ 32)
    (fits : 40 + length block + length structs + length strings < 2 ^ 32) where
  abbrev header : FdtHeader
  header = header_of block structs strings last boot

  abbrev blob : List ℕ
  blob = blob_of block structs strings last boot

  header-IsHeader : IsHeader header
  header-IsHeader = record {
    magic = omega arith;
    totalsize = fits;
    off_dt_struct = omega arith;
    off_dt_strings = omega arith;
    off_mem_rsvmap = omega arith;
    version = omega arith;
    last_comp_version = omega arith;
    boot_cpuid_phys = low;
    size_dt_strings = omega arith;
    size_dt_struct = omega arith;
  }

  length-blob : length blob ≡ 40 + length block + length structs + length strings
  length-blob =
      omega (arith, length-append block (structs ++ strings), length-append structs strings)

  header_read : parse_header blob ≡ ok header
  header_read =
      parse_header-header_bytes header (block ++ (structs ++ strings)) header-IsHeader
        (omega (arith, length-blob))

  header_passes : check_header header (length blob) ≡ ok tt
  unfolding check_header
  header_passes =
      let new_enough : ltb 17 last ≡ false = ground arith in
      let whole : ltb (length blob) header.totalsize ≡ false = ground (arith, length-blob) in
      rw (new_enough, whole) refl

  block_part : slice_from blob 40 ≡ ok (block ++ (structs ++ strings))
  block_part = rw (le→leb 40 (length blob) (omega (arith, length-blob))) refl

  structs_part :
      slice blob header.off_dt_struct (header.off_dt_struct + header.size_dt_struct) ≡ ok structs
  structs_part =
      ap (λ b. slice b header.off_dt_struct (header.off_dt_struct + header.size_dt_struct))
        (sym (append_assoc (header_bytes header) block (structs ++ strings)))
      ∙ slice-middle (header_bytes header ++ block) structs strings header.off_dt_struct
          (header.off_dt_struct + header.size_dt_struct)
          (omega (arith, length-append (header_bytes header) block))
          (omega (arith, length-append (header_bytes header) block))

  strings_part :
      slice blob header.off_dt_strings (header.off_dt_strings + header.size_dt_strings) ≡ ok strings
  strings_part =
      let size : length (header_bytes header ++ (block ++ structs))
          ≡ 40 + length block + length structs =
        omega (arith, length-append block structs) in
      ap (λ b. slice b header.off_dt_strings (header.off_dt_strings + header.size_dt_strings))
        (ap (λ t. header_bytes header ++ t)
            (sym (append_assoc block structs strings)
              ∙ ap (λ t. (block ++ structs) ++ t) (sym (append-nil strings)))
          ∙ sym (append_assoc (header_bytes header) (block ++ structs) (strings ++ [])))
      ∙ slice-middle (header_bytes header ++ (block ++ structs)) strings [] header.off_dt_strings
          (header.off_dt_strings + header.size_dt_strings) (omega (arith, size))
          (omega (arith, size))

parse-parts :
    (fdt : List ℕ) (h : FdtHeader) (block structs strings : List ℕ) (reserved : List (ℕ × ℕ))
    (root : Result DeviceTreeNode)
    → parse_header fdt ≡ ok h
    → check_header h (length fdt) ≡ ok tt
    → slice_from fdt h.off_mem_rsvmap ≡ ok block
    → parse_reserved block ≡ ok reserved
    → slice fdt h.off_dt_struct (h.off_dt_struct + h.size_dt_struct) ≡ ok structs
    → slice fdt h.off_dt_strings (h.off_dt_strings + h.size_dt_strings) ≡ ok strings
    → parse_nodes structs strings ≡ root
    → parse fdt ≡ (
        root >>= λ root. ok (record {
          reserved = reserved;
          root = root;
          last_comp_version = h.last_comp_version;
          boot_cpuid_phys = h.boot_cpuid_phys;
        }))
unfolding parse
parse-parts fdt h block structs strings reserved root e1 e2 e3 e4 e5 e6 e7 =
    rw (e1, e2, e3, e4, e5, e6, e7) refl

-- The blob of a header, a reservation block of entries that are not all zeros and whose ends
-- fit 64 bits, the printed structure block of a tree whose names are UTF-8 without zeros and
-- whose numbers fit 32 bits, and any strings block, less than 2^32 bytes in all, with a last
-- compatible version of at most 17 and a boot CPU of 32 bits, is parsed to what building the
-- tree gives, with the ranges of the entries; the errors and panics of building are those of
-- parse.
pub parse-blob_of :
    (items : List (ℕ × ℕ)) (tree : Source) (strings : List ℕ) (last boot : ℕ)
    → All IsEntry items
    → CanPrint [] tree
    → last ≤ 17
    → boot < 2 ^ 32
    → 40 + length (block_bytes items) + length (print (flatten [] tree []) []) + length strings
      < 2 ^ 32
    → parse (blob_of (block_bytes items) (print (flatten [] tree []) []) strings last boot) ≡ (
        build strings tree new_node >>= λ root. ok (record {
          reserved = map as_range items;
          root = root;
          last_comp_version = last;
          boot_cpuid_phys = boot;
        }))
parse-blob_of items tree strings last boot good printable old low fits =
    let structs : List ℕ = print (flatten [] tree []) [] in
    let block : List ℕ = block_bytes items in
    let reserved : parse_reserved (block ++ (structs ++ strings)) ≡ ok (map as_range items) =
      parse_reserved-block_bytes items (structs ++ strings) good (
        omega
          (arith, length-append block (structs ++ strings), length-append structs strings, fits)) in
    let nodes : parse_nodes structs strings ≡ build strings tree new_node =
      parse_nodes-build strings tree [] printable (omega (arith, fits)) in
    parse-parts (blob_of block structs strings last boot)
      (header_of block structs strings last boot) (block ++ (structs ++ strings)) structs strings
      (map as_range items) (build strings tree new_node)
      (header_read block structs strings last boot old low fits)
      (header_passes block structs strings last boot old low fits)
      (block_part block structs strings last boot old low fits) reserved
      (structs_part block structs strings last boot old low fits)
      (strings_part block structs strings last boot old low fits) nodes
