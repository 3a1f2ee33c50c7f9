-- ===== src/Devicetree/Fdt.antt =====
-- kernel/devicetree/src/fdt.rs: the parser of flattened device trees.
pub mod Reserved
pub mod Progress
pub mod Rounds
pub mod Total
pub mod Parse
pub mod Reads
pub mod Print
pub mod Header
pub mod Property
pub mod Printed
pub mod Trees
pub mod Blob
mod Tests
use aarch.Base.{
  ℕ, zero, suc, ◌+◌, Bool, true, false, not, ◌&&◌, Option, none, some, List, [], ◌∷◌, ◌++◌, ltb,
  leb, ◌==◌, if◌then◌else◌, length, u64, Result, ok, err, panic, stuck, ◌>>=◌, ◌>>◌, slice,
  slice_from,
}
use aarch.Devicetree.Scanner.{
  Scanner, new, consume_be32, consume_be64, consume_cstr, consume_data, align_forward,
}
use aarch.Devicetree.Tree.{
  Text, DeviceTreeNode, new_node, new_child, add_child, remove_child, add_property, DeviceTree,
  device_tree_spec_version,
}

pub record FdtHeader : Type 0 where
  pub magic : ℕ
  pub totalsize : ℕ
  pub off_dt_struct : ℕ
  pub off_dt_strings : ℕ
  pub off_mem_rsvmap : ℕ
  pub version : ℕ
  pub last_comp_version : ℕ
  pub boot_cpuid_phys : ℕ
  pub size_dt_strings : ℕ
  pub size_dt_struct : ℕ

unfoldable pub parse_header : List ℕ → Result FdtHeader
unfolding consume_be32
parse_header fdt = do
  (magic, s) ← consume_be32 (new fdt)
  (totalsize, s) ← consume_be32 s
  (off_dt_struct, s) ← consume_be32 s
  (off_dt_strings, s) ← consume_be32 s
  (off_mem_rsvmap, s) ← consume_be32 s
  (version, s) ← consume_be32 s
  (last_comp_version, s) ← consume_be32 s
  (boot_cpuid_phys, s) ← consume_be32 s
  (size_dt_strings, s) ← consume_be32 s
  (size_dt_struct, s) ← consume_be32 s
  ok (record {
    magic = magic;
    totalsize = totalsize;
    off_dt_struct = off_dt_struct;
    off_dt_strings = off_dt_strings;
    off_mem_rsvmap = off_mem_rsvmap;
    version = version;
    last_comp_version = last_comp_version;
    boot_cpuid_phys = boot_cpuid_phys;
    size_dt_strings = size_dt_strings;
    size_dt_struct = size_dt_struct;
  })

-- The loop of `parse_reserved`; a range is its start and its end, which wraps.
unfoldable pub reserved_loop : ℕ → Scanner → List (ℕ × ℕ) → Result (List (ℕ × ℕ))
reserved_loop zero s reserved = stuck
reserved_loop (suc fuel) s reserved = do
  (addr, s) ← consume_be64 s
  (size, s) ← consume_be64 s
  let rest = reserved_loop fuel s (reserved ++ (addr, u64 (addr + size)) ∷ [])
  if addr == 0 && size == 0 then ok reserved else rest

-- A round takes 16 bytes, so a round for each byte and one more are enough.
unfoldable pub parse_reserved : List ℕ → Result (List (ℕ × ℕ))
unfolding reserved_loop consume_be64
parse_reserved bytes = reserved_loop (suc (length bytes)) (new bytes) []

-- The parser's state; the last of the `parents` stands first.
pub record State : Type 0 where
  pub parents : List (Text × DeviceTreeNode)
  pub current : DeviceTreeNode

abbrev pub new_state : State
new_state = record { parents = []; current = new_node }

unfoldable pub begin_node : State → Text → State
begin_node s name = record {
  parents = (name, s.current) ∷ s.parents;
  current = new_child s.current;
}

unfoldable pub end_node : State → Result State
unfolding add_child
end_node s = elim s.parents [
  | [] ↦ err "Unmatched end of node token found in FDT."
  | (name, parent) ∷ rest ↦
      ok (record { parents = rest; current = add_child parent name s.current })
]

unfoldable pub new_property : State → Text → List ℕ → Result State
unfolding add_property
new_property s name value = do
  current ← add_property s.current name value
  ok (record s { current = current })

unfoldable pub finish : State → Result DeviceTreeNode
unfolding remove_child
finish s = elim s.parents [
  | _ ∷ _ ↦ err "Parsed FDT contains unfinished nodes."
  | [] ↦ elim ((remove_child s.current []).1) [
    | some root ↦ ok root
    | none ↦ err "FDT doesn't have a root node with an empty name."
  ]
]

abbrev pub fdt_begin_node : ℕ
fdt_begin_node = 0x01

abbrev pub fdt_end_node : ℕ
fdt_end_node = 0x02

abbrev pub fdt_prop : ℕ
fdt_prop = 0x03

abbrev pub fdt_nop : ℕ
fdt_nop = 0x04

abbrev pub fdt_end : ℕ
fdt_end = 0x09

-- One round of the loop of `parse_nodes`: the parser goes on, or returns the root.
pub data Round : Type 0 where
  more : Scanner → State → Round
  done : DeviceTreeNode → Round

-- The arms of the `match`; an offset past the end of `strings` panics.
unfoldable pub begin_arm : Scanner → State → Result Round
unfolding consume_cstr align_forward begin_node
begin_arm s state = do
  (name, s) ← consume_cstr s
  s ← align_forward s 4
  ok (more s (begin_node state name))

unfoldable pub prop_arm : List ℕ → Scanner → State → Result Round
unfolding consume_be32 consume_data consume_cstr align_forward new_property
prop_arm strings s state = do
  (len, s) ← consume_be32 s
  (off, s) ← consume_be32 s
  (value, s) ← consume_data s len
  names ← slice_from strings off
  (name, _) ← consume_cstr (new names)
  state ← new_property state name value
  s ← align_forward s 4
  ok (more s state)

unfoldable pub parse_token : List ℕ → ℕ → Scanner → State → Result Round
unfolding begin_arm prop_arm end_node finish
parse_token strings token s state =
    if token == fdt_begin_node
    then begin_arm s state
    else if token == fdt_end_node
    then (do state ← end_node state; ok (more s state))
    else if token == fdt_prop
    then prop_arm strings s state
    else if token == fdt_nop
    then ok (more s state)
    else if token == fdt_end
    then (do root ← finish state; ok (done root))
    else err "Unknown FDT token."

unfoldable pub nodes_loop : List ℕ → ℕ → Scanner → State → Result DeviceTreeNode
nodes_loop strings zero s state = stuck
nodes_loop strings (suc fuel) s state = do
  (token, s) ← consume_be32 s
  round ← parse_token strings token s state
  elim round [ more s state ↦ nodes_loop strings fuel s state | done root ↦ ok root ]

-- A round takes 4 bytes at least, so a round for each byte and one more are enough.
unfoldable pub parse_nodes : List ℕ → List ℕ → Result DeviceTreeNode
unfolding nodes_loop parse_token consume_be32
parse_nodes structs strings = nodes_loop strings (suc (length structs)) (new structs) new_state

unfoldable pub check_header : FdtHeader → ℕ → Result (Unit {0})
check_header header size =
    if not (header.magic == 0xd00dfeed)
    then err "Incorrect FDT magic value."
    else if ltb device_tree_spec_version header.last_comp_version
    then err "FDT version is too new and not supported."
    else if ltb size header.totalsize
    then err "The FDT size is too small to fit the Device Tree."
    else ok tt

unfoldable pub parse : List ℕ → Result DeviceTree
unfolding parse_header check_header parse_reserved parse_nodes
parse fdt = do
  header ← parse_header fdt
  check_header header (length fdt)
  map ← slice_from fdt header.off_mem_rsvmap
  reserved ← parse_reserved map
  structs ← slice fdt header.off_dt_struct (header.off_dt_struct + header.size_dt_struct)
  strings ← slice fdt header.off_dt_strings (header.off_dt_strings + header.size_dt_strings)
  root ← parse_nodes structs strings
  ok (record {
    reserved = reserved;
    root = root;
    last_comp_version = header.last_comp_version;
    boot_cpuid_phys = header.boot_cpuid_phys;
  })
