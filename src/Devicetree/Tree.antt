-- ===== src/Devicetree/Tree.antt =====
-- kernel/devicetree/src/lib.rs: the device tree. A `BTreeMap` is a list of entries in the order of
-- their keys, and a key is the bytes of its text.
pub mod Entries
pub mod Values
mod Tests
use Prim.Native.Nat.{Ordering, compare}
use aarch.Base.{
  ℕ, zero, suc, ◌+◌, ◌-◌, Bool, true, false, ◌&&◌, ◌||◌, Option, none, some, List, [], ◌∷◌, ◌++◌,
  ltb, leb, ◌==◌, if◌then◌else◌, length, drop, Result, ok, err, panic, ◌>>=◌, ◌>>◌, not, assert,
  unwrap, slice_from,
}
use aarch.Devicetree.Scanner.{AddressSpace, Scanner, new, consume_be32}

abbrev pub Text : Type 0
Text = List ℕ

-- The order of texts is that of their bytes.
unfoldable pub compare_text : Text → Text → Ordering
compare_text [] [] = Ordering.eq
compare_text [] (b ∷ bs) = Ordering.lt
compare_text (a ∷ as') [] = Ordering.gt
compare_text (a ∷ as') (b ∷ bs) =
    let rest = compare_text as' bs in
    elim (compare a b) [
      | Ordering.lt ↦ Ordering.lt
      | Ordering.eq ↦ rest
      | Ordering.gt ↦ Ordering.gt
    ]

abbrev pub same_text : Text → Text → Bool
same_text s t = elim (compare_text s t) [ Ordering.eq ↦ true | _ ↦ false ]

-- A map from texts: `get`, `insert`, `remove` and `iter` of `BTreeMap`.
module _ {ℓ} {V : Type ℓ} where
  unfoldable pub get : Text → List (Text × V) → Option V
  get k [] = none
  get k ((j, v) ∷ m) =
      let rest = get k m in
      elim (compare_text k j) [ Ordering.lt ↦ none | Ordering.eq ↦ some v | Ordering.gt ↦ rest ]

  unfoldable pub insert : Text → V → List (Text × V) → List (Text × V)
  insert k v [] = (k, v) ∷ []
  insert k v ((j, w) ∷ m) =
      let rest = insert k v m in
      elim (compare_text k j) [
        | Ordering.lt ↦ (k, v) ∷ ((j, w) ∷ m)
        | Ordering.eq ↦ (k, v) ∷ m
        | Ordering.gt ↦ (j, w) ∷ rest
      ]

-- `DeviceTreeNode`; the map of its children is the second type, with the operations that the code
-- uses of it.
mutual
  pub data DeviceTreeNode : Type 0 where
    node : Nodes → List (Text × List ℕ) → AddressSpace → DeviceTreeNode

  pub data Nodes : Type 0 where
    nil : Nodes
    entry : Text → DeviceTreeNode → Nodes → Nodes

abbrev pub children : DeviceTreeNode → Nodes
children (node c p a) = c

abbrev pub properties : DeviceTreeNode → List (Text × List ℕ)
properties (node c p a) = p

abbrev pub address_space : DeviceTreeNode → AddressSpace
address_space (node c p a) = a

unfoldable pub get_node : Text → Nodes → Option DeviceTreeNode
get_node k nil = none
get_node k (entry j v m) =
    let rest = get_node k m in
    elim (compare_text k j) [ Ordering.lt ↦ none | Ordering.eq ↦ some v | Ordering.gt ↦ rest ]

unfoldable pub insert_node : Text → DeviceTreeNode → Nodes → Nodes
insert_node k v nil = entry k v nil
insert_node k v (entry j w m) =
    let rest = insert_node k v m in
    elim (compare_text k j) [
      | Ordering.lt ↦ entry k v (entry j w m)
      | Ordering.eq ↦ entry k v m
      | Ordering.gt ↦ entry j w rest
    ]

unfoldable pub remove_node : Text → Nodes → Nodes
remove_node k nil = nil
remove_node k (entry j w m) =
    let rest = remove_node k m in
    elim (compare_text k j) [
      | Ordering.lt ↦ entry j w m
      | Ordering.eq ↦ m
      | Ordering.gt ↦ entry j w rest
    ]

unfoldable pub child : DeviceTreeNode → Text → Option DeviceTreeNode
unfolding get_node compare_text
child n name = get_node name (children n)

unfoldable pub property : DeviceTreeNode → Text → Option Scanner
unfolding get compare_text
property n name = elim (get name (properties n)) [ none ↦ none | some v ↦ some (new v) ]

abbrev pub new_node : DeviceTreeNode
new_node = node nil [] (record { size_cells = 1; address_cells = 1 })

abbrev pub new_child : DeviceTreeNode → DeviceTreeNode
new_child parent = node nil [] (address_space parent)

unfoldable pub add_child : DeviceTreeNode → Text → DeviceTreeNode → DeviceTreeNode
unfolding insert_node compare_text
add_child (node c p a) name v = node (insert_node name v c) p a

-- The node without the child, and the child.
unfoldable pub remove_child : DeviceTreeNode → Text → DeviceTreeNode × Option DeviceTreeNode
unfolding get_node remove_node compare_text
remove_child (node c p a) name = (node (remove_node name c) p a, get_node name c)

-- `#size-cells` and `#address-cells`
abbrev pub size_cells_name : Text
size_cells_name = b'#' ∷ b's' ∷ b'i' ∷ b'z' ∷ b'e' ∷ b'-' ∷ b'c' ∷ b'e' ∷ b'l' ∷ b'l' ∷ b's' ∷ []

abbrev pub address_cells_name : Text
address_cells_name =
    b'#' ∷ b'a' ∷ b'd' ∷ b'd' ∷ b'r' ∷ b'e' ∷ b's' ∷ b's' ∷ b'-' ∷ b'c' ∷ b'e' ∷ b'l' ∷ b'l' ∷ b's'
    ∷ []

-- The two properties that set the address space of the node are read as numbers; `unwrap` panics on a
-- value that is too short.
unfoldable pub with_property : AddressSpace → Text → List ℕ → Result AddressSpace
unfolding consume_be32 compare_text
with_property space name value = do
  sized ←
      if same_text name size_cells_name
      then (do (n, _) ← unwrap (consume_be32 (new value)); ok (record space { size_cells = n }))
      else ok space
  if same_text name address_cells_name
      then (do (n, _) ← unwrap (consume_be32 (new value)); ok (record sized { address_cells = n }))
      else ok sized

unfoldable pub add_property : DeviceTreeNode → Text → List ℕ → Result DeviceTreeNode
unfolding with_property insert compare_text
add_property (node c p a) name value = do
  space ← with_property a name value
  ok (node c (insert name value p) space)

pub record DeviceTree : Type 0 where
  pub reserved : List (ℕ × ℕ)
  pub root : DeviceTreeNode
  pub last_comp_version : ℕ
  pub boot_cpuid_phys : ℕ

abbrev pub device_tree_spec_version : ℕ
device_tree_spec_version = 17

-- `split("/")`: the pieces between the slashes, with the bytes of the first so far in front.
unfoldable pub split : Text → List Text
split [] = [] ∷ []
split (b ∷ bs) = elim (split bs) [
  | [] ↦ []
  | piece ∷ pieces ↦ if b == b'/' then [] ∷ (piece ∷ pieces) else (b ∷ piece) ∷ pieces
]

unfoldable pub walk : DeviceTreeNode → List Text → Option DeviceTreeNode
unfolding child
walk current [] = some current
walk current (name ∷ names) = elim (child current name) [ none ↦ none | some n ↦ walk n names ]

-- A cut of a text may not fall inside a character.
abbrev pub is_char_boundary : Text → Bool
is_char_boundary [] = true
is_char_boundary (b ∷ bs) = not (leb 0x80 b && leb b 0xbf)

-- `path[1..]` panics on an empty path, and inside a character.
unfoldable pub follow : DeviceTree → Text → Result (Option DeviceTreeNode)
unfolding walk split compare_text
follow t path = if same_text path (b'/' ∷ []) then ok (some t.root) else (do
  names ← slice_from path 1
  assert (is_char_boundary names)
  ok (walk t.root (split names)))

unfoldable pub compatible : DeviceTree → ℕ → Bool
compatible t version = leb version device_tree_spec_version && leb t.last_comp_version version
