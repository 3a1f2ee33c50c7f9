-- ===== src/Devicetree/Fdt/Tests.antt =====
-- The parser of kernel/devicetree/src/fdt.rs at small inputs.
use aarch.Base.{ℕ, ◌≢◌, List, [], ◌∷◌, ◌++◌, ◌≡◌, refl, arith, ok, err, stuck}
use aarch.Devicetree.Tree.{DeviceTreeNode, node, nil, entry, add_child}
use aarch.Devicetree.Scanner.{is_utf8}
use aarch.Devicetree.Scanner.Numbers.{be32_bytes}
use aarch.Devicetree.Fdt.{parse_nodes, parse_reserved, parse}
use aarch.Devicetree.Fdt.Print.{print}
use aarch.Devicetree.Fdt.Trees.{
  Source, source, no_more, also, flatten, add_properties, CanPrint, parse_nodes-build,
}
use aarch.Devicetree.Fdt.Blob.{blob_of, parse-blob_of}
use aarch.Devicetree.Fdt.Reserved.{block_bytes, parse_reserved-block_bytes}
use aarch.Devicetree.Fdt.Total.{parse_nodes-ends}

-- A root without a name, with one property whose name is "p".
abbrev structs : List ℕ
structs =
    be32_bytes 1
    ++ be32_bytes 0
    ++ be32_bytes 3
    ++ be32_bytes 2
    ++ be32_bytes 0
    ++ (7 ∷ (8 ∷ (0 ∷ (0 ∷ []))))
    ++ be32_bytes 2
    ++ be32_bytes 9
    ++ be32_bytes 0

abbrev strings : List ℕ
strings = b'p' ∷ (0 ∷ [])

one_property :
    parse_nodes structs strings
    ≡ ok (node nil ((b'p' ∷ [], 7 ∷ (8 ∷ [])) ∷ []) (record { size_cells = 1; address_cells = 1 }))
unfolding parse_nodes
one_property = refl

unfinished :
    parse_nodes (be32_bytes 1 ++ be32_bytes 0 ++ be32_bytes 9) []
    ≡ err "Parsed FDT contains unfinished nodes."
unfolding parse_nodes
unfinished = refl

parse_nodes-ends_example : parse_nodes structs strings ≢ stuck
parse_nodes-ends_example = parse_nodes-ends structs strings (omega arith)

abbrev items : List (ℕ × ℕ)
items = (0x1000, 0x2000) ∷ ((0x8000, 0x100) ∷ [])

parse_reserved-block_bytes_example :
    parse_reserved (block_bytes items ++ strings) ≡ ok ((0x1000, 0x3000) ∷ ((0x8000, 0x8100) ∷ []))
parse_reserved-block_bytes_example =
    parse_reserved-block_bytes items strings
      ((omega arith, omega arith), ((omega arith, omega arith), tt)) (omega arith)

-- A root with the property "p" and a child.
abbrev tree : Source
tree =
    source ((0, 7 ∷ (8 ∷ [])) ∷ [])
      (also (b'c' ∷ (b'p' ∷ (b'u' ∷ []))) (source ((0, 9 ∷ []) ∷ []) no_more) no_more)

tree-CanPrint : CanPrint [] tree
unfolding is_utf8
tree-CanPrint = (
  (tt, refl),
  ((omega arith, omega arith), tt),
  (
    (((omega arith, (omega arith, (omega arith, tt))), refl), ((omega arith, omega arith), tt), tt),
    tt,
  ),
)

abbrev built : DeviceTreeNode
built =
    node
      (entry (b'c' ∷ (b'p' ∷ (b'u' ∷ [])))
        (node nil ((b'p' ∷ [], 9 ∷ []) ∷ []) (record { size_cells = 1; address_cells = 1 })) nil)
      ((b'p' ∷ [], 7 ∷ (8 ∷ [])) ∷ []) (record { size_cells = 1; address_cells = 1 })

parse_nodes-build_example : parse_nodes (print (flatten [] tree []) []) strings ≡ ok built
unfolding add_properties add_child
parse_nodes-build_example = parse_nodes-build strings tree [] tree-CanPrint (omega arith)

parse-blob_of_example :
    parse (blob_of (block_bytes items) (print (flatten [] tree []) []) strings 16 0)
    ≡ ok (record {
      reserved = (0x1000, 0x3000) ∷ ((0x8000, 0x8100) ∷ []);
      root = built;
      last_comp_version = 16;
      boot_cpuid_phys = 0;
    })
unfolding add_properties add_child
parse-blob_of_example =
    parse-blob_of items tree strings 16 0
      ((omega arith, omega arith), ((omega arith, omega arith), tt)) tree-CanPrint (omega arith)
      (omega arith) (omega arith)
