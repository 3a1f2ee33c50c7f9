-- ===== src/Devicetree/Tree/Tests.antt =====
-- The tree of kernel/devicetree/src/lib.rs at small inputs.
use aarch.Base.{◌≡◌, refl, [], ◌∷◌, some, none, ok, if◌then◌else◌, true}
use aarch.Devicetree.Tree.{
  DeviceTree, DeviceTreeNode, Text, new_node, node, nil, child, add_child, same_text, follow,
  compatible,
}
use aarch.Devicetree.Tree.Entries.{child-add_child}

abbrev cpu : Text
cpu = b'c' ∷ (b'p' ∷ (b'u' ∷ []))

abbrev leaf : DeviceTreeNode
leaf = node nil ((cpu, 1 ∷ []) ∷ []) (record { size_cells = 2; address_cells = 2 })

found_child :
    child (add_child new_node cpu leaf) cpu
    ≡ (if same_text cpu cpu then some leaf else child new_node cpu)
found_child = child-add_child new_node leaf cpu cpu

abbrev tree : DeviceTree
unfolding add_child
tree = record {
  reserved = [];
  root = add_child new_node cpu leaf;
  last_comp_version = 16;
  boot_cpuid_phys = 0;
}

-- `test_follow`
found : follow tree (b'/' ∷ cpu) ≡ ok (some leaf)
unfolding follow tree
found = refl

missing : follow tree (b'/' ∷ (b'x' ∷ [])) ≡ ok none
unfolding follow tree
missing = refl

-- `test_compatible`
versions : compatible tree 16 ≡ true
unfolding compatible tree
versions = refl
