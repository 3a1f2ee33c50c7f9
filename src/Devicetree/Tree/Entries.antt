-- ===== src/Devicetree/Tree/Entries.antt =====
-- The children of a node of kernel/devicetree/src/lib.rs after one has been added.
use Prim.Native.Nat.{Ordering}
use aarch.Base.{
  Option, none, some, [], ◌∷◌, if◌then◌else◌, ◌≡◌, ◌⊎◌, inl, inr, refl, ap, sym, ◌∙◌, arith,
}
use aarch.Devicetree.Tree.{
  Text, compare_text, same_text, DeviceTreeNode, Nodes, node, nil, entry, get_node, insert_node,
  child, add_child,
}

Ordering-cases : (o : Ordering) → (o ≡ Ordering.lt) ⊎ ((o ≡ Ordering.eq) ⊎ (o ≡ Ordering.gt))
Ordering-cases Ordering.lt = inl refl
Ordering-cases Ordering.eq = inr (inl refl)
Ordering-cases Ordering.gt = inr (inr refl)

compare_text_self : (k : Text) → compare_text k k ≡ Ordering.eq
unfolding compare_text
compare_text_self [] = refl
compare_text_self (b ∷ bs) = ground (arith, compare_text_self bs)

compare_text_eq : (j k : Text) → compare_text j k ≡ Ordering.eq → j ≡ k
unfolding compare_text
compare_text_eq [] [] e = refl
compare_text_eq [] (b ∷ bs) e = absurd cc
compare_text_eq (a ∷ bs) [] e = absurd cc
compare_text_eq (a ∷ as') (b ∷ bs) e = ground (arith, compare_text_eq as' bs)

compare_text_trans :
    (i j k : Text)
    → compare_text i j ≡ Ordering.lt
    → compare_text j k ≡ Ordering.lt
    → compare_text i k ≡ Ordering.lt
unfolding compare_text
compare_text_trans i [] [] p q = absurd cc
compare_text_trans i (b ∷ bs) [] p q = absurd cc
compare_text_trans [] j (c ∷ cs) p q = refl
compare_text_trans (a ∷ as') [] (c ∷ cs) p q = absurd cc
compare_text_trans (a ∷ as') (b ∷ bs) (c ∷ cs) p q =
    ground (arith, compare_text_trans as' bs cs, compare_text_eq as' bs)

module _ (k j : Text) (v : DeviceTreeNode) where
  get_node-insert_node :
      (m : Nodes) → compare_text k j ≡ Ordering.eq → get_node k (insert_node j v m) ≡ some v
  unfolding get_node insert_node
  get_node-insert_node nil same = rw (insert_node, get_node, same) refl
  get_node-insert_node (entry i w m) same = elim (Ordering-cases (compare_text j i)) [
    | inl lt ↦ rw (lt, insert_node, get_node, same) refl
    | inr (inl eq) ↦ rw (eq, insert_node, get_node, same) refl
    | inr (inr gt) ↦
        let above : compare_text k i ≡ Ordering.gt =
          ap (λ t. compare_text t i) (compare_text_eq k j same) ∙ gt in
        rw (gt, insert_node, get_node, above) (get_node-insert_node m same)
  ]

  -- What is found from an entry on, where `rest` is found behind it.
  abbrev behind : Text → DeviceTreeNode → Option DeviceTreeNode → Option DeviceTreeNode
  behind i w rest = elim (compare_text k i) [
    | Ordering.lt ↦ none
    | Ordering.eq ↦ some w
    | Ordering.gt ↦ rest
  ]

  get_node-insert_node_lt :
      (m : Nodes) → compare_text k j ≡ Ordering.lt → get_node k (insert_node j v m) ≡ get_node k m
  unfolding get_node insert_node
  get_node-insert_node_lt nil below = rw (insert_node, get_node, below) refl
  get_node-insert_node_lt (entry i w m) below = elim (Ordering-cases (compare_text j i)) [
    | inl lt ↦ rw (lt, insert_node, get_node, below, compare_text_trans k j i below lt) refl
    | inr (inl eq) ↦
        let beneath : compare_text k i ≡ Ordering.lt =
          ap (compare_text k) (sym (compare_text_eq j i eq)) ∙ below in
        rw (eq, insert_node, get_node, below, beneath) refl
    | inr (inr gt) ↦ rw (insert_node, gt) (ap (behind i w) (get_node-insert_node_lt m below))
  ]

  get_node-insert_node_gt :
      (m : Nodes) → compare_text k j ≡ Ordering.gt → get_node k (insert_node j v m) ≡ get_node k m
  unfolding get_node insert_node
  get_node-insert_node_gt nil above = rw (insert_node, get_node, above) refl
  get_node-insert_node_gt (entry i w m) above = elim (Ordering-cases (compare_text j i)) [
    | inl lt ↦ rw (lt, insert_node, get_node, above) refl
    | inr (inl eq) ↦
        let over : compare_text k i ≡ Ordering.gt =
          ap (compare_text k) (sym (compare_text_eq j i eq)) ∙ above in
        rw (eq, insert_node, get_node, above, over) refl
    | inr (inr gt) ↦ rw (insert_node, gt) (ap (behind i w) (get_node-insert_node_gt m above))
  ]

-- After add_child a name finds the added child if it is its name, and otherwise what it found
-- before.
pub child-add_child :
    (n v : DeviceTreeNode) (name other : Text)
    → child (add_child n name v) other ≡ (if same_text other name then some v else child n other)
unfolding child add_child
child-add_child (node c p a) v name other = elim (Ordering-cases (compare_text other name)) [
  | inl lt ↦ rw (same_text, lt) (get_node-insert_node_lt other name v c lt)
  | inr (inl eq) ↦ rw (same_text, eq) (get_node-insert_node other name v c eq)
  | inr (inr gt) ↦ rw (same_text, gt) (get_node-insert_node_gt other name v c gt)
]
