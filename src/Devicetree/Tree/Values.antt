-- ===== src/Devicetree/Tree/Values.antt =====
-- The values of the properties of a tree of kernel/devicetree/src/lib.rs, and of its descendants.
use Prim.Native.Nat.{Ordering}
use mathlib.Core.Option.{some-injective}
use aarch.Base.{subst, ℕ, ◌≡◌, none, some, List, [], ◌∷◌, All, Steps, Steps-bind, Calm}
use aarch.Devicetree.Tree.{
  DeviceTreeNode, Nodes, node, nil, entry, Text, get, insert, get_node, insert_node, compare_text,
  add_child, remove_child, add_property, with_property, address_space,
}

module _ (P : List ℕ → Type 0) where
  abbrev mutual
    pub Values : DeviceTreeNode → Type 0
    Values (node c p a) = NodesValues c × All (λ kv. P kv.1) p

    pub NodesValues : Nodes → Type 0
    NodesValues nil = Unit
    NodesValues (entry k n m) = Values n × NodesValues m

  ordering_cases :
      (Q : Ordering → Type 0) → Q Ordering.lt → Q Ordering.eq → Q Ordering.gt → (o : Ordering) → Q o
  ordering_cases Q l e g Ordering.lt = l
  ordering_cases Q l e g Ordering.eq = e
  ordering_cases Q l e g Ordering.gt = g

  pub get_node-Values :
      (k : Text) (m : Nodes) (n : DeviceTreeNode) → NodesValues m → get_node k m ≡ some n → Values n
  unfolding get_node
  get_node-Values k nil n h e = absurd cc
  get_node-Values k (entry j v m) n h e =
      let rest = get_node-Values k m n h.1 in
      ordering_cases
        (λ o.
          elim o [ Ordering.lt ↦ none | Ordering.eq ↦ some v | Ordering.gt ↦ get_node k m ] ≡ some n
          → Values n)
        (λ f. absurd (nothing f)) (λ f. subst Values (some-injective v n f) h.0) rest
        (compare_text k j) e
    where
      nothing : ¬ (none ≡ some n)
      nothing f = cc

  pub insert_node-Values :
      (k : Text) (v : DeviceTreeNode) (m : Nodes)
      → Values v
      → NodesValues m
      → NodesValues (insert_node k v m)
  unfolding insert_node
  insert_node-Values k v nil h g = (h, tt)
  insert_node-Values k v (entry j w m) h g =
      let rest = insert_node-Values k v m h g.1 in
      ordering_cases
        (λ o. NodesValues (elim o [
          | Ordering.lt ↦ entry k v (entry j w m)
          | Ordering.eq ↦ entry k v m
          | Ordering.gt ↦ entry j w (insert_node k v m)
        ]))
        (h, g) (h, g.1) (g.0, rest) (compare_text k j)

  insert-Values :
      (k : Text) (v : List ℕ) (m : List (Text × List ℕ))
      → P v
      → All (λ kv. P kv.1) m
      → All (λ kv. P kv.1) (insert k v m)
  unfolding insert
  insert-Values k v [] h g = (h, tt)
  insert-Values k v ((j, w) ∷ m) h g =
      let rest = insert-Values k v m h g.1 in
      ordering_cases
        (λ o.
          All (λ (kv : Text × List ℕ). P kv.1)
            (elim o [
              | Ordering.lt ↦ (k, v) ∷ ((j, w) ∷ m)
              | Ordering.eq ↦ (k, v) ∷ m
              | Ordering.gt ↦ (j, w) ∷ insert k v m
            ]))
        (h, g) (h, g.1) (g.0, rest) (compare_text k j)

  pub add_property-Values :
      (n : DeviceTreeNode) (name : Text) (value : List ℕ)
      → Calm (with_property (address_space n) name value)
      → Values n
      → P value
      → Steps Values (add_property n name value)
  unfolding add_property
  add_property-Values (node c p a) name value calm h v =
      Steps-bind (λ _. Unit {0}) Values (with_property a name value) _ calm
        λ space _. (h.0, insert-Values name value p v h.1)

  pub add_child-Values :
      (n : DeviceTreeNode) (name : Text) (v : DeviceTreeNode)
      → Values n
      → Values v
      → Values (add_child n name v)
  unfolding add_child
  add_child-Values (node c p a) name v h g = (insert_node-Values name v c g h.0, h.1)

  pub get-Values :
      (k : Text) (m : List (Text × List ℕ)) (v : List ℕ)
      → All (λ kv. P kv.1) m
      → get k m ≡ some v
      → P v
  unfolding get
  get-Values k [] v h e = absurd cc
  get-Values k ((j, w) ∷ m) v h e =
      let rest = get-Values k m v h.1 in
      ordering_cases
        (λ o.
          elim o [ Ordering.lt ↦ none | Ordering.eq ↦ some w | Ordering.gt ↦ get k m ] ≡ some v
          → P v)
        (λ f. absurd (nothing f)) (λ f. subst P (some-injective w v f) h.0) rest (compare_text k j)
        e
    where
      nothing : ¬ (none ≡ some v)
      nothing f = cc

  pub remove_child-Values :
      (n : DeviceTreeNode) (name : Text) (v : DeviceTreeNode)
      → Values n
      → (remove_child n name).1 ≡ some v
      → Values v
  unfolding remove_child
  remove_child-Values (node c p a) name v h e = get_node-Values name c v h.0 e
