-- ===== src/Devicetree/Fdt/Trees.antt =====
-- `parse_nodes` of kernel/devicetree/src/fdt.rs reads a tree that has been printed.
use aarch.Base.{
  ℕ, ◌^◌, ◌<◌, ◌≡◌, refl, sym, ◌∙◌, List, [], ◌∷◌, All, length, Result, ok, err, panic, stuck,
  bind_assoc, bind-cong, ◌>>=◌, slice_from,
}
use aarch.Devicetree.Scanner.{new, consume_cstr}
use aarch.Devicetree.Tree.{
  DeviceTreeNode, Text, new_node, new_child, add_child, remove_child, add_property, get_node,
  insert_node, compare_text,
}
use aarch.Devicetree.Fdt.{State, new_state, begin_node, end_node, new_property, finish, parse_nodes}
use aarch.Devicetree.Fdt.Print.{Token, opens, closes, says, print, act, act_all, IsPrintable}
use aarch.Devicetree.Fdt.Printed.{parse_nodes-print}

-- A tree in the order of its text: a property is where its name stands among the strings, and its value.
mutual
  pub data Source : Type 0 where
    source : List (ℕ × List ℕ) → Sources → Source

  pub data Sources : Type 0 where
    no_more : Sources
    also : Text → Source → Sources → Sources

abbrev properties_of : List (ℕ × List ℕ) → List Token → List Token
properties_of [] tokens = tokens
properties_of ((off, value) ∷ props) tokens = says off value ∷ properties_of props tokens

abbrev mutual
  pub flatten : Text → Source → List Token → List Token
  flatten name (source props others) tokens =
      opens name ∷ properties_of props (flatten_all others (closes ∷ tokens))

  pub flatten_all : Sources → List Token → List Token
  flatten_all no_more tokens = tokens
  flatten_all (also name tree others) tokens = flatten name tree (flatten_all others tokens)

unfoldable pub add_properties : List ℕ → List (ℕ × List ℕ) → DeviceTreeNode → Result DeviceTreeNode
unfolding add_property consume_cstr
add_properties strings [] n = ok n
add_properties strings ((off, value) ∷ props) n = do
  names ← slice_from strings off
  (name, _) ← consume_cstr (new names)
  n ← add_property n name value
  add_properties strings props n

-- The node of the tree, and the node with the children.
abbrev mutual
  pub build : List ℕ → Source → DeviceTreeNode → Result DeviceTreeNode
  build strings (source props others) parent =
      add_properties strings props (new_child parent) >>= λ n. build_all strings others n

  pub build_all : List ℕ → Sources → DeviceTreeNode → Result DeviceTreeNode
  build_all strings no_more n = ok n
  build_all strings (also name tree others) n =
      build strings tree n >>= λ c. build_all strings others (add_child n name c)

abbrev mutual
  pub CanPrint : Text → Source → Type 0
  CanPrint name (source props others) =
      IsPrintable (opens name)
      × All (λ (p : ℕ × List ℕ). IsPrintable (says p.0 p.1)) props
      × CanPrintAll others

  pub CanPrintAll : Sources → Type 0
  CanPrintAll no_more = Unit
  CanPrintAll (also name tree others) = CanPrint name tree × CanPrintAll others

module _ (strings : List ℕ) where
  -- The state whose current node is `n`.
  abbrev at_node : State → DeviceTreeNode → State
  at_node state n = record state { current = n }

  act_all-properties :
      (props : List (ℕ × List ℕ)) (tokens : List Token) (state : State)
      → act_all strings (properties_of props tokens) state ≡ (
          add_properties strings props state.current >>= λ n.
          act_all strings tokens (at_node state n))
  unfolding act_all act add_properties new_property
  act_all-properties [] tokens state = refl
  act_all-properties ((off, value) ∷ props) tokens state =
      bind_assoc (slice_from strings off) _ behind
      ∙ bind-cong (slice_from strings off) _ _ (λ names.
        bind_assoc (consume_cstr (new names)) _ behind
        ∙ bind-cong (consume_cstr (new names)) _ _ (λ r.
          bind_assoc (add_property state.current r.0 value) _ behind
          ∙ bind-cong (add_property state.current r.0 value) _ _
              (λ n. act_all-properties props tokens (at_node state n))
          ∙ sym (
              bind_assoc (add_property state.current r.0 value) (add_properties strings props)
                here))
        ∙ sym (bind_assoc (consume_cstr (new names)) _ here))
      ∙ sym (bind_assoc (slice_from strings off) _ here)
    where
      behind : State → Result DeviceTreeNode
      behind = act_all strings (properties_of props tokens)

      here : DeviceTreeNode → Result DeviceTreeNode
      here n = act_all strings tokens (at_node state n)

  mutual
    unfolding act_all act begin_node end_node

    act_all-flatten :
        (name : Text) (tree : Source) (tokens : List Token) (state : State)
        → act_all strings (flatten name tree tokens) state ≡ (
            build strings tree state.current >>= λ c.
            act_all strings tokens (at_node state (add_child state.current name c)))
    act_all-flatten name (source props others) tokens state =
        act_all-properties props (flatten_all others (closes ∷ tokens)) (begin_node state name)
        ∙ bind-cong (add_properties strings props (new_child state.current)) _ _
            (λ n. act_all-flatten_all others (closes ∷ tokens) (at_node (begin_node state name) n))
        ∙ sym (
            bind_assoc (add_properties strings props (new_child state.current))
              (build_all strings others)
              (λ c. act_all strings tokens (at_node state (add_child state.current name c))))

    act_all-flatten_all :
        (trees : Sources) (tokens : List Token) (state : State)
        → act_all strings (flatten_all trees tokens) state ≡ (
            build_all strings trees state.current >>= λ n. act_all strings tokens (at_node state n))
    act_all-flatten_all no_more tokens state = refl
    act_all-flatten_all (also name tree others) tokens state =
        act_all-flatten name tree (flatten_all others tokens) state
        ∙ bind-cong (build strings tree state.current) _ _ (λ c.
          act_all-flatten_all others tokens (at_node state (add_child state.current name c)))
        ∙ sym (
            bind_assoc (build strings tree state.current)
              (λ c. build_all strings others (add_child state.current name c))
              (λ n. act_all strings tokens (at_node state n)))

properties-IsPrintable :
    (props : List (ℕ × List ℕ)) (tokens : List Token)
    → All (λ (p : ℕ × List ℕ). IsPrintable (says p.0 p.1)) props
    → All IsPrintable tokens
    → All IsPrintable (properties_of props tokens)
properties-IsPrintable [] tokens h g = g
properties-IsPrintable ((off, value) ∷ props) tokens h g =
    (h.0, properties-IsPrintable props tokens h.1 g)

mutual
  flatten-IsPrintable :
      (name : Text) (tree : Source) (tokens : List Token)
      → CanPrint name tree
      → All IsPrintable tokens
      → All IsPrintable (flatten name tree tokens)
  flatten-IsPrintable name (source props others) tokens h g = (
    h.0,
    properties-IsPrintable props (flatten_all others (closes ∷ tokens)) h.1
        (flatten_all-IsPrintable others (closes ∷ tokens) h.2 (tt, g)),
  )

  flatten_all-IsPrintable :
      (trees : Sources) (tokens : List Token)
      → CanPrintAll trees
      → All IsPrintable tokens
      → All IsPrintable (flatten_all trees tokens)
  flatten_all-IsPrintable no_more tokens h g = g
  flatten_all-IsPrintable (also name tree others) tokens h g =
      flatten-IsPrintable name tree (flatten_all others tokens) h.0
        (flatten_all-IsPrintable others tokens h.1 g)

-- The only child of the parser's first node is the root.
finish-root :
    (c : DeviceTreeNode)
    → finish (record { parents = []; current = add_child new_node [] c }) ≡ ok c
unfolding finish remove_child add_child get_node insert_node compare_text
finish-root c = refl

bind-ok_self :
    {A : Type 0} (m : Result A) (f : A → Result A) → ((a : A) → f a ≡ ok a) → (m >>= f) ≡ m
bind-ok_self panic f h = refl
bind-ok_self stuck f h = refl
bind-ok_self (err message) f h = refl
bind-ok_self (ok a) f h = h a

-- The printed structure block of a tree whose names are UTF-8 without zeros and whose numbers
-- fit 32 bits, followed by anything, fewer than 2^63 bytes in all, is parsed by parse_nodes to
-- the node, the error or the panic that building the tree gives, whatever the strings block is.
pub parse_nodes-build :
    (strings : List ℕ) (tree : Source) (rest : List ℕ)
    → CanPrint [] tree
    → length (print (flatten [] tree []) rest) < 2 ^ 63
    → parse_nodes (print (flatten [] tree []) rest) strings ≡ build strings tree new_node
unfolding act_all
parse_nodes-build strings tree rest good sized =
    parse_nodes-print strings (flatten [] tree []) rest (flatten-IsPrintable [] tree [] good tt)
      sized
    ∙ act_all-flatten strings [] tree [] new_state
    ∙ bind-ok_self (build strings tree new_node) _ finish-root
