-- ===== src/Devicetree/Fdt/Rounds.antt =====
-- One round of the loop of `parse_nodes` of kernel/devicetree/src/fdt.rs.
use aarch.Base.{
  Calm, ℕ, ◌+◌, ◌≤◌, List, [], ◌∷◌, ◌≡◌, ◌⊎◌, ◌∙◌, Option-cases, refl, arith, ◌==◌, leb, length, ok,
  ◌>>=◌, Steps, Steps-bind, Steps-both, if-Steps, All, subst, Bool-cases, inl, inr, slice_from,
}
use aarch.Devicetree.Scanner.{Scanner, new, consume_be32, consume_cstr, consume_data, align_forward}
use aarch.Devicetree.Scanner.Numbers.{IsScanner}
use aarch.Devicetree.Tree.{DeviceTreeNode, Text, remove_child, add_property, address_space}
use aarch.Devicetree.Tree.Values.{
  Values, add_property-Values, add_child-Values, remove_child-Values,
}
use aarch.Devicetree.Fdt.{
  State, Round, more, done, end_node, begin_node, new_property, finish, begin_arm, prop_arm,
  parse_token, fdt_begin_node, fdt_end_node, fdt_prop, fdt_nop, fdt_end,
}
use aarch.Devicetree.Fdt.Progress.{
  Ahead, Ahead-trans, consume_be32-Ahead, consume_cstr-Ahead, consume_data-Ahead,
  align_forward-Ahead, consume_cstr-Calm, with_property-Calm, IsPiece, consume_data-IsPiece,
}

-- Each value in the tree is a piece of the data.
abbrev pub Pieces : List ℕ → DeviceTreeNode → Type 0
Pieces bytes = Values (IsPiece bytes)

-- So are those of the nodes that the parser holds.
pub record Held (bytes : List ℕ) (state : State) : Type 0 where
  pub parents : All (λ (np : Text × DeviceTreeNode). Pieces bytes np.1) state.parents
  pub current : Pieces bytes state.current

abbrev pub RoundAhead : Scanner → Round → Type 0
RoundAhead s (more s' state) = Ahead s s' × Held s.bytes state
RoundAhead s (done root) = Pieces s.bytes root

unmoved : (s : Scanner) → IsScanner s → Ahead s s
unmoved s good = record { good = good; same = refl; forward = omega arith }

module _ (s : Scanner) (good : IsScanner s) (state : State) (held : Held s.bytes state) where
  begin_arm-RoundAhead : Steps (RoundAhead s) (begin_arm s state)
  unfolding begin_arm begin_node
  begin_arm-RoundAhead =
      Steps-bind (λ r. Ahead s r.1) (RoundAhead s) (consume_cstr s) _ (consume_cstr-Ahead s good)
        λ r k.
          Steps-bind (λ t. Ahead r.1 t) (RoundAhead s) (align_forward r.1 4) _
            (align_forward-Ahead r.1 k.good)
            λ t j. (
              Ahead-trans s r.1 t k j,
              record { parents = (held.current, held.parents); current = (tt, tt) },
            )

  slice_from-Calm : (strings : List ℕ) (off : ℕ) → Calm (slice_from strings off)
  slice_from-Calm strings off = elim (Bool-cases (leb off (length strings))) [
    | inl t ↦ rw t tt
    | inr t ↦ rw t tt
  ]

  new_property-Held :
      (name : Text) (value : List ℕ)
      → IsPiece s.bytes value
      → Steps (Held s.bytes) (new_property state name value)
  unfolding new_property
  new_property-Held name value piece =
      Steps-bind (Pieces s.bytes) (Held s.bytes) (add_property state.current name value) _
        (add_property-Values (IsPiece s.bytes) state.current name value
          (with_property-Calm (address_space state.current) name value) held.current piece)
        λ current good'. record { parents = held.parents; current = good' }

  prop_arm-RoundAhead : (strings : List ℕ) → Steps (RoundAhead s) (prop_arm strings s state)
  unfolding prop_arm
  prop_arm-RoundAhead strings =
      Steps-bind (λ r. Ahead s r.1 × (s.offset + 4 ≤ r.1.offset)) (RoundAhead s) (consume_be32 s) _
        (consume_be32-Ahead s good)
        λ a p.
          Steps-bind (λ r. Ahead a.1 r.1 × (a.1.offset + 4 ≤ r.1.offset)) (RoundAhead s)
            (consume_be32 a.1) _ (consume_be32-Ahead a.1 p.0.good)
            λ b q.
              Steps-bind (λ r. Ahead b.1 r.1 × IsPiece b.1.bytes r.0) (RoundAhead s)
                (consume_data b.1 a.0) _
                (Steps-both (λ r. Ahead b.1 r.1) (λ r. IsPiece b.1.bytes r.0) (consume_data b.1 a.0)
                  (consume_data-Ahead b.1 q.0.good a.0) (consume_data-IsPiece b.1 a.0))
                λ c r.
                  Steps-bind (λ _. Unit {0}) (RoundAhead s) (slice_from strings b.0) _
                    (slice_from-Calm strings b.0)
                    λ names _.
                      Steps-bind (λ _. Unit {0}) (RoundAhead s) (consume_cstr (new names)) _
                        (consume_cstr-Calm (new names))
                        λ name _.
                          Steps-bind (Held s.bytes) (RoundAhead s) (new_property state name.0 c.0) _
                            (new_property-Held name.0 c.0
                              (subst (λ bytes. IsPiece bytes c.0) (q.0.same ∙ p.0.same) r.1))
                            λ st held'.
                              Steps-bind (λ t. Ahead c.1 t) (RoundAhead s) (align_forward c.1 4) _
                                (align_forward-Ahead c.1 r.0.good)
                                λ t j. (
                                  Ahead-trans s a.1 t p.0
                                      (Ahead-trans a.1 b.1 t q.0 (Ahead-trans b.1 c.1 t r.0 j)),
                                  held',
                                )

  list_cases : {A : Type 0} (xs : List A) → (xs ≡ []) ⊎ ((x : A) × (r : List A) × (xs ≡ x ∷ r))
  list_cases [] = inl refl
  list_cases (x ∷ r) = inr (x, r, refl)

  end_node-RoundAhead : Steps (RoundAhead s) (end_node state >>= λ st. ok (more s st))
  unfolding end_node
  end_node-RoundAhead = elim (list_cases state.parents) [
    | inl none_left ↦ rw (none_left, end_node) tt
    | inr (top, rest, is) ↦
        let all =
          subst (All (λ (np : Text × DeviceTreeNode). Pieces s.bytes np.1)) is held.parents in
        rw (is, end_node)
          (
            unmoved s good,
            record {
              parents = all.1;
              current =
                  add_child-Values (IsPiece s.bytes) top.1 top.0 state.current all.0 held.current;
            },
          )
  ]

  finish-RoundAhead : Steps (RoundAhead s) (finish state >>= λ root. ok (done root))
  unfolding finish
  finish-RoundAhead = elim (list_cases state.parents) [
    | inr (top, rest, is) ↦ rw (is, finish) tt
    | inl none_left ↦ elim (Option-cases (remove_child state.current []).1) [
      | inl missing ↦ rw (none_left, finish, missing) tt
      | inr (root, found) ↦
          rw (none_left, finish, found)
            (remove_child-Values (IsPiece s.bytes) state.current [] root held.current found)
    ]
  ]

  pub parse_token-RoundAhead :
      (strings : List ℕ) (token : ℕ) → Steps (RoundAhead s) (parse_token strings token s state)
  unfolding parse_token
  parse_token-RoundAhead strings token =
      if-Steps (RoundAhead s) (token == fdt_begin_node) _ _ begin_arm-RoundAhead (
        if-Steps (RoundAhead s) (token == fdt_end_node) _ _ end_node-RoundAhead (
          if-Steps (RoundAhead s) (token == fdt_prop) _ _ (prop_arm-RoundAhead strings) (
            if-Steps (RoundAhead s) (token == fdt_nop) _ _ (unmoved s good, held)
              (if-Steps (RoundAhead s) (token == fdt_end) _ _ finish-RoundAhead tt))))
