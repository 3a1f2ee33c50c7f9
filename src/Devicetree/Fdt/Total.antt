-- ===== src/Devicetree/Fdt/Total.antt =====
-- The loop of `parse_nodes` of kernel/devicetree/src/fdt.rs comes to an end.
use aarch.Base.{
  ℕ, zero, suc, ◌+◌, ◌-◌, ◌^◌, ◌≤◌, ◌<◌, ◌≢◌, List, ap, ◌∙◌, sym, arith, subst, length, ok, stuck,
  Steps, Steps-bind, Calm-unstuck, Steps-map,
}
use aarch.Devicetree.Scanner.{Scanner, new, consume_be32}
use aarch.Devicetree.Scanner.Numbers.{IsScanner}
use aarch.Devicetree.Fdt.{State, Round, more, done, parse_token, nodes_loop, parse_nodes, new_state}
use aarch.Devicetree.Fdt.Progress.{Ahead, consume_be32-Ahead}
use aarch.Devicetree.Fdt.Rounds.{Pieces, Held, RoundAhead, parse_token-RoundAhead}

abbrev Ends : List ℕ → ℕ → Type 0
Ends strings fuel =
    (s : Scanner) (state : State)
    → IsScanner s
    → Held s.bytes state
    → length s.bytes - s.offset < fuel
    → Steps (Pieces s.bytes) (nodes_loop strings fuel s state)

next-Ends :
    (strings : List ℕ) (fuel : ℕ)
    → Ends strings fuel
    → (s a : Scanner) → Ahead s a
    → s.offset + 4 ≤ a.offset
    → length s.bytes - s.offset < suc fuel
    → (round : Round) → RoundAhead a round
    → Steps
        (Pieces s.bytes)
        (elim round [ more t st ↦ nodes_loop strings fuel t st | done root ↦ ok root ])
next-Ends strings fuel rec s a p far enough (more t st) (k, held) =
    subst (λ bytes. Steps (Pieces bytes) (nodes_loop strings fuel t st)) (k.same ∙ p.same)
      (rec t st k.good (subst (λ bytes. Held bytes st) (sym k.same) held)
        (omega (arith, far, enough, k.forward, p.good.inside, ap length (k.same ∙ p.same))))
next-Ends strings fuel rec s a p far enough (done root) k =
    subst (λ bytes. Pieces bytes root) p.same k

nodes_loop-Ends : (strings : List ℕ) (fuel : ℕ) → Ends strings fuel
unfolding nodes_loop
nodes_loop-Ends strings zero s state good held enough = absurd (omega (arith, enough))
nodes_loop-Ends strings (suc fuel) s state good held enough =
    Steps-bind (λ r. Ahead s r.1 × (s.offset + 4 ≤ r.1.offset)) (Pieces s.bytes) (consume_be32 s) _
      (consume_be32-Ahead s good)
      λ a p.
        Steps-bind (RoundAhead a.1) (Pieces s.bytes) (parse_token strings a.0 a.1 state) _
          (parse_token-RoundAhead a.1 p.0.good state
            (subst (λ bytes. Held bytes state) (sym p.0.same) held) strings a.0)
          (next-Ends strings fuel (nodes_loop-Ends strings fuel) s a.1 p.0 p.1 enough)

pub parse_nodes-Pieces :
    (structs strings : List ℕ)
    → length structs < 2 ^ 63
    → Steps (Pieces structs) (parse_nodes structs strings)
unfolding parse_nodes
parse_nodes-Pieces structs strings sized =
    nodes_loop-Ends strings (suc (length structs)) (new structs) new_state
      (record { inside = omega arith; sized = sized }) (record { parents = tt; current = (tt, tt) })
      (omega arith)

-- For every structure block shorter than 2^63 bytes and every strings block, parse_nodes ends,
-- with a node, an error or a panic, within as many rounds as the block has bytes and one more.
pub parse_nodes-ends :
    (structs strings : List ℕ) → length structs < 2 ^ 63 → parse_nodes structs strings ≢ stuck
parse_nodes-ends structs strings sized = Calm-unstuck (parse_nodes structs strings) (
    Steps-map (Pieces structs) (λ _. Unit {0}) (parse_nodes structs strings)
      (parse_nodes-Pieces structs strings sized) (λ _ _. tt))
