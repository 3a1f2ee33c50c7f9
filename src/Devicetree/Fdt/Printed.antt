-- ===== src/Devicetree/Fdt/Printed.antt =====
-- `parse_nodes` of kernel/devicetree/src/fdt.rs reads a printed structure block.
use aarch.Base.{
  ℕ, zero, suc, ◌+◌, ◌%◌, ◌^◌, ◌<◌, ◌≡◌, refl, ap, ◌∙◌, arith, List, [], ◌∷◌, ◌++◌, All, length,
  length-append, Result, ok, err, panic, stuck, bind-cong, ◌>>=◌,
}
use aarch.Devicetree.Scanner.{Scanner, new, consume_be32}
use aarch.Devicetree.Tree.{DeviceTreeNode}
use aarch.Devicetree.Fdt.{
  State, Round, more, done, end_node, finish, parse_token, begin_arm, nodes_loop, parse_nodes,
  new_state, fdt_begin_node, fdt_end_node, fdt_prop, fdt_nop, fdt_end,
}
use aarch.Devicetree.Fdt.Reads.{
  Before, consume_be32-Read, consume_cstr-Read, consume_data-Read, align_forward-Read, padding,
}
use aarch.Devicetree.Fdt.Print.{
  Token, opens, closes, says, nothing, print, act, act_all, IsPrintable,
}
use aarch.Devicetree.Fdt.Property.{prop_arm-says}

print-long : (tokens : List Token) (rest : List ℕ) → 0 < length (print tokens rest)
print-long [] rest = omega arith
print-long (opens name ∷ tokens) rest = omega arith
print-long (closes ∷ tokens) rest = omega arith
print-long (says off value ∷ tokens) rest = omega arith
print-long (nothing ∷ tokens) rest = omega arith

-- The scanner stands at a multiple of four, before the tokens.
record Stands (s : Scanner) (tokens : List Token) (rest : List ℕ) : Type 0 where
  before : Before s (print tokens rest)
  whole : s.offset % 4 ≡ 0

-- One round does what the token says, and goes on behind it.
abbrev RoundDone : List ℕ → ℕ → Scanner → State → Token → List Token → List ℕ → Type 0
RoundDone strings fuel s state token tokens rest =
    (s' : Scanner) × Stands s' tokens rest
    × (nodes_loop strings (suc fuel) s state
        ≡ (act strings token state >>= λ st. nodes_loop strings fuel s' st))

-- A call that goes on behind a given scanner.
module _ (strings : List ℕ) (fuel : ℕ) where
  onwards : Round → Result DeviceTreeNode
  onwards (more s state) = nodes_loop strings fuel s state
  onwards (done root) = ok root

  bind-onwards :
      (m : Result State) (s : Scanner)
      → ((m >>= λ state. ok (more s state)) >>= onwards)
        ≡ (m >>= λ state. nodes_loop strings fuel s state)
  unfolding onwards
  bind-onwards panic s = refl
  bind-onwards stuck s = refl
  bind-onwards (err message) s = refl
  bind-onwards (ok state) s = refl

  nodes_loop-token :
      (s s1 : Scanner) (state : State) (token : ℕ) (m : Result State) (s' : Scanner)
      → consume_be32 s ≡ ok (token, s1)
      → parse_token strings token s1 state ≡ (m >>= λ state. ok (more s' state))
      → nodes_loop strings (suc fuel) s state ≡ (m >>= λ state. nodes_loop strings fuel s' state)
  unfolding nodes_loop onwards
  nodes_loop-token s s1 state token m s' reads parses = rw reads (
      bind_same (parse_token strings token s1 state)
      ∙ ap (λ r. r >>= onwards) parses
      ∙ bind-onwards m s')
    where
      bind_same :
          (r : Result Round)
          → (r >>= λ round. elim round [
            | more s state ↦ nodes_loop strings fuel s state
            | done root ↦ ok root
          ])
            ≡ (r >>= onwards)
      bind_same panic = refl
      bind_same stuck = refl
      bind_same (err message) = refl
      bind_same (ok (more t st)) = refl
      bind_same (ok (done root)) = refl

module _ (strings : List ℕ) (fuel : ℕ) (s : Scanner) (state : State) (tokens : List Token)
    (rest : List ℕ) where
  round-opens :
      (name : List ℕ)
      → IsPrintable (opens name)
      → Stands s (opens name ∷ tokens) rest
      → RoundDone strings fuel s state (opens name) tokens rest
  unfolding nodes_loop parse_token begin_arm act
  round-opens name (good, valid) h =
      let (s1, first, r1) = consume_be32-Read s fdt_begin_node _ (omega arith) h.before in
      let (s2, second, r2) =
        consume_cstr-Read s1 name (padding (length name + 1) ++ print tokens rest) good valid
          r1.before in
      let (s3, third, r3) =
        align_forward-Read s2 (length name + 1) (print tokens rest)
          (omega (arith, r1.offset, r2.offset, h.whole)) (print-long tokens rest) r2.before in
      (
        s3,
        record {
          before = r3.before;
          whole = omega (arith, r1.offset, r2.offset, r3.offset, h.whole);
        },
        rw (first, second, third) refl,
      )

  round-closes : Stands s (closes ∷ tokens) rest → RoundDone strings fuel s state closes tokens rest
  unfolding parse_token act
  round-closes h =
      let (s1, first, r1) = consume_be32-Read s fdt_end_node _ (omega arith) h.before in
      (
        s1,
        record { before = r1.before; whole = omega (arith, r1.offset, h.whole) },
        nodes_loop-token strings fuel s s1 state fdt_end_node (end_node state) s1 first refl,
      )

  round-nothing :
      Stands s (nothing ∷ tokens) rest → RoundDone strings fuel s state nothing tokens rest
  unfolding nodes_loop parse_token act
  round-nothing h =
      let (s1, first, r1) = consume_be32-Read s fdt_nop _ (omega arith) h.before in
      (s1, record { before = r1.before; whole = omega (arith, r1.offset, h.whole) }, rw first refl)

  round-says :
      (off : ℕ) (value : List ℕ)
      → IsPrintable (says off value)
      → Stands s (says off value ∷ tokens) rest
      → RoundDone strings fuel s state (says off value) tokens rest
  unfolding parse_token
  round-says off value (small, short) h =
      let (s1, first, r1) = consume_be32-Read s fdt_prop _ (omega arith) h.before in
      let (s2, second, r2) = consume_be32-Read s1 (length value) _ short r1.before in
      let (s3, third, r3) = consume_be32-Read s2 off _ small r2.before in
      let (s4, fourth, r4) =
        consume_data-Read s3 value (padding (length value) ++ print tokens rest) r3.before in
      let (s5, fifth, r5) =
        align_forward-Read s4 (length value) (print tokens rest)
          (omega (arith, r1.offset, r2.offset, r3.offset, r4.offset, h.whole))
          (print-long tokens rest) r4.before in
      (
        s5,
        record {
          before = r5.before;
          whole = omega (arith, r1.offset, r2.offset, r3.offset, r4.offset, r5.offset, h.whole);
        },
        nodes_loop-token strings fuel s s1 state fdt_prop (act strings (says off value) state) s5
            first (prop_arm-says strings off value state s1 s2 s3 s4 s5 second third fourth fifth),
      )

  round-done :
      (token : Token)
      → IsPrintable token
      → Stands s (token ∷ tokens) rest
      → RoundDone strings fuel s state token tokens rest
  round-done (opens name) good h = round-opens name good h
  round-done closes good h = round-closes h
  round-done (says off value) good h = round-says off value good h
  round-done nothing good h = round-nothing h

nodes_loop-end :
    (strings : List ℕ) (fuel : ℕ) (s s1 : Scanner) (state : State)
    → consume_be32 s ≡ ok (fdt_end, s1)
    → nodes_loop strings (suc fuel) s state ≡ finish state
unfolding nodes_loop parse_token
nodes_loop-end strings fuel s s1 state reads = rw reads (finished (finish state))
  where
    finished :
        (m : Result DeviceTreeNode)
        → ((m >>= λ root. ok (done root)) >>= λ round. elim round [
          | more s state ↦ nodes_loop strings fuel s state
          | done root ↦ ok root
        ])
          ≡ m
    finished panic = refl
    finished stuck = refl
    finished (err message) = refl
    finished (ok root) = refl

nodes_loop-print :
    (strings : List ℕ) (tokens : List Token) (fuel : ℕ) (s : Scanner) (state : State)
    (rest : List ℕ)
    → All IsPrintable tokens
    → length tokens < fuel
    → Stands s tokens rest
    → nodes_loop strings fuel s state ≡ act_all strings tokens state
unfolding act_all
nodes_loop-print strings tokens zero s state rest good enough h = absurd (omega arith)
nodes_loop-print strings [] (suc fuel) s state rest good enough h =
    let (s1, first, r1) = consume_be32-Read s fdt_end rest (omega arith) h.before in
    nodes_loop-end strings fuel s s1 state first
nodes_loop-print strings (token ∷ tokens) (suc fuel) s state rest good enough h =
    let (s', stands, runs) = round-done strings fuel s state tokens rest token good.0 h in
    runs
    ∙ bind-cong (act strings token state) (λ st. nodes_loop strings fuel s' st)
        (λ st. act_all strings tokens st)
        (λ st. nodes_loop-print strings tokens fuel s' st rest good.1 (omega arith) stands)

length-print : (tokens : List Token) (rest : List ℕ) → length tokens < length (print tokens rest)
length-print [] rest = omega arith
length-print (opens name ∷ tokens) rest = omega (
  arith,
  length-print tokens rest,
  length-append name (0 ∷ (padding (length name + 1) ++ print tokens rest)),
  length-append (padding (length name + 1)) (print tokens rest),
)
length-print (closes ∷ tokens) rest = omega (arith, length-print tokens rest)
length-print (says off value ∷ tokens) rest = omega (
  arith,
  length-print tokens rest,
  length-append value (padding (length value) ++ print tokens rest),
  length-append (padding (length value)) (print tokens rest),
)
length-print (nothing ∷ tokens) rest = omega (arith, length-print tokens rest)

-- For tokens whose names are UTF-8 without zeros and whose numbers fit 32 bits, printed with their
-- padding and closed by the end token, fewer than 2^63 bytes with what follows, parse_nodes gives what
-- the tokens do to the parser's first state one after the other, errors and panics included.
pub parse_nodes-print :
    (strings : List ℕ) (tokens : List Token) (rest : List ℕ)
    → All IsPrintable tokens
    → length (print tokens rest) < 2 ^ 63
    → parse_nodes (print tokens rest) strings ≡ act_all strings tokens new_state
unfolding parse_nodes
parse_nodes-print strings tokens rest good sized =
    nodes_loop-print strings tokens (suc (length (print tokens rest))) (new (print tokens rest))
      new_state rest good (omega (arith, length-print tokens rest))
      (record { before = record { passed = []; stands = refl; sized = sized }; whole = refl })
