-- ===== src/Devicetree/Fdt/Print.antt =====
-- The structure block of a flattened device tree, kernel/devicetree/src/fdt.rs, as the list of what it
-- says.
use aarch.Base.{
  ℕ, ◌+◌, ◌^◌, ◌<◌, ◌≡◌, true, List, [], ◌∷◌, ◌++◌, All, length, Result, ok, ◌>>=◌, slice_from,
}
use aarch.Devicetree.Scanner.{new, is_utf8, consume_cstr}
use aarch.Devicetree.Scanner.Numbers.{be32_bytes}
use aarch.Devicetree.Tree.{DeviceTreeNode, Text}
use aarch.Devicetree.Fdt.{
  State, begin_node, end_node, new_property, finish, fdt_begin_node, fdt_end_node, fdt_prop,
  fdt_nop, fdt_end,
}
use aarch.Devicetree.Fdt.Reads.{padding}

-- A property says where its name stands among the strings.
pub data Token : Type 0 where
  opens : Text → Token
  closes : Token
  says : ℕ → List ℕ → Token
  nothing : Token

-- The bytes of the tokens, the end token, and what follows.
abbrev pub print : List Token → List ℕ → List ℕ
print [] rest = be32_bytes fdt_end ++ rest
print (opens name ∷ tokens) rest =
    be32_bytes fdt_begin_node ++ (name ++ 0 ∷ (padding (length name + 1) ++ print tokens rest))
print (closes ∷ tokens) rest = be32_bytes fdt_end_node ++ print tokens rest
print (says off value ∷ tokens) rest =
    be32_bytes fdt_prop
    ++ (be32_bytes (length value)
        ++ (be32_bytes off ++ (value ++ (padding (length value) ++ print tokens rest))))
print (nothing ∷ tokens) rest = be32_bytes fdt_nop ++ print tokens rest

-- What the tokens do to the state of the parser.
unfoldable pub act : List ℕ → Token → State → Result State
unfolding begin_node end_node new_property consume_cstr
act strings (opens name) state = ok (begin_node state name)
act strings closes state = end_node state
act strings (says off value) state = do
  names ← slice_from strings off
  (name, _) ← consume_cstr (new names)
  new_property state name value
act strings nothing state = ok state

unfoldable pub act_all : List ℕ → List Token → State → Result DeviceTreeNode
unfolding act finish
act_all strings [] state = finish state
act_all strings (token ∷ tokens) state = do
  state ← act strings token state
  act_all strings tokens state

-- Names are texts that a zero can close, and the numbers have 32 bits.
abbrev pub IsPrintable : Token → Type 0
IsPrintable (opens name) = All (λ b. 0 < b) name × (is_utf8 name ≡ true)
IsPrintable closes = Unit
IsPrintable (says off value) = (off < 2 ^ 32) × (length value < 2 ^ 32)
IsPrintable nothing = Unit
