-- ===== src/Devicetree/Fdt/Property.antt =====
-- `prop_arm` of kernel/devicetree/src/fdt.rs does what a printed property says.
use aarch.Base.{ℕ, ◌≡◌, refl, List, length, Result, ok, err, panic, stuck, slice_from, ◌>>=◌}
use aarch.Devicetree.Scanner.{Scanner, new, consume_be32, consume_cstr, consume_data, align_forward}
use aarch.Devicetree.Fdt.{State, more, prop_arm, new_property}
use aarch.Devicetree.Fdt.Print.{says, act}

-- The last steps of a property, of which the alignment succeeds.
says_tail :
    (strings : List ℕ) (off : ℕ) (value : List ℕ) (state : State) (s s' : Scanner)
    → align_forward s 4 ≡ ok s'
    → (do
      names ← slice_from strings off
      (name, _) ← consume_cstr (new names)
      state ← new_property state name value
      s ← align_forward s 4
      ok (more s state))
      ≡ (act strings (says off value) state >>= λ state. ok (more s' state))
unfolding act
says_tail strings off value state s s' aligned = named (slice_from strings off)
  where
    last :
        (m : Result State)
        → (m >>= λ state. align_forward s 4 >>= λ s. ok (more s state))
          ≡ (m >>= λ state. ok (more s' state))
    last panic = refl
    last stuck = refl
    last (err message) = refl
    last (ok state) = rw aligned refl

    said :
        (m : Result (List ℕ × Scanner))
        → (m >>= λ r.
            new_property state r.0 value >>= λ state. align_forward s 4 >>= λ s. ok (more s state))
          ≡ ((m >>= λ r. new_property state r.0 value) >>= λ state. ok (more s' state))
    said panic = refl
    said stuck = refl
    said (err message) = refl
    said (ok r) = last (new_property state r.0 value)

    named :
        (m : Result (List ℕ))
        → (m >>= λ names. consume_cstr (new names) >>= λ r.
            new_property state r.0 value >>= λ state. align_forward s 4 >>= λ s. ok (more s state))
          ≡ ((m >>= λ names. consume_cstr (new names) >>= λ r. new_property state r.0 value)
              >>= λ state. ok (more s' state))
    named panic = refl
    named stuck = refl
    named (err message) = refl
    named (ok names) = said (consume_cstr (new names))

pub prop_arm-says :
    (strings : List ℕ) (off : ℕ) (value : List ℕ) (state : State) (s1 s2 s3 s4 s5 : Scanner)
    → consume_be32 s1 ≡ ok (length value, s2)
    → consume_be32 s2 ≡ ok (off, s3)
    → consume_data s3 (length value) ≡ ok (value, s4)
    → align_forward s4 4 ≡ ok s5
    → prop_arm strings s1 state
      ≡ (act strings (says off value) state >>= λ state. ok (more s5 state))
unfolding prop_arm
prop_arm-says strings off value state s1 s2 s3 s4 s5 second third fourth fifth =
    rw (second, third, fourth) (says_tail strings off value state s4 s5 fifth)
