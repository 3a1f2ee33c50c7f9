-- ===== src/Base/Slices.antt =====
-- Slices of a sequence in three parts.
use Prim.Native.Nat.{ℕ, ◌+◌, ◌-◌, ◌≤◌}
use mathlib.Core.Path.{◌≡◌, refl}
use mathlib.Core.Bool.{true}
use mathlib.Core.List.{List, ◌++◌}
use native.Mathlib.Omega.{arith}
use aarch.Base.Tests.{leb}
use aarch.Base.Lists.{
  length, take, drop, length-append, take_front, drop_front, length-take, length-drop,
}
use aarch.Base.Outcome.{ok, slice}

pub le→leb : (a b : ℕ) → a ≤ b → leb a b ≡ true
le→leb a b h = ground arith

module _ {ℓ} {A : Type ℓ} where
  pub slice-middle :
      (pre mid rest : List A) (lo hi : ℕ)
      → lo ≡ length pre
      → hi ≡ length pre + length mid
      → slice (pre ++ (mid ++ rest)) lo hi ≡ ok mid
  slice-middle pre mid rest lo hi e f =
      rw
        (
          le→leb lo hi (omega arith),
          le→leb hi (length (pre ++ (mid ++ rest)))
              (omega (arith, length-append pre (mid ++ rest), length-append mid rest)),
          drop_front pre (mid ++ rest) lo e,
          take_front mid rest (hi - lo) (omega arith),
        )
        refl

  pub slice_ok :
      (xs : List A) (lo hi : ℕ)
      → lo ≤ hi
      → hi ≤ length xs
      → slice xs lo hi ≡ ok (take (hi - lo) (drop lo xs))
  slice_ok xs lo hi p q = rw (le→leb lo hi p, le→leb hi (length xs) q) refl

  pub length-slice :
      (xs : List A) (lo hi : ℕ)
      → lo ≤ hi
      → hi ≤ length xs
      → length (take (hi - lo) (drop lo xs)) ≡ hi - lo
  length-slice xs lo hi p q = omega (arith, length-take (hi - lo) (drop lo xs), length-drop lo xs)
