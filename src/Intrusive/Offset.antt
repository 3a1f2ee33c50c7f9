-- ===== src/Intrusive/Offset.antt =====
-- `StructFieldOffset` of kernel/intrusive/src/lib.rs: the address of an element and that of its link.
use aarch.Base.{ℕ, ◌+◌, ◌-◌, ◌^◌, ◌<◌, ◌≡◌, arith, u64}

pub record StructFieldOffset : Type 0 where
  pub offset : ℕ

-- The offset that is read off an element `s` and its field `f`.
unfoldable pub new : ℕ → ℕ → StructFieldOffset
new s f = record { offset = u64 (f + 2 ^ 64 - s) }

unfoldable pub field : StructFieldOffset → ℕ → ℕ
field o s = u64 (s + o.offset)

abbrev pub field_mut : StructFieldOffset → ℕ → ℕ
field_mut = field

unfoldable pub container_of : StructFieldOffset → ℕ → ℕ
container_of o f = u64 (f + 2 ^ 64 - o.offset)

abbrev pub container_of_mut : StructFieldOffset → ℕ → ℕ
container_of_mut = container_of

-- An offset that was read off one element takes any other one, its address below 2^64, to its field
-- and back.
pub container_of-field :
    (s f t : ℕ)
    → s < 2 ^ 64
    → f < 2 ^ 64
    → t < 2 ^ 64
    → container_of (new s f) (field (new s f) t) ≡ t
unfolding container_of field new
container_of-field s f t small small' small'' = omega arith
