-- ===== src/Memory/MemoryMap/Splice.antt =====
-- `replace` of kernel/memory/src/memory_map.rs: two rotations replace a part of a sequence.
use mathlib.Core.List.{append_assoc}
use aarch.Base.{
  ℕ, ◌+◌, ◌-◌, ◌≤◌, ◌<◌, true, ◌⊎◌, inl, inr, Bool-cases, leb→le, List, ◌++◌, ◌≡◌, refl, sym, ap,
  ◌∙◌, arith, leb, length, take, drop, ok, panic, length-append, take_front, drop_front,
  take-append-drop, length-take, length-drop, drop-drop, subst,
}
use aarch.Memory.MemoryMap.Seq.{range, rotate_left, replace}

leb_of_le : (a b : ℕ) → a ≤ b → leb a b ≡ true
leb_of_le a b h = ground arith

module _ {ℓ} {A : Type ℓ} where
  rotate_left-append :
      (xs ys : List A) (n : ℕ) → n ≡ length xs → rotate_left (xs ++ ys) n ≡ ok (ys ++ xs)
  unfolding rotate_left
  rotate_left-append xs ys n e =
      rw
        (
          leb_of_le n (length (xs ++ ys)) (omega (arith, length-append xs ys)),
          drop_front xs ys n e,
          take_front xs ys n e,
        )
        refl

  pub replace-parts :
      (l m r items : List A) (lo hi : ℕ)
      → lo ≡ length l
      → hi ≡ length l + length m
      → replace (l ++ (m ++ r)) (range lo hi) items ≡ ok (l ++ (items ++ r))
  unfolding replace
  replace-parts l m r items lo hi e f =
      rw
        (
          ← append_assoc l m r,
          leb_of_le hi (length ((l ++ m) ++ r)) (omega (arith, total, length-append l m)),
          rotate_left-append (l ++ m) r hi (omega (arith, length-append l m)),
          ← append_assoc r l m,
          take_front (r ++ l) m (lo + (length ((l ++ m) ++ r) - hi))
              (omega (arith, total, length-append l m, length-append r l)),
          append_assoc r l items,
          rotate_left-append r (l ++ items) (length ((l ++ m) ++ r) - hi)
              (omega (arith, total, length-append l m)),
          append_assoc l items r,
        )
        refl
    where
      total : length ((l ++ m) ++ r) ≡ length (l ++ m) + length r
      total = length-append (l ++ m) r

  -- Where lo is at most hi, replace gives the first lo elements, the items, and the elements
  -- from hi on, or panics where hi is past the end.
  pub replace_lem :
      (seq items : List A) (lo hi : ℕ)
      → lo ≤ hi
      → ((hi ≤ length seq)
          × (replace seq (range lo hi) items ≡ ok (take lo seq ++ (items ++ drop hi seq))))
        ⊎ ((length seq < hi) × (replace seq (range lo hi) items ≡ panic))
  unfolding replace
  replace_lem seq items lo hi h = elim (Bool-cases (leb hi (length seq))) [
    | inl t ↦ inl (leb→le hi (length seq) t, inside (leb→le hi (length seq) t))
    | inr t ↦ inr (ground arith, rw t refl)
  ]
    where
      parts : take lo seq ++ (take (hi - lo) (drop lo seq) ++ drop hi seq) ≡ seq
      parts =
          ap (λ t. take lo seq ++ (take (hi - lo) (drop lo seq) ++ t))
            (sym (drop-drop (hi - lo) lo hi seq (omega arith)))
          ∙ ap (λ t. take lo seq ++ t) (take-append-drop (hi - lo) (drop lo seq))
          ∙ take-append-drop lo seq

      inside :
          hi ≤ length seq
          → replace seq (range lo hi) items ≡ ok (take lo seq ++ (items ++ drop hi seq))
      inside p =
          subst (λ s. replace s (range lo hi) items ≡ ok (take lo seq ++ (items ++ drop hi seq)))
            parts
            (replace-parts (take lo seq) (take (hi - lo) (drop lo seq)) (drop hi seq) items lo hi
              (omega (arith, length-take lo seq))
              (omega (
                arith,
                length-take lo seq,
                length-take (hi - lo) (drop lo seq),
                length-drop lo seq,
              )))
