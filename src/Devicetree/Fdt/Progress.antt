-- ===== src/Devicetree/Fdt/Progress.antt =====
-- No call of the parser of kernel/devicetree/src/fdt.rs is stuck or moves its scanner back.
use aarch.Base.{
  Calm, unwrap-Calm, if-Calm, bind-Calm, ℕ, ◌+◌, ◌-◌, ◌≤◌, ◌<◌, some, List, [], ◌∷◌, ◌≡◌, ◌⊎◌, inl,
  inr, refl, ◌∙◌, arith, ◌==◌, leb, length, ok, err, Steps, Bool-cases, Option-cases, drop, take,
  ◌&&◌, length-drop, u64, ltb,
}
use aarch.Devicetree.Scanner.{
  AddressSpace, Scanner, new, find_zero, is_utf8, consume_be32, consume_cstr, consume_data,
  align_forward,
}
use aarch.Devicetree.Scanner.Numbers.{IsScanner, consume_be32-cases}
use aarch.Devicetree.Scanner.Moves.{align_forward-least}
use aarch.Devicetree.Tree.{Text, with_property, same_text, size_cells_name, address_cells_name}

-- The scanner has not gone back, over the same data.
pub record Ahead (s s' : Scanner) : Type 0 where
  pub good : IsScanner s'
  pub same : s'.bytes ≡ s.bytes
  pub forward : s.offset ≤ s'.offset

pub Ahead-trans : (s t u : Scanner) → Ahead s t → Ahead t u → Ahead s u
Ahead-trans s t u p q = record {
  good = q.good;
  same = q.same ∙ p.same;
  forward = omega (arith, p.forward, q.forward);
}

find_zero_bounds :
    (i : ℕ) (rest : List ℕ) (j : ℕ) → find_zero i rest ≡ some j → (i ≤ j) × (j < i + length rest)
unfolding find_zero
find_zero_bounds i [] j h = cc
find_zero_bounds i (b ∷ rest) j h = ground (arith, find_zero_bounds (i + 1) rest j)

module _ (s : Scanner) (good : IsScanner s) where
  pub consume_be32-Ahead : Steps (λ r. Ahead s r.1 × (s.offset + 4 ≤ r.1.offset)) (consume_be32 s)
  consume_be32-Ahead = elim (consume_be32-cases s good) [
    | inl stops ↦ rw stops tt
    | inr (v, runs, room) ↦ rw runs (
      record {
        good = record { inside = room; sized = good.sized };
        same = refl;
        forward = omega arith;
      },
      omega arith,
    )
  ]

  cstr_found :
      (i : ℕ)
      → find_zero s.offset (drop s.offset s.bytes) ≡ some i
      → Ahead s (record s { offset = i + 1 })
  cstr_found i found =
      let (low, high) = find_zero_bounds s.offset (drop s.offset s.bytes) i found in
      record {
        good = record {
          inside = omega (arith, length-drop s.offset s.bytes, good.inside);
          sized = good.sized;
        };
        same = refl;
        forward = omega arith;
      }

  pub consume_cstr-Ahead : Steps (λ r. Ahead s r.1) (consume_cstr s)
  unfolding consume_cstr
  consume_cstr-Ahead = elim (Option-cases (find_zero s.offset (drop s.offset s.bytes))) [
    | inl missing ↦ rw (missing, consume_cstr) tt
    | inr (i, found) ↦
        rw (found, consume_cstr)
          (elim (Bool-cases (leb s.offset i && leb i (length s.bytes))) [
            | inr out ↦ rw out tt
            | inl inside ↦
                rw inside
                  (elim (Bool-cases (is_utf8 (take (i - s.offset) (drop s.offset s.bytes)))) [
                    | inl valid ↦ rw valid (cstr_found i found)
                    | inr bad ↦ rw bad tt
                  ])
          ])
  ]

  pub consume_data-Ahead : (size : ℕ) → Steps (λ r. Ahead s r.1) (consume_data s size)
  unfolding consume_data
  consume_data-Ahead size =
      let end : ℕ = u64 (s.offset + size) in
      elim (Bool-cases (ltb (length s.bytes) end)) [
        | inl short ↦ rw short tt
        | inr long ↦ elim (Bool-cases (leb s.offset end && leb end (length s.bytes))) [
          | inr out ↦ rw (long, out) tt
          | inl inside ↦
              rw (long, inside)
                (record {
                  good = record { inside = ground arith; sized = good.sized };
                  same = refl;
                  forward = ground arith;
                })
        ]
      ]

  pub align_forward-Ahead : Steps (λ r. Ahead s r) (align_forward s 4)
  align_forward-Ahead =
      let (r, _, low, _, outcome) = align_forward-least s 4 good (omega arith) (omega arith) in
      aligned r low outcome
    where
      aligned :
          (r : ℕ)
          → s.offset ≤ r
          → ((align_forward s 4 ≡ ok (record s { offset = r }))
              × ((r ≡ s.offset) ⊎ (r < length s.bytes)))
            ⊎ ((align_forward s 4 ≡ err "Not enough data") × (s.offset < r) × (length s.bytes ≤ r))
          → Steps (λ r. Ahead s r) (align_forward s 4)
      aligned r low (inl runs) = rw (runs.0) (record {
        good = record { inside = ground (arith, runs.1, good.inside); sized = good.sized };
        same = refl;
        forward = low;
      })
      aligned r low (inr stops) = rw (stops.0) tt

pub consume_be32-Calm : (s : Scanner) → Calm (consume_be32 s)
unfolding consume_be32
consume_be32-Calm s = elim (Bool-cases (ltb (length s.bytes) (u64 (s.offset + 4)))) [
  | inl short ↦ rw short tt
  | inr long ↦
      elim (Bool-cases
        (leb s.offset (u64 (s.offset + 4)) && leb (u64 (s.offset + 4)) (length s.bytes))) [
          | inr out ↦ rw (long, out) tt
          | inl inside ↦
              rw (long, inside)
                (elim (Bool-cases
                  (length (take (u64 (s.offset + 4) - s.offset) (drop s.offset s.bytes)) == 4)) [
                    | inl t ↦ rw t tt
                    | inr t ↦ rw t tt
                  ])
        ]
]

pub consume_cstr-Calm : (s : Scanner) → Calm (consume_cstr s)
unfolding consume_cstr
consume_cstr-Calm s = elim (Option-cases (find_zero s.offset (drop s.offset s.bytes))) [
  | inl missing ↦ rw (missing, consume_cstr) tt
  | inr (i, found) ↦
      rw (found, consume_cstr)
        (elim (Bool-cases (leb s.offset i && leb i (length s.bytes))) [
          | inr out ↦ rw out tt
          | inl inside ↦
              rw inside (elim (Bool-cases (is_utf8 (take (i - s.offset) (drop s.offset s.bytes)))) [
                | inl valid ↦ rw valid tt
                | inr bad ↦ rw bad tt
              ])
        ])
]

pub with_property-Calm :
    (space : AddressSpace) (name : Text) (value : List ℕ) → Calm (with_property space name value)
unfolding with_property
with_property-Calm space name value =
    bind-Calm _ _
      (if-Calm (same_text name size_cells_name) _ _
        (bind-Calm _ _ (unwrap-Calm _ (consume_be32-Calm (new value))) (λ _. tt)) tt)
      (λ sized.
        if-Calm (same_text name address_cells_name) _ _
          (bind-Calm _ _ (unwrap-Calm _ (consume_be32-Calm (new value))) (λ _. tt)) tt)

-- The bytes are a piece of the data.
abbrev pub IsPiece : List ℕ → List ℕ → Type 0
IsPiece bytes v = (i n : ℕ) × (v ≡ take n (drop i bytes))

pub consume_data-IsPiece :
    (s : Scanner) (size : ℕ) → Steps (λ r. IsPiece s.bytes r.0) (consume_data s size)
unfolding consume_data
consume_data-IsPiece s size =
    let end : ℕ = u64 (s.offset + size) in
    elim (Bool-cases (ltb (length s.bytes) end)) [
      | inl short ↦ rw short tt
      | inr long ↦ elim (Bool-cases (leb s.offset end && leb end (length s.bytes))) [
        | inr out ↦ rw (long, out) tt
        | inl inside ↦ rw (long, inside) (s.offset, end - s.offset, refl)
      ]
    ]
