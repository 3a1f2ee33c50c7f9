-- ===== src/Intrusive/Relink.antt =====
-- The two writes of `remove_link` of kernel/intrusive/src/list.rs that close the gap.
use aarch.Base.{
  ℕ, ◌<◌, ◌≡◌, ◌≢◌, refl, ◌∙◌, arith, true, none, some, List, [], ◌∷◌, ◌==◌, length,
  get_elem?-set_self, length-set, set, All, ok, if◌then◌else◌,
}
use aarch.Intrusive.{
  Pointer, IntrusiveListLink, Links, same_pointer, set_next, set_next_at, set_prev_at,
}
use aarch.Intrusive.Chain.{
  Chain, nil, cons, Distinct, Misses, Kept, Kept-set, point_back, last_differs, store-inside,
  get_elem?-inside,
}

pub ==_self : (n : ℕ) → (n == n) ≡ true
==_self n = ground arith

-- Where a list begins when the elements `xs` stand first, and `n` behind them.
abbrev pub or_first : List ℕ → Pointer → Pointer → Pointer
or_first [] n first = n
or_first (x ∷ xs) n first = first

-- Where a list ends when the elements `xs` stand last, and `p` before them.
abbrev pub or_last : List ℕ → Pointer → Pointer → Pointer
or_last [] p last = p
or_last (x ∷ xs) p last = last

Kept-cons :
    (links after : Links) (x : ℕ) (xs : List ℕ) → Kept links after xs → Kept links after (x ∷ xs)
Kept-cons links after x xs kept j other = kept j other.1

module _ {links : Links} (n : Pointer) where
  relink_last :
      {prev : Pointer} {x : ℕ} {xs : List ℕ} {first next last : Pointer}
      → Distinct (x ∷ xs)
      → Chain links prev (x ∷ xs) first next last
      → (after : Links) × (set_next_at links last n ≡ ok after)
        × Chain after prev (x ∷ xs) first n last
        × (length after ≡ length links)
        × Kept links after (x ∷ xs)
  unfolding set_next_at set_next
  relink_last distinct (cons prev x [] second next last held (nil prev' next')) =
      let inside : x < length links = get_elem?-inside links x _ held in
      let link : IntrusiveListLink = record { next = n; prev = prev } in
      (
        set links x link,
        rw held (store-inside links x link inside),
        cons prev x [] n n (some x) (get_elem?-set_self links x link inside) (nil (some x) n),
        length-set links x link,
        Kept-set links x link [],
      )
  relink_last distinct (cons prev x (y ∷ ys) second next last held chain) =
      let (after, runs, chained, same, kept) = relink_last distinct.1 chain in
      (
        after,
        runs,
        cons prev x (y ∷ ys) second n last (kept x (apart x (y ∷ ys) distinct.0) ∙ held) chained,
        same,
        Kept-cons links after x (y ∷ ys) kept,
      )
    where
      apart : (x : ℕ) (ys : List ℕ) → All (λ y. y ≢ x) ys → Misses x ys
      apart x ys h = h

  -- The elements before the gap point on past it.
  pub relink_front :
      {xs : List ℕ} {first next last : Pointer}
      → Distinct xs
      → Chain links none xs first next last
      → (after : Links) × (set_next_at links last n ≡ ok after)
        × Chain after none xs (or_first xs n first) n last
        × (length after ≡ length links)
        × Kept links after xs
  unfolding set_next_at
  relink_front distinct (nil prev next) = (links, refl, nil none n, refl, λ j other. refl)
  relink_front distinct (cons prev x xs second next last held chain) =
      relink_last distinct (cons none x xs second next last held chain)

  -- The elements behind the gap point back past it.
  pub relink_back :
      {prev : Pointer} {ys : List ℕ} {first last : Pointer}
      → Distinct ys
      → Chain links prev ys first none last
      → (after : Links) × (set_prev_at links first n ≡ ok after)
        × Chain after n ys first none (or_last ys n last)
        × (length after ≡ length links)
        × Kept links after ys
  unfolding set_prev_at
  relink_back distinct (nil prev next) = (links, refl, nil n none, refl, λ j other. refl)
  relink_back distinct (cons prev y ys second next last held chain) =
      let (after, runs, chained, same, kept) =
        point_back n distinct (cons prev y ys second none last held chain) in
      (after, runs, chained, same, λ j other. kept j (other.0, tt))

same_pointer_comm : (p q : Pointer) → same_pointer p q ≡ same_pointer q p
same_pointer_comm none none = refl
same_pointer_comm none (some b) = refl
same_pointer_comm (some a) none = refl
same_pointer_comm (some a) (some b) = ground arith

module _ {links : Links} (ptr : ℕ) (n : Pointer) where
  -- The tests of `remove_link` find out whether the gap is at an end of the list.
  pub head_test :
      {xs : List ℕ} {first last : Pointer}
      → Misses ptr xs
      → Chain links none xs first (some ptr) last
      → (if same_pointer first (some ptr) then n else first) ≡ or_first xs n first
  head_test other (nil prev next) = rw (==_self ptr)
  head_test other (cons prev x xs second next last held chain) = ground (arith, other.0)

  pub tail_test :
      {ys : List ℕ} {first last : Pointer}
      → Misses ptr ys
      → Chain links (some ptr) ys first none last
      → (if same_pointer last (some ptr) then n else last) ≡ or_last ys n last
  tail_test other (nil prev next) = rw (==_self ptr)
  tail_test other (cons prev y ys second next last held chain) =
      rw (same_pointer_comm last (some ptr))
        (rw (last_differs ptr (ground (arith, other.0)) other.1 chain))
