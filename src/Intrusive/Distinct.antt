-- ===== src/Intrusive/Distinct.antt =====
-- Sequences of elements without repetition, taken apart around one of them.
use aarch.Base.{ℕ, ◌≢◌, sym, List, [], ◌∷◌, ◌++◌, All}
use aarch.Intrusive.Chain.{Distinct, Misses}

pub record Parts (front : List ℕ) (x : ℕ) (back : List ℕ) : Type 0 where
  pub front_distinct : Distinct front
  pub back_distinct : Distinct back
  pub front_misses : Misses x front
  pub back_misses : Misses x back
  pub back_apart : All (λ y. Misses y front) back
  pub front_apart : All (λ y. Misses y back) front
  pub rest_distinct : Distinct (front ++ back)

All-parts :
    (P : ℕ → Type 0) (front : List ℕ) (x : ℕ) (back : List ℕ)
    → All P (front ++ x ∷ back)
    → All P front × P x × All P back
All-parts P [] x back h = (tt, h.0, h.1)
All-parts P (y ∷ front) x back h = let (a, b, c) = All-parts P front x back h.1 in ((h.0, a), b, c)

All-rest : (P : ℕ → Type 0) (front back : List ℕ) → All P front → All P back → All P (front ++ back)
All-rest P [] back p q = q
All-rest P (y ∷ front) back p q = (p.0, All-rest P front back p.1 q)

-- `y` stands before all of `back`.
Misses-cons :
    (y : ℕ) (front back : List ℕ)
    → All (λ z. z ≢ y) back
    → All (λ z. Misses z front) back
    → All (λ z. Misses z (y ∷ front)) back
Misses-cons y front [] p q = tt
Misses-cons y front (z ∷ back) p q = (((λ e. p.0 (sym e)), q.0), Misses-cons y front back p.1 q.1)

pub Distinct-Parts :
    (front : List ℕ) (x : ℕ) (back : List ℕ) → Distinct (front ++ x ∷ back) → Parts front x back
Distinct-Parts [] x back d = record {
  front_distinct = tt;
  back_distinct = d.1;
  front_misses = tt;
  back_misses = d.0;
  back_apart = apart back;
  front_apart = tt;
  rest_distinct = d.1;
}
  where
    apart : (back : List ℕ) → All (λ y. Misses y []) back
    apart [] = tt
    apart (y ∷ ys) = (tt, apart ys)
Distinct-Parts (y ∷ front) x back d =
    let (a, b, c) = All-parts (λ z. z ≢ y) front x back d.0 in
    let p = Distinct-Parts front x back d.1 in
    record {
      front_distinct = (a, p.front_distinct);
      back_distinct = p.back_distinct;
      front_misses = ((λ e. b (sym e)), p.front_misses);
      back_misses = p.back_misses;
      back_apart = Misses-cons y front back c p.back_apart;
      front_apart = (c, p.front_apart);
      rest_distinct = (All-rest (λ z. z ≢ y) front back a c, p.rest_distinct);
    }
