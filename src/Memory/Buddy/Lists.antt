-- ===== src/Memory/Buddy/Lists.antt =====
-- The free lists of kernel/memory/src/buddy.rs, which share one array of links.
use aarch.Memory.Buddy.Frees.{All-Among, Among, Among-rest, Frees, update}
use aarch.Base.{
  ℕ, ◌<◌, ◌≡◌, ◌≢◌, ◌⊎◌, inl, inr, refl, sym, ap, ◌∙◌, arith, subst, some, List, [], ◌∷◌, ◌++◌,
  ◌==◌, length, get_elem?, get_elem?-set_self, get_elem?-set_ne, length-set, set, drop, Bool-cases,
  ok,
}
use aarch.Intrusive.{IntrusiveList, Links}
use aarch.Intrusive.Chain.{Misses, Kept-Chain, store-inside}
use aarch.Intrusive.Sequence.{Holds, Updated, push_link-Holds, pop_link-Holds, remove_link-Holds}
use aarch.Memory.Buddy.{BuddySystem, levels, push, pop, remove}

-- Each free list holds its elements, and no element stands in two of them.
pub record Lists (sys : BuddySystem) (frees : Frees) : Type 0 where
  pub count : length sys.free ≡ levels
  pub size : length sys.links ≡ length sys.pages
  pub holds :
      (k : ℕ)
      → k < levels
      → (l : IntrusiveList) × (get_elem? sys.free k ≡ some l) × Holds sys.links l (frees k)
  pub one_level :
      (k j x : ℕ) → k < levels → j < levels → Among x (frees k) → Among x (frees j) → k ≡ j

-- The system with other links and another list at the level.
abbrev pub relisted : BuddySystem → ℕ → Links → IntrusiveList → BuddySystem
relisted sys k links l = record sys { links = links; free = set sys.free k l }

pub relisted-Lists :
    (sys : BuddySystem) (frees : Frees) (k : ℕ) (touched ys : List ℕ) (after : Links)
    (l : IntrusiveList)
    → Lists sys frees
    → k < levels
    → Updated sys.links after l touched ys
    → ((x j : ℕ) → j < levels → Among x touched → Among x (frees j) → j ≡ k)
    → ((x : ℕ) → Among x ys → Among x touched)
    → Lists (relisted sys k after l) (update frees k ys)
relisted-Lists sys frees k touched ys after l h inside updated own part = record {
  count = length-set sys.free k l ∙ h.count;
  size = updated.size ∙ h.size;
  holds = holds;
  one_level = one_level;
}
  where
    holds :
        (j : ℕ)
        → j < levels
        → (m : IntrusiveList) × (get_elem? (set sys.free k l) j ≡ some m)
          × Holds after m (update frees k ys j)
    holds j low = elim (Bool-cases (j == k)) [
      | inl t ↦
          let same : j ≡ k = ground arith in
          (
            l,
            ap (λ i. get_elem? (set sys.free k l) i) same
                ∙ get_elem?-set_self sys.free k l (omega (arith, h.count)),
            rw t updated.holds,
          )
      | inr f ↦
          let differs : k ≢ j = λ e. absurd (ground arith) in
          let (m, found, held) = h.holds j low in
          (
            m,
            get_elem?-set_ne sys.free k j l differs ∙ found,
            rw f (record {
              chain =
                  Kept-Chain touched updated.kept
                    (All-Among (λ y. Misses y touched) (frees j)
                      λ y a.
                        All-Among (λ z. z ≢ y) touched
                          λ z b e. differs (sym (own y j low (subst (λ w. Among w touched) e b) a)))
                    held.chain;
              distinct = held.distinct;
            }),
          )
    ]

    -- An element of one of the new lists is one of the same list, or was touched.
    from :
        (j x : ℕ)
        → Among x (update frees k ys j)
        → ((j ≡ k) × Among x touched) ⊎ ((j ≢ k) × Among x (frees j))
    from j x a = elim (Bool-cases (j == k)) [
      | inl t ↦ inl (ground arith, part x (subst (λ zs. Among x zs) (rw t refl) a))
      | inr f ↦ inr ((λ e. absurd (ground arith)), subst (λ zs. Among x zs) (rw f refl) a)
    ]

    one_level :
        (i j x : ℕ)
        → i < levels
        → j < levels
        → Among x (update frees k ys i)
        → Among x (update frees k ys j)
        → i ≡ j
    one_level i j x low low' a b = elim (from i x a) [
      | inl (p, s) ↦ elim (from j x b) [
        | inl (q, t) ↦ p ∙ sym q
        | inr (q, t) ↦ absurd (q (own x j low' s t))
      ]
      | inr (p, s) ↦ elim (from j x b) [
        | inl (q, t) ↦ absurd (p (own x i low t s))
        | inr (q, t) ↦ h.one_level i j x low low' s t
      ]
    ]

module _ (sys : BuddySystem) (frees : Frees) (k : ℕ) (h : Lists sys frees) (low : k < levels) where
  pub push-Lists :
      (p : ℕ)
      → p < length sys.pages
      → ((j : ℕ) → j < levels → ¬ Among p (frees j))
      → (links : Links) × (l : IntrusiveList) × (push sys k p ≡ ok (relisted sys k links l))
        × Lists (relisted sys k links l) (update frees k (p ∷ frees k))
  unfolding push
  push-Lists p inside new =
      let (l, found, held) = h.holds k low in
      let (links, l', runs, updated) =
        push_link-Holds sys.links l (frees k) p held (omega (arith, h.size)) (
          All-Among (λ y. y ≢ p) (frees k)
            λ y a e. new k low (subst (λ z. Among z (frees k)) e a)) in
      (
        links,
        l',
        rw (found, runs, store-inside sys.free k l' (omega (arith, h.count))) refl,
        relisted-Lists sys frees k (p ∷ frees k) (p ∷ frees k) links l' h low updated own
            (λ x a. a),
      )
    where
      own : (x j : ℕ) → j < levels → Among x (p ∷ frees k) → Among x (frees j) → j ≡ k
      own x j below (inl e) b = absurd (new j below (subst (λ z. Among z (frees j)) e b))
      own x j below (inr a) b = h.one_level j k x below low b a

  -- An element of the list at the level stands in no list of another one.
  here : (x j : ℕ) → j < levels → Among x (frees k) → Among x (frees j) → j ≡ k
  here x j below a b = h.one_level j k x below low b a

  pub remove-Lists :
      (front : List ℕ) (p : ℕ) (back : List ℕ)
      → frees k ≡ front ++ p ∷ back
      → (links : Links) × (l : IntrusiveList) × (remove sys k p ≡ ok (relisted sys k links l))
        × Lists (relisted sys k links l) (update frees k (front ++ back))
  unfolding remove
  remove-Lists front p back e =
      let (l, found, held) = h.holds k low in
      let (links, l', runs, updated) =
        remove_link-Holds sys.links l front back p (subst (λ xs. Holds sys.links l xs) e held) in
      (
        links,
        l',
        rw (found, runs, store-inside sys.free k l' (omega (arith, h.count))) refl,
        relisted-Lists sys frees k (front ++ p ∷ back) (front ++ back) links l' h low updated
            (λ x j below a. here x j below (subst (λ xs. Among x xs) (sym e) a))
            (λ x. Among-rest x front p back),
      )

  pub pop-Lists :
      (links : Links) × (l : IntrusiveList) × (pop sys k
        ≡ ok (get_elem? (frees k) 0, relisted sys k links l))
      × Lists (relisted sys k links l) (update frees k (drop 1 (frees k)))
  unfolding pop
  pop-Lists =
      let (l, found, held) = h.holds k low in
      let (links, l', runs, updated) = pop_link-Holds sys.links l (frees k) held in
      (
        links,
        l',
        rw (found, runs, store-inside sys.free k l' (omega (arith, h.count))) refl,
        relisted-Lists sys frees k (frees k) (drop 1 (frees k)) links l' h low updated here
            (Among-drop (frees k)),
      )
    where
      Among-drop : (xs : List ℕ) (x : ℕ) → Among x (drop 1 xs) → Among x xs
      Among-drop [] x a = a
      Among-drop (y ∷ ys) x a = inr a
