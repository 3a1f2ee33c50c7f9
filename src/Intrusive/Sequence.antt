-- ===== src/Intrusive/Sequence.antt =====
-- The operations of kernel/intrusive/src/list.rs refine operations on a sequence.
use aarch.Base.{
  ℕ, ◌<◌, ◌≡◌, ◌≢◌, refl, ◌∙◌, arith, none, some, List, [], ◌∷◌, ◌++◌, length, get_elem?,
  get_elem?-set_self, length-set, set, drop, ok,
}
use aarch.Intrusive.{
  Pointer, IntrusiveListLink, IntrusiveList, Links, new, new_link, unlink_first, push_link,
  pop_link, remove_link,
}
use aarch.Intrusive.Chain.{
  Chain, nil, cons, Distinct, Misses, Kept, Kept-set, Kept-Chain, point_back, last_differs,
  store-inside, get_elem?-inside, alone, split-Chain, join-Chain,
}
use aarch.Intrusive.Distinct.{Parts, Distinct-Parts}
use aarch.Intrusive.Relink.{
  ==_self, or_first, or_last, relink_front, relink_back, head_test, tail_test,
}

-- The list holds the sequence `xs`, its head first.
pub record Holds (links : Links) (l : IntrusiveList) (xs : List ℕ) : Type 0 where
  pub chain : Chain links none xs l.head none l.tail
  pub distinct : Distinct xs

-- After an operation the list holds `ys`; the array is as long, and the elements but `touched` have
-- the links that they had.
pub record Updated (links after : Links) (l : IntrusiveList) (touched ys : List ℕ) : Type 0 where
  pub holds : Holds after l ys
  pub size : length after ≡ length links
  pub kept : Kept links after touched

push_link-Chain :
    (links : Links) (ptr : ℕ) {xs : List ℕ} {first last : Pointer}
    → Chain links none xs first none last
    → Distinct xs
    → ptr < length links
    → Misses ptr xs
    → (after : Links) × (l : IntrusiveList) × (push_link links
          (record { head = first; tail = last })
          ptr
        ≡ ok (after, l))
      × Updated links after l (ptr ∷ xs) (ptr ∷ xs)
unfolding push_link
push_link-Chain links ptr (nil prev next) distinct inside other =
    let link : IntrusiveListLink = new_link in
    (
      set links ptr link,
      record { head = some ptr; tail = some ptr },
      rw (store-inside links ptr link inside) refl,
      record {
        holds = record {
          chain =
              cons none ptr [] none none (some ptr) (get_elem?-set_self links ptr link inside)
                (nil (some ptr) none);
          distinct = (tt, tt);
        };
        size = length-set links ptr link;
        kept = Kept-set links ptr link [];
      },
    )
push_link-Chain links ptr (cons prev x xs second next last held chain) distinct inside other =
    let link : IntrusiveListLink = record { next = some x; prev = none } in
    let kept = Kept-set links ptr link [] in
    let (after, runs, chained, same, others) = point_back (some ptr) distinct (
      Kept-Chain (ptr ∷ []) kept (alone ptr (x ∷ xs) other)
        (cons none x xs second none last held chain)) in
    (
      after,
      record { head = some ptr; tail = last },
      rw (store-inside links ptr link inside, runs) refl,
      record {
        holds = record {
          chain =
              cons none ptr (x ∷ xs) (some x) none last
                (others ptr (other.0, tt) ∙ get_elem?-set_self links ptr link inside) chained;
          distinct = (other, distinct);
        };
        size = same ∙ length-set links ptr link;
        kept = λ j missed. others j (missed.1.0, tt) ∙ kept j (missed.0, tt);
      },
    )

-- Where a list holds a sequence, pushing an element of the array that is not in it succeeds,
-- and the list then holds that element and the others, in an array of the same length whose
-- other links are as before.
pub push_link-Holds :
    (links : Links) (l : IntrusiveList) (xs : List ℕ) (ptr : ℕ)
    → Holds links l xs
    → ptr < length links
    → Misses ptr xs
    → (after : Links) × (l' : IntrusiveList) × (push_link links l ptr ≡ ok (after, l'))
      × Updated links after l' (ptr ∷ xs) (ptr ∷ xs)
push_link-Holds links l xs ptr h inside other =
    push_link-Chain links ptr h.chain h.distinct inside other

pop_link-Chain :
    (links : Links) {xs : List ℕ} {first last : Pointer}
    → Chain links none xs first none last
    → Distinct xs
    → (after : Links) × (l : IntrusiveList) × (pop_link links (record { head = first; tail = last })
        ≡ ok (get_elem? xs 0, after, l))
      × Updated links after l xs (drop 1 xs)
unfolding pop_link unlink_first
pop_link-Chain links (nil prev next) distinct = (
  links,
  new,
  refl,
  record {
    holds = record { chain = nil none none; distinct = tt };
    size = refl;
    kept = λ j missed. refl;
  },
)
pop_link-Chain links (cons prev x xs second next last held (nil prev' next')) distinct = (
  set links x new_link,
  new,
  rw held
      (rw (==_self x) (rw (store-inside links x new_link (get_elem?-inside links x _ held)) refl)),
  record {
    holds = record { chain = nil none none; distinct = tt };
    size = length-set links x new_link;
    kept = Kept-set links x new_link [];
  },
)
pop_link-Chain links
      (cons prev x xs second next last held (cons prev' y ys second' next' last' held' chain))
      distinct =
    let inside : x < length links = get_elem?-inside links x _ held in
    let (after, runs, chained, same, others) =
      point_back none distinct.1 (cons (some x) y ys second' none last' held' chain) in
    (
      set after x new_link,
      record { head = some y; tail = last' },
      rw (held, last_differs x (ground (arith, distinct.0.0)) distinct.0.1 chain, runs)
          (rw (store-inside after x new_link (omega (arith, same, inside))) refl),
      record {
        holds = record {
          chain =
              Kept-Chain (x ∷ []) (Kept-set after x new_link []) (alone x (y ∷ ys) distinct.0)
                chained;
          distinct = distinct.1;
        };
        size = length-set after x new_link ∙ same;
        kept =
            λ j missed. Kept-set after x new_link [] j (missed.0, tt) ∙ others j (missed.1.0, tt);
      },
    )

-- A list that holds a sequence gives its first element, if any, and then holds the others, in
-- an array of the same length whose links but those of the sequence are as before.
pub pop_link-Holds :
    (links : Links) (l : IntrusiveList) (xs : List ℕ)
    → Holds links l xs
    → (after : Links) × (l' : IntrusiveList) × (pop_link links l ≡ ok (get_elem? xs 0, after, l'))
      × Updated links after l' xs (drop 1 xs)
pop_link-Holds links l xs h = pop_link-Chain links h.chain h.distinct

Misses-parts :
    (j : ℕ) (front : List ℕ) (x : ℕ) (back : List ℕ)
    → Misses j (front ++ x ∷ back)
    → Misses j front × (x ≢ j) × Misses j back
Misses-parts j [] x back h = (tt, h.0, h.1)
Misses-parts j (y ∷ front) x back h =
    let (a, b, c) = Misses-parts j front x back h.1 in ((h.0, a), b, c)

remove_link-Chain :
    (links : Links) (ptr : ℕ) (front back : List ℕ) {first m last lf : Pointer}
    → Parts front ptr back
    → Chain links none front first m lf
    → Chain links lf (ptr ∷ back) m none last
    → (after : Links) × (l : IntrusiveList) × (remove_link links
          (record { head = first; tail = last })
          ptr
        ≡ ok (after, l))
      × Updated links after l (front ++ ptr ∷ back) (front ++ back)
unfolding remove_link
remove_link-Chain links ptr front back {first} parts before
      (cons lf x xs second next last held behind) =
    let inside : ptr < length links = get_elem?-inside links ptr _ held in
    let gone = Kept-set links ptr new_link [] in
    let before1 = Kept-Chain (ptr ∷ []) gone (alone ptr front parts.front_misses) before in
    let behind1 = Kept-Chain (ptr ∷ []) gone (alone ptr back parts.back_misses) behind in
    let (links2, runs2, before2, size2, kept2) = relink_front second parts.front_distinct before1 in
    let behind2 = Kept-Chain front kept2 parts.back_apart behind1 in
    let (links3, runs3, behind3, size3, kept3) = relink_back lf parts.back_distinct behind2 in
    let before3 = Kept-Chain back kept3 parts.front_apart before2 in
    (
      links3,
      record { head = or_first front second first; tail = or_last back lf last },
      rw
          (
            held,
            store-inside links ptr new_link inside,
            runs2,
            runs3,
            head_test ptr second parts.front_misses before,
            tail_test ptr lf parts.back_misses behind,
          )
          refl,
      record {
        holds = record { chain = join-Chain back before3 behind3; distinct = parts.rest_distinct };
        size = size3 ∙ size2 ∙ length-set links ptr new_link;
        kept = λ j missed.
            let (a, b, c) = Misses-parts j front ptr back missed in
            kept3 j c ∙ kept2 j a ∙ gone j (b, tt);
      },
    )

-- Where a list holds a sequence, removing an element of it succeeds, and the list then holds
-- what stands before the element and what stands behind it, in an array of the same length
-- whose links but those of the sequence are as before.
pub remove_link-Holds :
    (links : Links) (l : IntrusiveList) (front back : List ℕ) (ptr : ℕ)
    → Holds links l (front ++ ptr ∷ back)
    → (after : Links) × (l' : IntrusiveList) × (remove_link links l ptr ≡ ok (after, l'))
      × Updated links after l' (front ++ ptr ∷ back) (front ++ back)
remove_link-Holds links l front back ptr h =
    let (m, lf, before, behind) = split-Chain front (ptr ∷ back) h.chain in
    remove_link-Chain links ptr front back (Distinct-Parts front ptr back h.distinct) before behind
