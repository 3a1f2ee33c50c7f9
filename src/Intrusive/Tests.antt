-- ===== src/Intrusive/Tests.antt =====
-- The intrusive list of kernel/intrusive/src/list.rs at small inputs.
use aarch.Base.{ℕ, ◌≡◌, refl, arith, some, none, List, [], ◌∷◌, ok}
use aarch.Intrusive.{
  Links, IntrusiveList, new_link, push_link, pop_link, remove_link, set_next, set_prev,
}
use aarch.Intrusive.Chain.{nil, cons}
use aarch.Intrusive.Sequence.{Holds, Updated, push_link-Holds, pop_link-Holds, remove_link-Holds}

-- Two elements: the element 2 stands before the element 0.
abbrev links : Links
links =
    record { next = none; prev = some 2 }
    ∷ (new_link ∷ (record { next = some 0; prev = none } ∷ []))

abbrev list : IntrusiveList
list = record { head = some 2; tail = some 0 }

abbrev held : List ℕ
held = 2 ∷ (0 ∷ [])

list-Holds : Holds links list held
list-Holds = record {
  chain =
      cons none 2 (0 ∷ []) (some 0) none (some 0) refl
        (cons (some 2) 0 [] none none (some 0) refl (nil (some 0) none));
  distinct = (((λ e. omega (arith, e)), tt), (tt, tt));
}

push_link-Holds_example :
    (after : Links) × (pushed : IntrusiveList) × (push_link links list 1 ≡ ok (after, pushed))
    × Updated links after pushed (1 ∷ held) (1 ∷ held)
push_link-Holds_example =
    push_link-Holds links list held 1 list-Holds (omega arith)
      ((λ e. omega (arith, e)), ((λ e. omega (arith, e)), tt))

pop_link-Holds_example :
    (after : Links) × (popped : IntrusiveList) × (pop_link links list ≡ ok (some 2, after, popped))
    × Updated links after popped held (0 ∷ [])
pop_link-Holds_example = pop_link-Holds links list held list-Holds

remove_link-Holds_example :
    (after : Links) × (rest : IntrusiveList) × (remove_link links list 0 ≡ ok (after, rest))
    × Updated links after rest held (2 ∷ [])
remove_link-Holds_example = remove_link-Holds links list (2 ∷ []) [] 0 list-Holds

-- The last element is removed.
removed :
    remove_link links list 0
    ≡ ok (new_link ∷ (new_link ∷ (new_link ∷ [])), record { head = some 2; tail = some 2 })
unfolding remove_link set_next set_prev
removed = refl
