-- ===== src/Memory/Buddy/Calm.antt =====
-- The operations of kernel/memory/src/buddy.rs and of its lists end.
use aarch.Base.{
  ℕ, zero, suc, ◌+◌, ◌-◌, not, ◌||◌, List, get_elem?, ltb, bit_and, ◌==◌, ok, panic, Calm,
  bind-Calm, if-Calm, match-Calm, assert, index, store, expect, length, Option, none, some, min,
}
use aarch.Intrusive.{
  Links, IntrusiveList, Pointer, push_link, remove_link, set_prev, set_next, set_next_at,
  set_prev_at,
}
use aarch.Memory.MemoryMap.Calm.{assert-Calm}
use aarch.Memory.Page.{Page, complement, level_mask, set_level, level, is_free, set_free}
use aarch.Memory.Buddy.{
  BuddySystem, Freeing, levels, push, remove, merge_loop, free_pages_at_level, free_pages,
  page_offset, buddy_index, in_page_range,
}

expect-Calm : {A : Type 0} (o : Option A) → Calm (expect o)
expect-Calm none = tt
expect-Calm (some a) = tt

store-Calm : {A : Type 0} (xs : List A) (i : ℕ) (x : A) → Calm (store xs i x)
store-Calm xs i x = if-Calm (ltb i (length xs)) _ panic tt tt

set_prev-Calm : (links : Links) (i : ℕ) (p : Pointer) → Calm (set_prev links i p)
unfolding set_prev
set_prev-Calm links i p =
    bind-Calm (index links i) _ (expect-Calm (get_elem? links i)) (λ node. store-Calm links i _)

set_next-Calm : (links : Links) (i : ℕ) (p : Pointer) → Calm (set_next links i p)
unfolding set_next
set_next-Calm links i p =
    bind-Calm (index links i) _ (expect-Calm (get_elem? links i)) (λ node. store-Calm links i _)

set_next_at-Calm : (links : Links) (at p : Pointer) → Calm (set_next_at links at p)
unfolding set_next_at
set_next_at-Calm links none p = tt
set_next_at-Calm links (some i) p = set_next-Calm links i p

set_prev_at-Calm : (links : Links) (at p : Pointer) → Calm (set_prev_at links at p)
unfolding set_prev_at
set_prev_at-Calm links none p = tt
set_prev_at-Calm links (some i) p = set_prev-Calm links i p

push_link-Calm : (links : Links) (l : IntrusiveList) (ptr : ℕ) → Calm (push_link links l ptr)
unfolding push_link
push_link-Calm links l ptr = bind-Calm _ _ (store-Calm links ptr _) λ links.
    match-Calm l.head _ _ tt λ head.
      bind-Calm (set_prev links head (some ptr)) _ (set_prev-Calm links head (some ptr)) (λ _. tt)

remove_link-Calm : (links : Links) (l : IntrusiveList) (ptr : ℕ) → Calm (remove_link links l ptr)
unfolding remove_link
remove_link-Calm links l ptr =
    bind-Calm (index links ptr) _ (expect-Calm (get_elem? links ptr)) λ node.
      bind-Calm _ _ (store-Calm links ptr _) λ links.
        bind-Calm (set_next_at links node.prev node.next) _
          (set_next_at-Calm links node.prev node.next)
          λ links.
            bind-Calm (set_prev_at links node.next node.prev) _
              (set_prev_at-Calm links node.next node.prev) (λ _. tt)

push-Calm : (sys : BuddySystem) (k p : ℕ) → Calm (push sys k p)
unfolding push
push-Calm sys k p = bind-Calm (index sys.free k) _ (expect-Calm (get_elem? sys.free k)) λ l.
    bind-Calm (push_link sys.links l p) _ (push_link-Calm sys.links l p)
      λ r. bind-Calm (store sys.free k r.1) _ (store-Calm sys.free k r.1) (λ _. tt)

remove-Calm : (sys : BuddySystem) (k p : ℕ) → Calm (remove sys k p)
unfolding remove
remove-Calm sys k p = bind-Calm (index sys.free k) _ (expect-Calm (get_elem? sys.free k)) λ l.
    bind-Calm (remove_link sys.links l p) _ (remove_link-Calm sys.links l p)
      λ r. bind-Calm (store sys.free k r.1) _ (store-Calm sys.free k r.1) (λ _. tt)

set_level-Calm : (page : Page) (k : ℕ) → Calm (set_level page k)
unfolding set_level
set_level-Calm page k =
    bind-Calm (assert (bit_and k (complement level_mask) == 0)) _
      (assert-Calm (bit_and k (complement level_mask) == 0)) (λ _. tt)

merge_loop-Calm : (n : ℕ) (f : Freeing) → Calm (merge_loop n f)
unfolding merge_loop
merge_loop-Calm zero f = tt
merge_loop-Calm (suc n) f =
    let buddy : ℕ = buddy_index f.index f.level in
    if-Calm (not (in_page_range f.sys buddy)) (ok f) _ tt (
      bind-Calm (index f.sys.pages (page_offset f.sys buddy)) _
        (expect-Calm (get_elem? f.sys.pages (page_offset f.sys buddy)))
        λ page. if-Calm (not (is_free page) || not (level page == f.level)) (ok f) _ tt (
          bind-Calm (remove f.sys f.level (page_offset f.sys buddy)) _ (remove-Calm f.sys f.level _)
            λ sys.
              merge_loop-Calm n
                (record { index = min f.index buddy; level = f.level + 1; sys = sys })))

pub free_pages_at_level-Calm : (sys : BuddySystem) (at k : ℕ) → Calm (free_pages_at_level sys at k)
unfolding free_pages_at_level
free_pages_at_level-Calm sys at k =
    bind-Calm (merge_loop (levels - 1 - k) (record { index = at; level = k; sys = sys })) _
      (merge_loop-Calm (levels - 1 - k) _)
      λ f.
        bind-Calm (index f.sys.pages (page_offset f.sys f.index)) _
          (expect-Calm (get_elem? f.sys.pages (page_offset f.sys f.index)))
          λ freed.
            bind-Calm (set_level (set_free freed) f.level) _
              (set_level-Calm (set_free freed) f.level)
              λ freed.
                bind-Calm (store f.sys.pages (page_offset f.sys f.index) freed) _
                  (store-Calm f.sys.pages (page_offset f.sys f.index) freed)
                  λ pages.
                    push-Calm (record f.sys { pages = pages }) f.level (page_offset f.sys f.index)

pub free_pages-Calm : (sys : BuddySystem) (at : ℕ) → Calm (free_pages sys at)
unfolding free_pages
free_pages-Calm sys at =
    bind-Calm (index sys.pages (page_offset sys at)) _
      (expect-Calm (get_elem? sys.pages (page_offset sys at)))
      λ page. free_pages_at_level-Calm sys at (level page)
