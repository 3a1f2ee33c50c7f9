-- ===== src/Intrusive.antt =====
-- kernel/intrusive/src/list.rs: the doubly linked list through links that its elements hold.
pub mod Offset
pub mod Chain
pub mod Distinct
pub mod Relink
pub mod Sequence
mod Tests
use aarch.Base.{
  ℕ, Bool, true, false, Option, none, some, List, ◌==◌, if◌then◌else◌, Result, ok, panic, ◌>>=◌,
  ◌>>◌, index, store,
}

-- The elements stand in an array, and a pointer is an index into it, `none` the null pointer.
-- A pointer out of the array, undefined behaviour in the source, is a `panic` here.
abbrev pub Pointer : Type 0
Pointer = Option ℕ

-- `IntrusiveListNode`, the content of an `IntrusiveListLink`.
pub record IntrusiveListLink : Type 0 where
  pub next : Pointer
  pub prev : Pointer

abbrev pub new_link : IntrusiveListLink
new_link = record { next = none; prev = none }

pub record IntrusiveList : Type 0 where
  pub head : Pointer
  pub tail : Pointer

abbrev pub new : IntrusiveList
new = record { head = none; tail = none }

abbrev pub same_pointer : Pointer → Pointer → Bool
same_pointer none none = true
same_pointer none (some b) = false
same_pointer (some a) none = false
same_pointer (some a) (some b) = a == b

unfoldable pub is_empty : IntrusiveList → Bool
is_empty l = same_pointer l.head none

abbrev pub Links : Type 0
Links = List IntrusiveListLink

-- `(*ptr).set_next(next)` and `(*ptr).set_prev(prev)`
unfoldable pub set_next : Links → ℕ → Pointer → Result Links
set_next links ptr next = do link ← index links ptr; store links ptr (record link { next = next })

unfoldable pub set_prev : Links → ℕ → Pointer → Result Links
set_prev links ptr prev = do link ← index links ptr; store links ptr (record link { prev = prev })

-- A write through a pointer that is tested for null, which then does nothing.
unfoldable pub set_next_at : Links → Pointer → Pointer → Result Links
unfolding set_next
set_next_at links none next = ok links
set_next_at links (some ptr) next = set_next links ptr next

unfoldable pub set_prev_at : Links → Pointer → Pointer → Result Links
unfolding set_prev
set_prev_at links none prev = ok links
set_prev_at links (some ptr) prev = set_prev links ptr prev

unfoldable pub push_link : Links → IntrusiveList → ℕ → Result (Links × IntrusiveList)
unfolding set_prev
push_link links l ptr = do
  links ← store links ptr (record { next = l.head; prev = none })
  elim l.head [
    | none ↦ ok (links, record { head = some ptr; tail = some ptr })
    | some head ↦ (do
      links ← set_prev links head (some ptr)
      ok (links, record { head = some ptr; tail = l.tail }))
  ]

-- `(*next).set_prev(ptr::null())` of `pop_link`, which does not test `next`.
unfoldable pub unlink_first : Links → Pointer → Result Links
unfolding set_prev
unlink_first links none = panic
unlink_first links (some next) = set_prev links next none

unfoldable pub pop_link : Links → IntrusiveList → Result (Option ℕ × Links × IntrusiveList)
unfolding set_prev unlink_first
pop_link links l = elim l.head [
  | none ↦ ok (none, links, l)
  | some ptr ↦ (do
    node ← index links ptr
    if same_pointer (some ptr) l.tail
        then (do
          links ← store links ptr new_link
          ok (some ptr, links, record { head = none; tail = none }))
        else (do
          links ← unlink_first links node.next
          links ← store links ptr new_link
          ok (some ptr, links, record l { head = node.next })))
]

unfoldable pub remove_link : Links → IntrusiveList → ℕ → Result (Links × IntrusiveList)
unfolding set_next_at set_prev_at set_next set_prev
remove_link links l ptr = do
  node ← index links ptr
  links ← store links ptr new_link
  links ← set_next_at links node.prev node.next
  links ← set_prev_at links node.next node.prev
  ok (
    links,
    record {
      head = if same_pointer l.head (some ptr) then node.next else l.head;
      tail = if same_pointer l.tail (some ptr) then node.prev else l.tail;
    },
  )
