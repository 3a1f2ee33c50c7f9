-- ===== src/Sync.antt =====
-- kernel/sync/src/placeholder.rs: the lock that keeps nobody out. The data of the mutexes stand in a
-- store, and a mutex and a lock name the place: a reference that a lock gives is an alias of it.
use aarch.Base.{ℕ, ◌≡◌, ◌≢◌, arith, ◌==◌, if◌then◌else◌}

abbrev Store : Type 0 → Type 0
Store T = ℕ → T

abbrev write : {T : Type 0} → Store T → ℕ → T → Store T
write store at value = λ place. if place == at then value else store place

record Mutex : Type 0 where
  place : ℕ

record Lock : Type 0 where
  mutex : Mutex

-- A mutex at a place of the store.
unfoldable new : {T : Type 0} → ℕ → T → Store T → Mutex × Store T
new place value store = (record { place = place }, write store place value)

unfoldable lock : Mutex → Lock
lock mutex = record { mutex = mutex }

unfoldable deref : {T : Type 0} → Lock → Store T → T
deref held store = store held.mutex.place

-- An assignment through the reference.
unfoldable deref_mut : {T : Type 0} → Lock → T → Store T → Store T
deref_mut held value store = write store held.mutex.place value

-- A second lock of the mutex, taken while the first is held, sees what is written through the first, and a
-- lock of another mutex sees what it saw.
deref-deref_mut :
    {T : Type 0} (mutex other : Mutex) (value : T) (store : Store T)
    → (deref (lock mutex) (deref_mut (lock mutex) value store) ≡ value)
      × (other.place ≢ mutex.place
          → deref (lock other) (deref_mut (lock mutex) value store) ≡ deref (lock other) store)
unfolding deref deref_mut lock
deref-deref_mut mutex other value store = (ground arith, λ differ. ground arith)
