-- ===== src/Heap.antt =====
-- The C heap as the bindings use it: which blocks are allocated, and whether a block was freed
-- that was not. `fails` says which allocations fail, by their number.
pub mod Laws
use nim_ffi.Base.{
  ℕ, suc, Bool, true, false, Option, none, some, List, ◌∷◌, has, erase, if◌then◌else◌,
}

pub record Heap : Type 0 where
  pub next : ℕ
  pub live : List ℕ
  pub bad : Bool
  pub fails : ℕ → Bool

-- `none` is the null pointer.
abbrev pub Ptr : Type 0
Ptr = Option ℕ

unfoldable pub malloc : Heap → Ptr × Heap
malloc h =
    if h.fails h.next
    then (none, record h { next = suc h.next })
    else (some h.next, record h { next = suc h.next; live = h.next ∷ h.live })

-- Freeing null does nothing; freeing what is not allocated is a fault.
unfoldable pub free : Ptr → Heap → Heap
free none h = h
free (some p) h =
    if has p h.live then record h { live = erase p h.live } else record h { bad = true }

-- On failure the old block stays; on success it is gone, and the result replaces it.
unfoldable pub replace : Ptr → Ptr × Heap → Ptr × Heap
unfolding free
replace p (none, h) = (none, h)
replace p (some b, h) = (some b, free p h)

unfoldable pub realloc : Ptr → Heap → Ptr × Heap
unfolding malloc replace
realloc p h = replace p (malloc h)
