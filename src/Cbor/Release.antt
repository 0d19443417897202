-- ===== src/Cbor/Release.antt =====
-- The free functions give back exactly what a value owns, and leave a value that owns nothing.
use nim_ffi.Base.{
  refl, ◌∙◌, Bool, true, false, not, if◌then◌else◌, none, some, List, [], ◌∷◌, arith,
}
use nim_ffi.Heap.{Heap, Ptr}
use nim_ffi.Heap.Laws.{Owned, Loses, Holds, owned_ptr, free-Loses, frees-both}
use nim_ffi.Cbor.Values.{owned_str, free_str, NimFfiBytes, free_block, free_bytes, address}
use nim_ffi.Cbor.Struct.{Seq, Opt, free_items, free_array, free_seq, free_opt}
use nim_ffi.Cbor.Memory.{Unowned, owned_bytes, owned_items, owned_array, owned_seq, owned_opt}

abbrev pub Frees : {X : Type 0} → (X → Owned) → (X → Heap → X × Heap) → Type 0
Frees {X} own fr = (x : X) (h : Heap) → Holds (own x) h → Loses (own x) h (fr x h).1

abbrev pub Clears : {X : Type 0} → (X → Owned) → (X → Heap → X × Heap) → Type 0
Clears {X} own fr = (x : X) (h : Heap) → Unowned own (fr x h).0

pub Loses-nothing : (h : Heap) → Loses (λ _. 0) h h
Loses-nothing h = record { live = λ a. omega arith; bad = refl }

pub free_str-Frees : Frees owned_str free_str
unfolding free_str
free_str-Frees s h o = free-Loses (address s) h o

free_block-Loses :
    (p : Ptr) (v : NimFfiBytes) (h : Heap)
    → Holds (owned_ptr p) h
    → Loses (owned_ptr p) h (free_block p v h).1
unfolding free_block
free_block-Loses none v h o = Loses-nothing h
free_block-Loses (some p) v h o = free-Loses (some p) h o

pub free_bytes-Frees : Frees owned_bytes free_bytes
unfolding free_bytes
free_bytes-Frees v h o = free_block-Loses v.block v h o

module _ {X : Type 0} (own : X → Owned) (fr : X → Heap → X × Heap) (frees : Frees own fr) where
  free_items-Frees :
      (xs : List X) (h : Heap)
      → Holds (owned_items own xs) h
      → Loses (owned_items own xs) h (free_items fr xs h)
  unfolding free_items
  free_items-Frees [] h o = Loses-nothing h
  free_items-Frees (x ∷ xs) h o = frees-both (frees x h) (free_items-Frees xs (fr x h).1) o

  free_array-Loses :
      (p : Ptr) (v : Seq X) (h : Heap)
      → Holds (owned_array own p v.items) h
      → Loses (owned_array own p v.items) h (free_array fr p v h).1
  unfolding free_array
  free_array-Loses none v h o = Loses-nothing h
  free_array-Loses (some p) v h o =
      let items = free_items-Frees v.items h (λ a. omega (arith, o a)) in
      let array =
        free-Loses (some p) (free_items fr v.items h) (λ a. omega (arith, o a, items.live a)) in
      record { live = λ a. omega (arith, items.live a, array.live a); bad = array.bad ∙ items.bad }

  -- Freeing a sequence frees its elements and its array.
  pub free_seq-Frees : Frees (owned_seq own) (free_seq fr)
  unfolding free_seq
  free_seq-Frees v h o = free_array-Loses v.block v h o

  free_opt-cases :
      (b : Bool) (v w : Opt X) (h : Heap)
      → Holds (λ a. if b then own v.value a else 0) h
      → Loses
          (λ a. if b then own v.value a else 0)
          h
          (if◌then◌else◌ {A = Opt X × Heap} (not b) (v, h) (w, (fr v.value h).1)).1
  free_opt-cases true v w h o = frees v.value h o
  free_opt-cases false v w h o = Loses-nothing h

  pub free_opt-Frees : Frees (owned_opt own) (free_opt fr)
  unfolding free_opt
  free_opt-Frees v h o = free_opt-cases v.has_value v _ h o
