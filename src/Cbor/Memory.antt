-- ===== src/Cbor/Memory.antt =====
-- What the decoders allocate, whatever the reader answers and whichever allocation fails.
use nim_ffi.Base.{
  zero, suc, one_if, replicate, pos, ℕ, ◌+◌, ◌≡◌, refl, Bool, true, false, not, inl, inr, none,
  some, List, [], ◌∷◌, String, codes, arith, Bool-cases, if◌then◌else◌,
}
use nim_ffi.Heap.{Heap, Ptr}
use nim_ffi.Heap.Laws.{
  Owned, Gains, Gains-refl, Gains-as, Gains-free, Gains-add, malloc-Gains, owned_ptr,
}
use nim_ffi.Tinycbor.{CborError, improper_value, failed, Reader}
use nim_ffi.Cbor.Values.{null, owned_str, NimFfiBytes, no_bytes, Cursor, Decoder, ◌>>◌}
use nim_ffi.Cbor.Dec.{
  advance_it, advance_if_ok, copy_str, dec_str, copy_bytes, dec_bytes, dec_i64, dec_bool,
}
use nim_ffi.Cbor.Struct.{
  Seq, Opt, no_items, no_value, dec_field, dec_map, dec_items, fill_seq, dec_seq, dec_opt,
}

-- What `out` owns of the blocks that came since `h`.
abbrev pub Tracks : {V S : Type 0} → (S → Owned) → Heap → Cursor V S → Type 0
Tracks own h s = Gains (own s.out) h s.heap

abbrev pub owned_none {ℓ} : {X : Type ℓ} → X → Owned
owned_none x a = 0

abbrev pub Unowned : {X : Type 0} → (X → Owned) → X → Type 0
Unowned own x = (a : ℕ) → own x a ≡ 0

abbrev pub owned_bytes : NimFfiBytes → Owned
owned_bytes v = owned_ptr v.block

abbrev pub seq : {X : Type 0} → ℕ → List X → Seq X
seq p xs = record { block = some p; items = xs }

abbrev pub owned_items : {X : Type 0} → (X → Owned) → List X → Owned
owned_items own [] a = 0
owned_items own (x ∷ xs) a = own x a + owned_items own xs a

-- A null `data` owns nothing.
abbrev pub owned_array : {X : Type 0} → (X → Owned) → Ptr → List X → Owned
owned_array own none xs a = 0
owned_array own (some p) xs a = one_if a p + owned_items own xs a

abbrev pub owned_seq : {X : Type 0} → (X → Owned) → Seq X → Owned
owned_seq own v = owned_array own v.block v.items

-- An option that has no value owns nothing.
abbrev pub owned_opt : {X : Type 0} → (X → Owned) → Opt X → Owned
owned_opt own v a = if v.has_value then own v.value a else 0

abbrev pub at : {V X : Type 0} → V → X → Heap → Cursor V X
at it x h = record { it = it; out = x; heap = h }

-- The heap of a result holds what the result owns.
pub record Ends {V X : Type 0} (own : X → Owned) (h : Heap) (r : CborError × Cursor V X)
    : Type 0 where
  pub gains : Gains (own r.1.out) h r.1.heap

-- From a zeroed value, the decoder allocates exactly what its result owns.
abbrev pub Sound : {V X : Type 0} → (X → Owned) → X → Decoder V X → Type 0
Sound {V} {X} own zeroed d = (it : V) (h : Heap) → Ends own h (d (at it zeroed h))

module _ {V X : Type 0} (own : X → Owned) (h : Heap) where
  pub if-Ends :
      (b : Bool) (x y : CborError × Cursor V X)
      → Ends own h x
      → Ends own h y
      → Ends own h (if b then x else y)
  if-Ends true x y e f = e
  if-Ends false x y e f = f

  pub ends : (r : CborError × Cursor V X) → Gains (own r.1.out) h r.1.heap → Ends own h r
  ends r e = record { gains = e }

pub ruleset walk = (if-Ends, ends)

module _ {V : Type 0} ⦃c : Reader V⦄ where
  copy_str-Ends :
      (len : ℕ) (r : Ptr × Heap) (h : Heap) (it : V)
      → Gains (owned_ptr r.0) h r.1
      → Ends owned_str h (copy_str len r (at it null h))
  unfolding copy_str advance_it
  copy_str-Ends len (none, g) h it e = ends _ _ _ e
  copy_str-Ends len (some p, g) h it e = let back = Gains-free (some p) e in search (walk, back, e)

  -- A decoded string owns the one block that was allocated for it, and a string that could not be
  -- decoded left none behind.
  pub dec_str-Sound : Sound owned_str null (dec_str {V = V})
  unfolding dec_str
  dec_str-Sound it h =
      let same = Gains-refl h in
      let copied = λ (len : ℕ). copy_str-Ends len _ _ it (malloc-Gains h) in
      search (walk, same, copied)

  copy_bytes-Ends :
      (len : ℕ) (r : Ptr × Heap) (h : Heap) (it : V)
      → Gains (owned_ptr r.0) h r.1
      → Ends owned_bytes h (copy_bytes len r (at it no_bytes h))
  unfolding copy_bytes advance_it
  copy_bytes-Ends len (none, g) h it e = ends _ _ _ e
  copy_bytes-Ends len (some p, g) h it e =
      let back = Gains-free (some p) e in search (walk, back, e)

  pub dec_bytes-Sound : Sound owned_bytes no_bytes (dec_bytes {V = V})
  unfolding dec_bytes
  dec_bytes-Sound it h =
      let same = Gains-refl h in
      let copied = λ (len : ℕ). copy_bytes-Ends len _ _ it (malloc-Gains h) in
      search (walk, same, copied)

  -- A decoder of values that own nothing leaves the heap alone.
  pub dec_i64-Sound : Sound owned_none (pos 0) (dec_i64 {V = V})
  unfolding dec_i64 advance_if_ok advance_it
  dec_i64-Sound it h = let same = Gains-refl h in search (walk, same)

  pub dec_bool-Sound : Sound owned_none false (dec_bool {V = V})
  unfolding dec_bool advance_if_ok advance_it
  dec_bool-Sound it h = let same = Gains-refl h in search (walk, same)

module _ {V : Type 0} ⦃c : Reader V⦄ where
  -- A zeroed field is decoded, and the steps behind it go on.
  pub field-Ends :
      {X S : Type 0} (own_x : X → Owned) (own : S → Owned) (h : Heap) (key : String) (get : S → X)
      (set : S → X → S) (d : Decoder V X) (k : Decoder V S) (s : Cursor V S)
      → Sound own_x (get s.out) d
      → Tracks own h s
      → ((x : X) (a : ℕ) → own (set s.out x) a ≡ own_x x a + own s.out a)
      → ((x : X) (g : Heap)
          → Tracks own h (at s.it (set s.out x) g)
          → Ends own h (k (at s.it (set s.out x) g)))
      → Ends own h ((dec_field key get set d >> k) s)
  unfolding dec_field ◌>>◌
  field-Ends own_x own h key get set d k s sound e frame next =
      let found = c.map_find_value s.it (codes key) in
      let r = d (at found.1 (get s.out) s.heap) in
      let all : Gains (own (set s.out r.1.out)) h r.1.heap =
        Gains-as (Gains-add e (sound found.1 s.heap).gains) (λ a. omega (arith, frame r.1.out a)) in
      elim (Bool-cases (failed found.0)) [
        | inl bad ↦ rw (bad, bad) (ends own h _ e)
        | inr there ↦ rw there (elim (Bool-cases (c.is_valid found.1)) [
          | inr bad ↦ rw bad (ends own h _ e)
          | inl valid ↦ rw valid (elim (Bool-cases (failed r.0)) [
            | inl bad ↦ rw bad (ends own h _ all)
            | inr good ↦ rw good (next r.1.out r.1.heap all)
          ])
        ])
      ]

  -- The step over the map behind its last field.
  pub close-Ends :
      {S : Type 0} (own : S → Owned) (h : Heap) (s : Cursor V S)
      → Tracks own h s
      → Ends own h (advance_it s)
  unfolding advance_it
  close-Ends own h s e = ends own h _ e

  pub dec_map-Sound :
      {S : Type 0} (own : S → Owned) (zeroed : S) (body : Decoder V S)
      → Unowned own zeroed
      → ((it : V) (h : Heap) → Tracks own h (at it zeroed h) → Ends own h (body (at it zeroed h)))
      → Sound own zeroed (dec_map body)
  unfolding dec_map
  dec_map-Sound own zeroed body z sound it h =
      let same = Gains-as (Gains-refl h) (λ a. omega (arith, z a)) in
      if-Ends own _ (not (c.is_map it)) (improper_value, at it zeroed h) _ (ends own _ _ same)
        (sound it h same)

  module _ {X : Type 0} (own_x : X → Owned) (zeroed : X) (d : Decoder V X)
      (z : Unowned own_x zeroed) (sound : Sound own_x zeroed d) where
    replicate-Unowned : (n : ℕ) → Unowned (owned_items own_x) (replicate n zeroed)
    replicate-Unowned zero a = refl
    replicate-Unowned (suc n) a = omega (arith, z a, replicate-Unowned n a)

    dec_items-Ends :
        (n : ℕ) (inner : V) (h : Heap)
        → Ends (owned_items own_x) h (dec_items zeroed d (replicate n zeroed) inner h)
    unfolding dec_items
    dec_items-Ends zero inner h = ends _ _ _ (Gains-refl h)
    dec_items-Ends (suc n) inner h =
        let r = d (at inner zeroed h) in
        let first = (sound inner h).gains in
        let rest = (dec_items-Ends n r.1.it r.1.heap).gains in
        if-Ends _ _ (failed r.0) _ _
          (ends _ _ _ (Gains-as first (λ a. omega (arith, replicate-Unowned n a))))
          (ends _ _ _ (Gains-add first rest))

    fill_seq-Ends :
        (len : ℕ) (r : Ptr × Heap) (h : Heap) (it : V)
        → Gains (owned_ptr r.0) h r.1
        → Ends (owned_seq own_x) h (fill_seq zeroed d len r (at it no_items h))
    unfolding fill_seq
    fill_seq-Ends len (none, g) h it e = ends _ _ _ (Gains-as e (λ a. omega arith))
    fill_seq-Ends len (some p, g) h it e =
        let zeros = replicate-Unowned len in
        let inner = (c.enter_container it).1 in
        let r = dec_items zeroed d (replicate len zeroed) inner g in
        let before : Gains (owned_seq own_x (seq p (replicate len zeroed))) h g =
          Gains-as e (λ a. omega (arith, zeros a)) in
        let after : Gains (owned_seq own_x (seq p r.1.out)) h r.1.heap =
          Gains-add e (dec_items-Ends len inner g).gains in
        search (walk, before, after)

    -- A sequence owns its array and what its elements own, also when one of them failed.
    pub dec_seq-Sound : Sound (owned_seq own_x) no_items (dec_seq zeroed d)
    unfolding dec_seq
    dec_seq-Sound it h =
        let same = Gains-refl h in
        let filled = λ (len : ℕ). fill_seq-Ends len _ _ it (malloc-Gains h) in
        search (walk, same, filled)

    pub dec_opt-Sound : Sound (owned_opt own_x) (no_value zeroed) (dec_opt zeroed d)
    unfolding dec_opt advance_it
    dec_opt-Sound it h =
        let same = Gains-refl h in let value = (sound it h).gains in search (walk, same, value)
