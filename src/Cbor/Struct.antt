-- ===== src/Cbor/Struct.antt =====
-- The shapes that the generator writes out for every struct, sequence and option of a binding
-- header: maps with one entry for each field, arrays, and null for a missing value.
use nim_ffi.Base.{
  ℕ, Bool, true, false, not, none, some, List, [], ◌∷◌, codes, length, replicate, String,
  if◌then◌else◌,
}
use nim_ffi.Heap.{Heap, Ptr, malloc, free}
use nim_ffi.Tinycbor.{CborError, no_error, out_of_memory, improper_value, failed, Writer, Reader}
use nim_ffi.Cbor.Values.{Cursor, Decoder, Encoder, and_then, ◌>>◌}
use nim_ffi.Cbor.Dec.{fetch, advance_it}

-- A sequence: the block at `data`, and its `len` elements.
pub record Seq (X : Type 0) : Type 0 where
  pub block : Ptr
  pub items : List X

pub record Opt (X : Type 0) : Type 0 where
  pub has_value : Bool
  pub value : X

-- The zeroed values.
abbrev pub no_items : {X : Type 0} → Seq X
no_items = record { block = none; items = [] }

abbrev pub no_value : {X : Type 0} → X → Opt X
no_value zeroed = record { has_value = false; value = zeroed }

module _ {E : Type 0} ⦃w : Writer E⦄ where
  -- The calls between the making of an inner encoder and its close.
  unfoldable pub in_container : CborError × E × E → Encoder E → CborError × E
  in_container (err, e, inner) body =
      if failed err
      then (err, e)
      else let (err', inner') = body inner in
        if failed err' then (err', e) else w.close_container e inner'

  unfoldable pub enc_map : ℕ → Encoder E → Encoder E
  unfolding in_container
  enc_map n body e = in_container (w.create_map e n) body

  -- A key and its value.
  unfoldable pub enc_field : String → Encoder E → Encoder E
  enc_field key value = (λ e. w.encode_text e (codes key)) >> value

  module _ {X : Type 0} (enc : X → Encoder E) where
    unfoldable pub enc_items : List X → Encoder E
    enc_items [] e = (no_error, e)
    enc_items (x ∷ xs) e = and_then (enc x e) (enc_items xs)

    unfoldable pub enc_seq : Seq X → Encoder E
    unfolding in_container enc_items
    enc_seq v e = in_container (w.create_array e (length v.items)) (enc_items v.items)

    unfoldable pub enc_opt : Opt X → Encoder E
    enc_opt v e = if not v.has_value then w.encode_null e else enc v.value e

module _ {V : Type 0} ⦃c : Reader V⦄ where
  -- The test at the head; `body` is the fields, and the step over the map.
  unfoldable pub dec_map : {S : Type 0} → Decoder V S → Decoder V S
  dec_map body s = if not (c.is_map s.it) then (improper_value, s) else body s

  -- One field: its value is looked up by key, must be there, and is decoded in place.
  unfoldable pub dec_field :
      {S X : Type 0} → String → (S → X) → (S → X → S) → Decoder V X → Decoder V S
  dec_field key get set dec s = fetch (c.map_find_value s.it (codes key)) s λ field.
      if not (c.is_valid field)
      then (improper_value, s)
      else let (err, t) = dec (record { it = field; out = get s.out; heap = s.heap }) in
        (err, record { it = s.it; out = set s.out t.out; heap = t.heap })

  module _ {X : Type 0} (zeroed : X) (dec : Decoder V X) where
    -- The loop over the elements, which `calloc` has zeroed.
    unfoldable pub dec_items : List X → V → Heap → CborError × Cursor V (List X)
    dec_items [] inner h = (no_error, record { it = inner; out = []; heap = h })
    dec_items (x ∷ xs) inner h =
        let (err, t) = dec (record { it = inner; out = x; heap = h }) in
        let rest = dec_items xs t.it t.heap in
        if failed err
        then (err, record { it = t.it; out = t.out ∷ xs; heap = t.heap })
        else (rest.0, record { it = (rest.1).it; out = t.out ∷ (rest.1).out; heap = (rest.1).heap })

    -- Behind `calloc`: the block is stored, the array entered, read and left.
    unfoldable pub fill_seq : ℕ → Ptr × Heap → Decoder V (Seq X)
    unfolding dec_items
    fill_seq len (none, h) s =
        (out_of_memory, record s { out = record (s.out) { block = none }; heap = h })
    fill_seq len (some p, h) s =
        let empty : Seq X = record { block = some p; items = replicate len zeroed } in
        fetch (c.enter_container s.it) (record s { out = empty; heap = h })
          λ inner.
            let (err, t) = dec_items empty.items inner h in
            let filled = record s {
              out = record { block = some p; items = t.out };
              heap = t.heap;
            } in
            if failed err
            then (err, filled)
            else let (err', it) = c.leave_container s.it t.it in (err', record filled { it = it })

    unfoldable pub dec_seq : Decoder V (Seq X)
    unfolding fill_seq
    dec_seq s =
        if not (c.is_array s.it)
        then (improper_value, s)
        else fetch (c.get_array_length s.it) s λ len. fill_seq len (malloc s.heap) s

    unfoldable pub dec_opt : Decoder V (Opt X)
    dec_opt s =
        if c.is_null s.it
        then advance_it (record s { out = record { has_value = false; value = zeroed } })
        else let (err, t) = dec (record { it = s.it; out = (s.out).value; heap = s.heap }) in
          (
            err,
            record { it = t.it; out = record { has_value = true; value = t.out }; heap = t.heap },
          )

module _ {X : Type 0} (free_item : X → Heap → X × Heap) where
  unfoldable pub free_items : List X → Heap → Heap
  free_items [] h = h
  free_items (x ∷ xs) h = free_items xs (free_item x h).1

  -- The test of `data`, then the elements, the array, and the two fields.
  unfoldable pub free_array : Ptr → Seq X → Heap → Seq X × Heap
  unfolding free_items
  free_array none v h = (v, h)
  free_array (some p) v h =
      (record { block = none; items = [] }, free (some p) (free_items v.items h))

  unfoldable pub free_seq : Seq X → Heap → Seq X × Heap
  unfolding free_array
  free_seq v h = free_array v.block v h

  unfoldable pub free_opt : Opt X → Heap → Opt X × Heap
  free_opt v h =
      if not v.has_value
      then (v, h)
      else let (x, h') = free_item v.value h in (record { has_value = false; value = x }, h')
