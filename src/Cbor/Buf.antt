-- ===== src/Cbor/Buf.antt =====
-- The buffer drivers of nim_ffi_cbor.h, and its copies of C strings.
use nim_ffi.Base.{
  ℕ, zero, suc, ◌+◌, ◌%◌, ◌^◌, ltb, ◌==◌, Bool, true, false, none, some, List, codes, length,
  if◌then◌else◌,
}
use nim_ffi.Heap.{Heap, Ptr, malloc, realloc, free}
use nim_ffi.Tinycbor.{
  CborError, no_error, out_of_memory, improper_value, data_too_large, other_error, failed, Writer,
  Reader,
}
use nim_ffi.Cbor.Values.{CStr, null, chars, Decoder, Encoder}
use nim_ffi.Cbor.Dec.{size_max}

-- A text in the block that `malloc` gave.
unfoldable pub place : List ℕ → Ptr × Heap → CStr × Heap
place s (none, h) = (null, h)
place s (some p, h) = (chars p s, h)

-- `nimffi_dup_cstr`.
unfoldable pub dup_cstr : List ℕ → Heap → CStr × Heap
unfolding place
dup_cstr s h = place s (malloc h)

-- `nimffi_dup_cstr_n`: `s` is the run of `n` bytes.
unfoldable pub dup_cstr_n : List ℕ → Heap → CStr × Heap
unfolding place
dup_cstr_n s h = if length s == size_max then (null, h) else place s (malloc h)

-- `if (err) *err = nimffi_dup_cstr(…)`.
unfoldable pub report : Bool → List ℕ → Heap → CStr × Heap
unfolding dup_cstr
report wanted s h = if wanted then dup_cstr s h else (null, h)

-- What `nimffi_encode_to_buf` leaves behind: the buffer and its contents, or the error text.
pub data Encoded : Type 0 where
  encoded : (buf : ℕ) → List ℕ → Heap → Encoded
  not_encoded : CStr → Heap → Encoded
  out_of_fuel : Encoded

abbrev pub not_encoded_with : CStr × Heap → Encoded
not_encoded_with (s, h) = not_encoded s h

-- Behind `realloc`: the error, or the next round.
unfoldable pub encode_grown :
    Bool → (cap buf : ℕ) → Ptr × Heap → ((cap buf : ℕ) → Heap → Encoded) → Encoded
encode_grown wants cap buf (none, h) again =
    not_encoded_with (report wants (codes "out of memory") (free (some buf) h))
encode_grown wants cap buf (some b, h) again = again cap b h

module _ {E : Type 0} ⦃w : Writer E⦄ where
  -- What the loop does with the answer of `fn`; `again` is its next round.
  unfoldable pub encode_step :
      Bool → (cap buf : ℕ) → Heap → CborError × E → ((cap buf : ℕ) → Heap → Encoded) → Encoded
  encode_step wants cap buf h (no_error, e) again = encoded buf (w.written e) h
  encode_step wants cap buf h (out_of_memory, e) again =
      let extra = w.extra_bytes_needed e in
      let cap' = (cap + (if ltb 0 extra then extra else cap)) % 2 ^ 64 in
      encode_grown wants cap' buf (realloc (some buf) h) again
  encode_step wants cap buf h (improper_value, e) again =
      not_encoded_with (report wants (w.error_text improper_value) (free (some buf) h))
  encode_step wants cap buf h (data_too_large, e) again =
      not_encoded_with (report wants (w.error_text data_too_large) (free (some buf) h))
  encode_step wants cap buf h (other_error n, e) again =
      not_encoded_with (report wants (w.error_text (other_error n)) (free (some buf) h))

  -- `for (;;)`, on fuel.
  unfoldable pub encode_loop : ℕ → Bool → Encoder E → (cap buf : ℕ) → Heap → Encoded
  unfolding encode_step encode_grown
  encode_loop zero wants fn cap buf h = out_of_fuel
  encode_loop (suc fuel) wants fn cap buf h =
      encode_step wants cap buf h (fn (w.encoder_init cap)) (encode_loop fuel wants fn)

  unfoldable pub encode_from : ℕ → Bool → Encoder E → Ptr × Heap → Encoded
  unfolding encode_loop
  encode_from fuel wants fn (none, h) = not_encoded_with (report wants (codes "out of memory") h)
  encode_from fuel wants fn (some p, h) = encode_loop fuel wants fn 4096 p h

  -- `nimffi_encode_to_buf`; `fn` is the codec at the value that it is called with.
  unfoldable pub encode_to_buf : ℕ → Bool → Encoder E → Heap → Encoded
  unfolding encode_from
  encode_to_buf fuel wants fn h = encode_from fuel wants fn (malloc h)

-- What `nimffi_decode_from_buf` leaves behind: whether it returned 0, the value, the error text.
pub record Decoded (X : Type 0) : Type 0 where
  pub ok : Bool
  pub out : X
  pub err : CStr
  pub heap : Heap

unfoldable pub decode_failed : {X : Type 0} → Bool → List ℕ → X → Heap → Decoded X
decode_failed wants text out h =
    let (err, h') = report wants text h in record { ok = false; out = out; err = err; heap = h' }

module _ {V : Type 0} ⦃c : Reader V⦄ where
  -- `nimffi_decode_from_buf`.
  unfoldable pub decode_from_buf : {X : Type 0} → Bool → Decoder V X → List ℕ → X → Heap → Decoded X
  unfolding decode_failed
  decode_from_buf wants fn buf out h =
      let (e, it) = c.parser_init buf in
      if failed e
      then decode_failed wants (c.error_text e) out h
      else let (e', s) = fn (record { it = it; out = out; heap = h }) in
        if failed e'
        then decode_failed wants (c.error_text e') s.out s.heap
        else record { ok = true; out = s.out; err = null; heap = s.heap }
