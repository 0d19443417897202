-- ===== src/Cbor/Dec.antt =====
-- The leaf decoders. Each stores into `out` where it succeeds, and moves the iterator on.
use nim_ffi.Base.{
  ℕ, ℤ, pos, negsuc, ltℤ, ltb, ◌-◌, ◌^◌, ◌==◌, Bool, ◌||◌, not, none, some, if◌then◌else◌,
}
use nim_ffi.Heap.{Heap, Ptr, malloc, free}
use nim_ffi.Tinycbor.{
  CborError, no_error, out_of_memory, improper_value, data_too_large, failed, Reader,
}
use nim_ffi.Cbor.Values.{CStr, chars, NimFfiBytes, Decoder}

abbrev pub size_max : ℕ
size_max = 2 ^ 64 - 1

-- `INT32_MIN`, `INT32_MAX` and their like, for a width of `b + 1` bits.
abbrev pub int_min : ℕ → ℤ
int_min b = negsuc (2 ^ b - 1)

abbrev pub int_max : ℕ → ℤ
int_max b = pos (2 ^ b - 1)

-- A call that stores its result in a local variable, with `if (err) return err;` behind it.
abbrev pub fetch : {A S : Type 0} → CborError × A → S → (A → CborError × S) → CborError × S
fetch r s k = if failed r.0 then (r.0, s) else k r.1

module _ {V X : Type 0} ⦃c : Reader V⦄ where
  -- `cbor_value_advance(it)`.
  unfoldable pub advance_it : Decoder V X
  advance_it s = let r = c.advance s.it in (r.0, record s { it = r.1 })

  -- `out` has been given its value if `err` says so.
  unfoldable pub advance_if_ok : CborError × X → Decoder V X
  unfolding advance_it
  advance_if_ok r s = fetch r s (λ x. advance_it (record s { out = x }))

module _ {V : Type 0} ⦃c : Reader V⦄ where
  unfoldable pub dec_bool : Decoder V Bool
  unfolding advance_if_ok
  dec_bool s =
      if not (c.is_boolean s.it) then (improper_value, s) else advance_if_ok (c.get_boolean s.it) s

  unfoldable pub dec_i64 : Decoder V ℤ
  unfolding advance_if_ok
  dec_i64 s =
      if not (c.is_integer s.it)
      then (improper_value, s)
      else advance_if_ok (c.get_int64_checked s.it) s

  -- The body of the narrower signed decoders, whose range is `b + 1` bits wide. A value out of
  -- range is refused with the iterator behind it.
  unfoldable pub dec_signed : ℕ → Decoder V ℤ
  unfolding dec_i64
  dec_signed b s =
      let (err, t) = dec_i64 (record s { out = pos 0 }) in
      if failed err
      then (err, record t { out = s.out })
      else if ltℤ t.out (int_min b) || ltℤ (int_max b) t.out
      then (data_too_large, record t { out = s.out })
      else (no_error, t)

  unfoldable pub dec_i32 : Decoder V ℤ
  unfolding dec_signed
  dec_i32 = dec_signed 31

  unfoldable pub dec_i16 : Decoder V ℤ
  unfolding dec_signed
  dec_i16 = dec_signed 15

  unfoldable pub dec_i8 : Decoder V ℤ
  unfolding dec_signed
  dec_i8 = dec_signed 7

  unfoldable pub dec_u64 : Decoder V ℕ
  unfolding advance_if_ok
  dec_u64 s =
      if not (c.is_unsigned_integer s.it)
      then (improper_value, s)
      else advance_if_ok (c.get_uint64 s.it) s

  -- The body of the narrower unsigned decoders, `b` bits wide.
  unfoldable pub dec_unsigned : ℕ → Decoder V ℕ
  unfolding dec_u64
  dec_unsigned b s =
      let (err, t) = dec_u64 (record s { out = 0 }) in
      if failed err
      then (err, record t { out = s.out })
      else if ltb (2 ^ b - 1) t.out
      then (data_too_large, record t { out = s.out })
      else (no_error, t)

  unfoldable pub dec_u32 : Decoder V ℕ
  unfolding dec_unsigned
  dec_u32 = dec_unsigned 32

  unfoldable pub dec_u16 : Decoder V ℕ
  unfolding dec_unsigned
  dec_u16 = dec_unsigned 16

  unfoldable pub dec_u8 : Decoder V ℕ
  unfolding dec_unsigned
  dec_u8 = dec_unsigned 8

  unfoldable pub dec_f64 : Decoder V ℕ
  unfolding advance_if_ok advance_it
  dec_f64 s =
      if c.is_double s.it
      then advance_if_ok (c.get_double s.it) s
      else if c.is_float s.it
      then fetch (c.get_float s.it) s (λ f. advance_it (record s { out = c.widen f }))
      else (improper_value, s)

  unfoldable pub dec_f32 : Decoder V ℕ
  unfolding advance_if_ok advance_it
  dec_f32 s =
      if c.is_float s.it
      then advance_if_ok (c.get_float s.it) s
      else if c.is_double s.it
      then fetch (c.get_double s.it) s (λ d. advance_it (record s { out = c.narrow d }))
      else (improper_value, s)

  -- The copy into the block that `malloc` gave, and the terminator behind it.
  unfoldable pub copy_str : ℕ → Ptr × Heap → Decoder V CStr
  unfolding advance_it
  copy_str len (none, h) s = (out_of_memory, record s { heap = h })
  copy_str len (some p, h) s =
      let (err, bytes) = c.copy_text_string s.it len in
      if failed err
      then (err, record s { heap = free (some p) h })
      else advance_it (record s { out = chars p bytes; heap = h })

  unfoldable pub dec_str : Decoder V CStr
  unfolding copy_str
  dec_str s =
      if not (c.is_text_string s.it)
      then (improper_value, s)
      else fetch (c.get_string_length s.it) s
          λ len. if len == size_max then (data_too_large, s) else copy_str len (malloc s.heap) s

  -- Here the block and its length are stored before the copy, and taken back if it fails.
  unfoldable pub copy_bytes : ℕ → Ptr × Heap → Decoder V NimFfiBytes
  unfolding advance_it
  copy_bytes len (none, h) s =
      (out_of_memory, record s { out = record (s.out) { block = none }; heap = h })
  copy_bytes len (some p, h) s =
      let (err, bytes) = c.copy_byte_string s.it len in
      if failed err
      then (
        err,
        record s { out = record (s.out) { block = none; len = 0 }; heap = free (some p) h },
      )
      else advance_it
          (record s { out = record { block = some p; content = bytes; len = len }; heap = h })

  unfoldable pub dec_bytes : Decoder V NimFfiBytes
  unfolding copy_bytes
  dec_bytes s =
      if not (c.is_byte_string s.it)
      then (improper_value, s)
      else fetch (c.get_string_length s.it) s λ len. copy_bytes len (malloc s.heap) s
