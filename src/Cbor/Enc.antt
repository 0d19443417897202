-- ===== src/Cbor/Enc.antt =====
-- The leaf encoders.
use nim_ffi.Base.{ℕ, ℤ, Bool, [], if◌then◌else◌, ◌==◌}
use nim_ffi.Tinycbor.{Writer}
use nim_ffi.Cbor.Values.{CStr, c_text, NimFfiBytes, Encoder}

module _ {E : Type 0} ⦃w : Writer E⦄ where
  unfoldable pub enc_bool : Bool → Encoder E
  enc_bool v e = w.encode_boolean e v

  -- The four widths of signed integers widen to `int64_t` and make the same call.
  unfoldable pub enc_i64 : ℤ → Encoder E
  enc_i64 v e = w.encode_int e v

  unfoldable pub enc_i32 : ℤ → Encoder E
  enc_i32 v e = w.encode_int e v

  unfoldable pub enc_i16 : ℤ → Encoder E
  enc_i16 v e = w.encode_int e v

  unfoldable pub enc_i8 : ℤ → Encoder E
  enc_i8 v e = w.encode_int e v

  unfoldable pub enc_u64 : ℕ → Encoder E
  enc_u64 v e = w.encode_uint e v

  unfoldable pub enc_u32 : ℕ → Encoder E
  enc_u32 v e = w.encode_uint e v

  unfoldable pub enc_u16 : ℕ → Encoder E
  enc_u16 v e = w.encode_uint e v

  unfoldable pub enc_u8 : ℕ → Encoder E
  enc_u8 v e = w.encode_uint e v

  unfoldable pub enc_f64 : ℕ → Encoder E
  enc_f64 v e = w.encode_double e v

  unfoldable pub enc_f32 : ℕ → Encoder E
  enc_f32 v e = w.encode_float e v

  -- A null pointer goes out as the empty text.
  unfoldable pub enc_str : CStr → Encoder E
  enc_str v e = w.encode_text e (c_text v)

  -- `data` is read only where `len` is not zero.
  unfoldable pub enc_bytes : NimFfiBytes → Encoder E
  enc_bytes v e = w.encode_byte_string e (if v.len == 0 then [] else v.content)
