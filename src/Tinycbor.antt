-- ===== src/Tinycbor.antt =====
-- TinyCBOR as the generated bindings call it (cbor.h, a library of its own): its error codes, and
-- the functions that write and read, as two interfaces that every codec takes as an instance.
-- `Tinycbor.Laws` states what the round trips rely on of it.
pub mod Items
pub mod Laws
pub mod Model
use nim_ffi.Base.{ℕ, ◌≡◌, Bool, true, false, List, ℤ, if◌then◌else◌}

pub data CborError : Type 0 where
  no_error out_of_memory improper_value data_too_large : CborError
  other_error : ℕ → CborError

-- `if (err)`.
abbrev pub failed : CborError → Bool
failed no_error = false
failed _ = true

-- The functions on a `CborEncoder`. Doubles and floats are their bit patterns.
-- `create_map e n` returns the parent and the new inner encoder.
pub record Writer (E : Type 0) : Type 0 where
  pub encoder_init : (capacity : ℕ) → E
  pub encode_boolean : E → Bool → CborError × E
  pub encode_int : E → ℤ → CborError × E
  pub encode_uint : E → ℕ → CborError × E
  pub encode_double : E → ℕ → CborError × E
  pub encode_float : E → ℕ → CborError × E
  pub encode_text : E → List ℕ → CborError × E
  pub encode_byte_string : E → List ℕ → CborError × E
  pub encode_null : E → CborError × E
  pub create_map : E → ℕ → CborError × E × E
  pub create_array : E → ℕ → CborError × E × E
  pub close_container : E → E → CborError × E
  pub written : E → List ℕ
  pub extra_bytes_needed : E → ℕ
  pub error_text : CborError → List ℕ

-- The functions on a `CborValue`, an iterator. A result beside an error code is what the call
-- stores when the code is `no_error`. `widen` and `narrow` are C's conversions between floats. `error_text` is
-- `cbor_error_string`.
pub record Reader (V : Type 0) : Type 0 where
  pub parser_init : List ℕ → CborError × V
  pub is_valid : V → Bool
  pub is_boolean : V → Bool
  pub is_integer : V → Bool
  pub is_unsigned_integer : V → Bool
  pub is_double : V → Bool
  pub is_float : V → Bool
  pub is_text_string : V → Bool
  pub is_byte_string : V → Bool
  pub is_null : V → Bool
  pub is_map : V → Bool
  pub is_array : V → Bool
  pub get_boolean : V → CborError × Bool
  pub get_int64_checked : V → CborError × ℤ
  pub get_uint64 : V → CborError × ℕ
  pub get_double : V → CborError × ℕ
  pub get_float : V → CborError × ℕ
  pub get_string_length : V → CborError × ℕ
  pub copy_text_string : V → (capacity : ℕ) → CborError × List ℕ
  pub copy_byte_string : V → (capacity : ℕ) → CborError × List ℕ
  pub get_array_length : V → CborError × ℕ
  pub map_find_value : V → List ℕ → CborError × V
  pub enter_container : V → CborError × V
  pub leave_container : V → V → CborError × V
  pub advance : V → CborError × V
  pub widen : ℕ → ℕ
  pub narrow : ℕ → ℕ
  pub error_text : CborError → List ℕ
