-- ===== src/Tinycbor/Model/Source.antt =====
-- The reading side of the small codec: an iterator is the list of the items in front of it.
use nim_ffi.Base.{
  ℕ, ℤ, pos, negsuc, ◌^◌, ltb, leb, Bool, true, false, none, some, Option, List, [], length, codes,
  if◌then◌else◌,
}
use nim_ffi.Tinycbor.{CborError, no_error, out_of_memory, data_too_large, other_error, Reader}
use nim_ffi.Tinycbor.Items.{
  Item, Items, int, text, bytes, bool, null, double, float, array, map, nil, cons, size, find,
}
use nim_ffi.Tinycbor.Model.{parse}

abbrev pub in_range : ℤ → Bool
in_range (pos n) = ltb n (2 ^ 63)
in_range (negsuc n) = ltb n (2 ^ 63)

abbrev checked : ℤ → CborError × ℤ
checked n = if in_range n then (no_error, n) else (data_too_large, n)

abbrev copied : List ℕ → ℕ → CborError × List ℕ
copied t capacity = if leb (length t) capacity then (no_error, t) else (out_of_memory, [])

abbrev initial : Option (Items × List ℕ) → CborError × Items
initial none = (other_error 1, nil)
initial (some (xs, rest)) = (no_error, xs)

-- The contents of a text or a byte string, and of an array.
abbrev string_of : Items → List ℕ
string_of (cons (text t) r) = t
string_of (cons (bytes t) r) = t
string_of _ = []

abbrev inside : Items → Items
inside (cons (array xs) r) = xs
inside (cons (map xs) r) = xs
inside _ = nil

abbrev behind : Items → Items
behind (cons x r) = r
behind nil = nil

abbrev is_some_item : (Item → Bool) → Items → Bool
is_some_item p (cons x r) = p x
is_some_item p nil = false

abbrev int_of : Items → ℤ
int_of (cons (int n) r) = n
int_of _ = pos 0

abbrev nat_of : Items → ℕ
nat_of (cons (int (pos n)) r) = n
nat_of (cons (double n) r) = n
nat_of (cons (float n) r) = n
nat_of _ = 0

abbrev bool_of : Items → Bool
bool_of (cons (bool b) r) = b
bool_of _ = false

abbrev test_valid : Item → Bool
test_valid x = true

abbrev test_bool : Item → Bool
test_bool (bool b) = true
test_bool _ = false

abbrev test_int : Item → Bool
test_int (int n) = true
test_int _ = false

abbrev test_uint : Item → Bool
test_uint (int (pos n)) = true
test_uint _ = false

abbrev test_double : Item → Bool
test_double (double n) = true
test_double _ = false

abbrev test_float : Item → Bool
test_float (float n) = true
test_float _ = false

abbrev test_text : Item → Bool
test_text (text t) = true
test_text _ = false

abbrev test_bytes : Item → Bool
test_bytes (bytes t) = true
test_bytes _ = false

abbrev test_null : Item → Bool
test_null null = true
test_null _ = false

abbrev test_map : Item → Bool
test_map (map xs) = true
test_map _ = false

abbrev test_array : Item → Bool
test_array (array xs) = true
test_array _ = false

unfoldable pub item_reader : Reader Items
unfolding parse
item_reader = record {
  parser_init = λ s. initial (parse (length s) s);
  is_valid = is_some_item test_valid;
  is_boolean = is_some_item test_bool;
  is_integer = is_some_item test_int;
  is_unsigned_integer = is_some_item test_uint;
  is_double = is_some_item test_double;
  is_float = is_some_item test_float;
  is_text_string = is_some_item test_text;
  is_byte_string = is_some_item test_bytes;
  is_null = is_some_item test_null;
  is_map = is_some_item test_map;
  is_array = is_some_item test_array;
  get_boolean = λ v. (no_error, bool_of v);
  get_int64_checked = λ v. checked (int_of v);
  get_uint64 = λ v. (no_error, nat_of v);
  get_double = λ v. (no_error, nat_of v);
  get_float = λ v. (no_error, nat_of v);
  get_string_length = λ v. (no_error, length (string_of v));
  copy_text_string = λ v. copied (string_of v);
  copy_byte_string = λ v. copied (string_of v);
  get_array_length = λ v. (no_error, size (inside v));
  map_find_value = λ v k. (no_error, find k (inside v));
  enter_container = λ v. (no_error, inside v);
  leave_container = λ v inner. (no_error, behind v);
  advance = λ v. (no_error, behind v);
  widen = λ n. n;
  narrow = λ n. n;
  error_text = λ e. codes "error";
}
