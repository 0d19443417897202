-- ===== src/Tinycbor/Laws.antt =====
-- What the bindings rely on of TinyCBOR, by the data items that an encoder has written and that an
-- iterator has before it.
use nim_ffi.Base.{ℕ, ℤ, pos, negsuc, ◌^◌, ◌≤◌, ◌<◌, ◌≡◌, Bool, true, false, List, length}
use nim_ffi.Tinycbor.{CborError, no_error, Writer, Reader}
use nim_ffi.Tinycbor.Items.{
  Shape, map_shape, array_shape, Kind, top, within, contents, Item, Items, int, text, bool, null,
  array, map, nil, cons, append, size, find,
}

-- The values of `int64_t`.
abbrev pub IsInt64 : ℤ → Type 0
IsInt64 (pos n) = n < 2 ^ 63
IsInt64 (negsuc n) = n < 2 ^ 63

-- If `r` is a success, it wrote `xs` behind what `e` had.
abbrev pub Wrote : {E : Type 0} → (E → Items) → (E → Kind) → Items → E → CborError × E → Type 0
Wrote items kind xs e r = r.0 ≡ no_error → (items r.1 ≡ append (items e) xs) × (kind r.1 ≡ kind e)

-- The items that an encoder has written, and what it writes for. `mark` tells the states of encoders
-- apart, so that a container can only be closed on the encoder that it was opened on.
pub record Writes {E : Type 0} (w : Writer E) : Type 0 where
  pub items : E → Items
  pub kind : E → Kind
  pub mark : E → ℕ
  pub init_items : (capacity : ℕ) → items (w.encoder_init capacity) ≡ nil
  pub init_kind : (capacity : ℕ) → kind (w.encoder_init capacity) ≡ top
  pub wrote_bool :
      (e : E) (b : Bool) → Wrote items kind (cons (bool b) nil) e (w.encode_boolean e b)
  pub wrote_int : (e : E) (n : ℤ) → Wrote items kind (cons (int n) nil) e (w.encode_int e n)
  pub wrote_text : (e : E) (t : List ℕ) → Wrote items kind (cons (text t) nil) e (w.encode_text e t)
  pub wrote_null : (e : E) → Wrote items kind (cons null nil) e (w.encode_null e)
  pub made_map :
      (e : E) (n : ℕ)
      → let r = w.create_map e n in
        r.0 ≡ no_error
        → (items r.1 ≡ items e)
          × (kind r.1 ≡ kind e)
          × (items r.2 ≡ nil)
          × (kind r.2 ≡ within map_shape (mark r.1))
  pub made_array :
      (e : E) (n : ℕ)
      → let r = w.create_array e n in
        r.0 ≡ no_error
        → (items r.1 ≡ items e)
          × (kind r.1 ≡ kind e)
          × (items r.2 ≡ nil)
          × (kind r.2 ≡ within array_shape (mark r.1))
  pub closed :
      (s : Shape) (e inner : E)
      → kind inner ≡ within s (mark e)
      → Wrote items kind (cons (contents s (items inner)) nil) e (w.close_container e inner)

-- The items before an iterator, and the container that it stands in, by a number.
pub record Reads {V : Type 0} (c : Reader V) : Type 0 where
  pub view : V → Items
  pub place : V → ℕ
  pub valid : (v : V) (x : Item) (r : Items) → view v ≡ cons x r → c.is_valid v ≡ true
  pub advanced :
      (v : V) (x : Item) (r : Items)
      → view v ≡ cons x r
      → ((c.advance v).0 ≡ no_error)
        × (view (c.advance v).1 ≡ r)
        × (place (c.advance v).1 ≡ place v)
  pub at_map : (v : V) (xs r : Items) → view v ≡ cons (map xs) r → c.is_map v ≡ true
  pub found :
      (v : V) (k : List ℕ) (xs r : Items)
      → view v ≡ cons (map xs) r
      → ((c.map_find_value v k).0 ≡ no_error) × (view (c.map_find_value v k).1 ≡ find k xs)
  pub at_int : (v : V) (n : ℤ) (r : Items) → view v ≡ cons (int n) r → c.is_integer v ≡ true
  pub got_int :
      (v : V) (n : ℤ) (r : Items)
      → view v ≡ cons (int n) r
      → IsInt64 n
      → c.get_int64_checked v ≡ (no_error, n)
  pub at_bool : (v : V) (b : Bool) (r : Items) → view v ≡ cons (bool b) r → c.is_boolean v ≡ true
  pub got_bool :
      (v : V) (b : Bool) (r : Items) → view v ≡ cons (bool b) r → c.get_boolean v ≡ (no_error, b)
  pub at_text :
      (v : V) (t : List ℕ) (r : Items) → view v ≡ cons (text t) r → c.is_text_string v ≡ true
  pub text_length :
      (v : V) (t : List ℕ) (r : Items)
      → view v ≡ cons (text t) r
      → c.get_string_length v ≡ (no_error, length t)
  pub text_copied :
      (v : V) (t : List ℕ) (r : Items) (capacity : ℕ)
      → view v ≡ cons (text t) r
      → length t ≤ capacity
      → c.copy_text_string v capacity ≡ (no_error, t)
  pub at_null : (v : V) (r : Items) → view v ≡ cons null r → c.is_null v ≡ true
  pub int_not_null : (v : V) (n : ℤ) (r : Items) → view v ≡ cons (int n) r → c.is_null v ≡ false
  pub text_not_null :
      (v : V) (t : List ℕ) (r : Items) → view v ≡ cons (text t) r → c.is_null v ≡ false
  pub at_array : (v : V) (xs r : Items) → view v ≡ cons (array xs) r → c.is_array v ≡ true
  pub array_length :
      (v : V) (xs r : Items)
      → view v ≡ cons (array xs) r
      → c.get_array_length v ≡ (no_error, size xs)
  pub entered :
      (v : V) (xs r : Items)
      → view v ≡ cons (array xs) r
      → ((c.enter_container v).0 ≡ no_error) × (view (c.enter_container v).1 ≡ xs)
  pub left :
      (v inner : V) (xs r : Items)
      → view v ≡ cons (array xs) r
      → view inner ≡ nil
      → place inner ≡ place (c.enter_container v).1
      → ((c.leave_container v inner).0 ≡ no_error)
        × (view (c.leave_container v inner).1 ≡ r)
        × (place (c.leave_container v inner).1 ≡ place v)

-- A buffer that an encoder filled with the one item `x` is read back: a parser over it stands before
-- that item. It says nothing of an empty buffer, which `cbor_parser_init` refuses, or of several items.
abbrev pub Parses :
    {E V : Type 0} {w : Writer E} {c : Reader V} → Writes w → Reads c → Item → Type 0
Parses {E} {w} {c} ws rs x =
    (e : E)
    → ws.kind e ≡ top
    → ws.items e ≡ cons x nil
    → let r = c.parser_init (w.written e) in (r.0 ≡ no_error) × (rs.view r.1 ≡ cons x nil)
