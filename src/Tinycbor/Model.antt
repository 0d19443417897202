-- ===== src/Tinycbor/Model.antt =====
-- A small codec, to run the bindings' code on and to show that what they rely on can be met. An
-- item is written as a tag and its contents; a container ends with a mark.
pub mod Source
pub mod Lawful
use nim_ffi.Base.{
  ℕ, ℤ, pos, negsuc, zero, suc, ◌+◌, ◌-◌, ◌≤◌, leb, ltb, ◌==◌, Bool, true, false, not, none, some,
  Option, List, [], ◌∷◌, ◌++◌, ◌||◌, ◌≡◌, refl, arith, append_assoc, length-append, take, drop,
  take-append, drop-append, length, codes, list_eq, if◌then◌else◌,
}
use nim_ffi.Tinycbor.{
  CborError, no_error, out_of_memory, improper_value, data_too_large, other_error, Writer, Reader,
}
use nim_ffi.Tinycbor.Items.{
  Shape, map_shape, array_shape, Kind, top, within, contents, Item, Items, int, text, bytes, bool,
  null, double, float, array, map, nil, cons, append, size, find,
}

unfoldable mutual
  pub print : Item → List ℕ
  print (int (pos n)) = 0 ∷ n ∷ []
  print (int (negsuc n)) = 1 ∷ n ∷ []
  print (text t) = 2 ∷ length t ∷ t
  print (bytes t) = 3 ∷ length t ∷ t
  print (bool true) = 4 ∷ 1 ∷ []
  print (bool false) = 4 ∷ 0 ∷ []
  print null = 6 ∷ 0 ∷ []
  print (double n) = 7 ∷ n ∷ []
  print (float n) = 8 ∷ n ∷ []
  print (array xs) = 9 ∷ print_all xs
  print (map xs) = 10 ∷ print_all xs

  pub print_all : Items → List ℕ
  print_all nil = 11 ∷ []
  print_all (cons x xs) = print x ++ print_all xs

unfoldable pub leaf : ℕ → List ℕ → Option (Item × List ℕ)
leaf tag [] = none
leaf tag (n ∷ r) =
    if tag == 0
    then some (int (pos n), r)
    else if tag == 1
    then some (int (negsuc n), r)
    else if tag == 2
    then some (text (take n r), drop n r)
    else if tag == 3
    then some (bytes (take n r), drop n r)
    else if tag == 4
    then some (bool (n == 1), r)
    else if tag == 6
    then some (null, r)
    else if tag == 7
    then some (double n, r)
    else if tag == 8
    then some (float n, r)
    else none

abbrev pub onto : Item → Option (Items × List ℕ) → Option (Items × List ℕ)
onto x none = none
onto x (some (xs, r)) = some (cons x xs, r)

abbrev pub with_rest :
    {A : Type 0}
    → Option (A × List ℕ)
    → (A → List ℕ → Option (Items × List ℕ))
    → Option (Items × List ℕ)
with_rest none k = none
with_rest (some (a, r)) k = k a r

unfoldable pub parse : ℕ → List ℕ → Option (Items × List ℕ)
unfolding leaf
parse zero s = none
parse (suc fuel) [] = none
parse (suc fuel) (tag ∷ s) =
    if tag == 11
    then some (nil, s)
    else let inner =
        with_rest (parse fuel s)
          (λ xs r. onto (if tag == 9 then array xs else map xs) (parse fuel r)) in
      let one = with_rest (leaf tag s) (λ x r. onto x (parse fuel r)) in
      if tag == 9 || tag == 10 then inner else one

length-print_all : (xs : Items) → 1 ≤ length (print_all xs)
unfolding print_all
length-print_all nil = omega arith
length-print_all (cons x xs) =
    omega (arith, length-append (print x) (print_all xs), length-print_all xs)

-- What was printed is read back, and what follows it is left.
pub parse-print :
    (fuel : ℕ) (xs : Items) (rest : List ℕ)
    → length (print_all xs) ≤ fuel
    → parse fuel (print_all xs ++ rest) ≡ some (xs, rest)
unfolding parse print print_all
parse-print zero xs rest enough = absurd (omega (arith, length-print_all xs))
parse-print (suc f) nil rest enough = refl
parse-print (suc f) (cons (int (pos n)) xs) rest enough = rw (parse-print f xs rest (omega arith))
parse-print (suc f) (cons (int (negsuc n)) xs) rest enough =
    rw (parse-print f xs rest (omega arith))
parse-print (suc f) (cons (text t) xs) rest enough =
    let more = parse-print f xs rest (omega (arith, length-append t (print_all xs))) in
    let all = print_all xs ++ rest in rw (append_assoc, take-append t all, drop-append t all, more)
parse-print (suc f) (cons (bytes t) xs) rest enough =
    let more = parse-print f xs rest (omega (arith, length-append t (print_all xs))) in
    let all = print_all xs ++ rest in rw (append_assoc, take-append t all, drop-append t all, more)
parse-print (suc f) (cons (bool true) xs) rest enough = rw (parse-print f xs rest (omega arith))
parse-print (suc f) (cons (bool false) xs) rest enough = rw (parse-print f xs rest (omega arith))
parse-print (suc f) (cons null xs) rest enough = rw (parse-print f xs rest (omega arith))
parse-print (suc f) (cons (double n) xs) rest enough = rw (parse-print f xs rest (omega arith))
parse-print (suc f) (cons (float n) xs) rest enough = rw (parse-print f xs rest (omega arith))
parse-print (suc f) (cons (array ys) xs) rest enough =
    let inner =
      parse-print f ys (print_all xs ++ rest)
        (omega (arith, length-append (print_all ys) (print_all xs))) in
    let more = parse-print f xs rest (omega (arith, length-append (print_all ys) (print_all xs))) in
    rw (append_assoc, inner, more)
parse-print (suc f) (cons (map ys) xs) rest enough =
    let inner =
      parse-print f ys (print_all xs ++ rest)
        (omega (arith, length-append (print_all ys) (print_all xs))) in
    let more = parse-print f xs rest (omega (arith, length-append (print_all ys) (print_all xs))) in
    rw (append_assoc, inner, more)

-- An encoder: the room in its buffer, what it writes for, and the items so far.
pub record Sink : Type 0 where
  pub room : ℕ
  pub kind : Kind
  pub items : Items

unfoldable pub emit : Sink → Item → CborError × Sink
unfolding print print_all
emit e x =
    let all = append e.items (cons x nil) in
    if leb (length (print_all all)) e.room
    then (no_error, record e { items = all })
    else (out_of_memory, e)

abbrev pub closing : Kind → Items → Item
closing top xs = array xs
closing (within s mark) xs = contents s xs

abbrev pub inner_sink : Shape → Sink → CborError × Sink × Sink
inner_sink s e = (no_error, e, record { room = e.room; kind = within s 0; items = nil })

-- `room_of` is the room that a buffer of a given capacity has.
unfoldable pub sink : (room_of : ℕ → ℕ) → Writer Sink
unfolding emit
sink room_of = record {
  encoder_init = λ capacity. record { room = room_of capacity; kind = top; items = nil };
  encode_boolean = λ e b. emit e (bool b);
  encode_int = λ e n. emit e (int n);
  encode_uint = λ e n. emit e (int (pos n));
  encode_double = λ e n. emit e (double n);
  encode_float = λ e n. emit e (float n);
  encode_text = λ e t. emit e (text t);
  encode_byte_string = λ e t. emit e (bytes t);
  encode_null = λ e. emit e null;
  create_map = λ e n. inner_sink map_shape e;
  create_array = λ e n. inner_sink array_shape e;
  close_container = λ e inner. emit e (closing inner.kind inner.items);
  written = λ e. print_all e.items;
  extra_bytes_needed = λ e. 0;
  error_text = λ e. codes "error";
}
