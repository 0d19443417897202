-- ===== src/Cbor/Reading.antt =====
-- The decoders read back the value that the items in front of them denote, where memory lasts.
use nim_ffi.Base.{
  ℕ, ℤ, pos, suc, ◌<◌, ◌≡◌, refl, ◌∙◌, ap, ap₂, Bool, false, List, [], ◌∷◌, String, codes, length,
  ==_false, replicate, arith,
}
use nim_ffi.Heap.{Heap, malloc}
use nim_ffi.Tinycbor.{CborError, no_error, Reader}
use nim_ffi.Tinycbor.Items.{Item, Items, int, text, bool, null, array, map, nil, cons, size, find}
use nim_ffi.Tinycbor.Laws.{Reads, IsInt64}
use nim_ffi.Cbor.Values.{CStr, until_nul, Cursor, Decoder, ◌>>◌}
use nim_ffi.Cbor.Dec.{advance_it, advance_if_ok, size_max, copy_str, dec_str, dec_i64, dec_bool}
use nim_ffi.Cbor.Struct.{
  no_items, no_value, dec_map, dec_field, dec_items, fill_seq, dec_seq, dec_opt,
}
use nim_ffi.Cbor.Memory.{at}
use nim_ffi.Cbor.Emits.{item_str, item_all, item_seq, item_opt}

-- Every allocation from here on succeeds.
abbrev pub Plenty : Heap → Type 0
Plenty h = (n : ℕ) → h.fails n ≡ false

pub until_nul_twice : (t : List ℕ) → until_nul (until_nul t) ≡ until_nul t
until_nul_twice [] = refl
until_nul_twice (c ∷ t) = ground (arith, until_nul_twice t)

module _ {V : Type 0} ⦃c : Reader V⦄ (rs : Reads c) where
  -- Success, with the rest of the items of the container `m` in front, and a value as asked for.
  pub record Done {X : Type 0} (m : ℕ) (r : Items) (P : X → Type 0) (res : CborError × Cursor V X)
      : Type 0 where
    pub success : res.0 ≡ no_error
    pub rest : rs.view res.1.it ≡ r
    pub place : rs.place res.1.it ≡ m
    pub value : P res.1.out
    pub plenty : Plenty res.1.heap

  -- Before the item `x`, the decoder makes a value that denotes `x`.
  abbrev pub Denotes : {X : Type 0} → (X → Item) → X → Decoder V X → Item → Type 0
  Denotes item zeroed d x =
      (it : V) (h : Heap) (r : Items)
      → rs.view it ≡ cons x r
      → Plenty h
      → Done (rs.place it) r (λ o. item o ≡ x) (d (at it zeroed h))

  pub advance_it-Done :
      {X : Type 0} (P : X → Type 0) (s : Cursor V X) (x : Item) (r : Items)
      → rs.view s.it ≡ cons x r
      → P s.out
      → Plenty s.heap
      → Done (rs.place s.it) r P (advance_it s)
  unfolding advance_it
  advance_it-Done P s x r e p full =
      let a = rs.advanced s.it x r e in
      record { success = a.0; rest = a.1; place = a.2; value = p; plenty = full }

  pub dec_i64-Denotes : (n : ℤ) → IsInt64 n → Denotes int (pos 0) dec_i64 (int n)
  unfolding dec_i64 advance_if_ok
  dec_i64-Denotes n fits it h r e full =
      rw (rs.at_int it n r e, rs.got_int it n r e fits)
        (advance_it-Done (λ o. int o ≡ int n) (at it n h) (int n) r e refl full)

  pub dec_bool-Denotes : (b : Bool) → Denotes bool false dec_bool (bool b)
  unfolding dec_bool advance_if_ok
  dec_bool-Denotes b it h r e full =
      rw (rs.at_bool it b r e, rs.got_bool it b r e)
        (advance_it-Done (λ o. bool o ≡ bool b) (at it b h) (bool b) r e refl full)

  -- A text without NUL, shorter than the address space.
  pub dec_str-Denotes :
      (t : List ℕ)
      → until_nul t ≡ t
      → length t < size_max
      → Denotes item_str CStr.null dec_str (text t)
  unfolding dec_str malloc copy_str
  dec_str-Denotes t clean short it h r e full =
      rw
        (
          rs.at_text it t r e,
          rs.text_length it t r e,
          ==_false (length t) size_max (omega arith),
          full h.next,
          rs.text_length it t r e,
          rs.text_copied it t r (length t) e (omega arith),
        )
        (advance_it-Done (λ o. item_str o ≡ text t) _ (text t) r e (ap text clean) full)

  -- A field whose entry is in the map.
  pub field-Done :
      {X S : Type 0} {m : ℕ} (item : X → Item) (P : S → Type 0) (key : String) (get : S → X)
      (set : S → X → S) (d : Decoder V X) (k : Decoder V S) (s : Cursor V S) (x : Item)
      (more xs r : Items)
      → rs.view s.it ≡ cons (map xs) r
      → find (codes key) xs ≡ cons x more
      → Denotes item (get s.out) d x
      → Plenty s.heap
      → ((o : X) (g : Heap) → item o ≡ x → Plenty g → Done m r P (k (at s.it (set s.out o) g)))
      → Done m r P ((dec_field key get set d >> k) s)
  unfolding dec_field ◌>>◌
  field-Done item P key get set d k s x more xs r e there denotes full next =
      let f = rs.found s.it (codes key) xs r e in
      let field = (c.map_find_value s.it (codes key)).1 in
      let before = f.1 ∙ there in
      let sub = denotes field s.heap more before full in
      rw (f.0, rs.valid field x more before, sub.success) (next _ _ sub.value sub.plenty)

  pub dec_map-Denotes :
      {S : Type 0} (item : S → Item) (zeroed : S) (body : Decoder V S) (xs : Items)
      → ((it : V) (h : Heap) (r : Items)
          → rs.view it ≡ cons (map xs) r
          → Plenty h
          → Done (rs.place it) r (λ o. item o ≡ map xs) (body (at it zeroed h)))
      → Denotes item zeroed (dec_map body) (map xs)
  unfolding dec_map
  dec_map-Denotes item zeroed body xs next it h r e full =
      rw (rs.at_map it xs r e) (next it h r e full)

  pub close-Done :
      {S : Type 0} (P : S → Type 0) (it : V) (o : S) (h : Heap) (xs r : Items)
      → rs.view it ≡ cons (map xs) r
      → Plenty h
      → P o
      → Done (rs.place it) r P (advance_it (at it o h))
  close-Done P it o h xs r e full p = advance_it-Done P (at it o h) (map xs) r e p full

  module _ {X : Type 0} (item : X → Item) (zeroed : X) (d : Decoder V X) where
    -- What `Denotes` asks of each item of an array.
    abbrev pub AllDenote : Items → Type 0
    AllDenote nil = Unit {0}
    AllDenote (cons x xs) = Denotes item zeroed d x × AllDenote xs

    items-Done :
        (xs : Items) (inner : V) (h : Heap)
        → rs.view inner ≡ xs
        → AllDenote xs
        → Plenty h
        → Done
            (rs.place inner)
            nil
            (λ o. item_all item o ≡ xs)
            (dec_items zeroed d (replicate (size xs) zeroed) inner h)
    unfolding dec_items
    items-Done nil inner h e all full = record {
      success = refl;
      rest = e;
      place = refl;
      value = refl;
      plenty = full;
    }
    items-Done (cons x xs) inner h e all full =
        let one = all.0 inner h xs e full in
        let r = d (at inner zeroed h) in
        let rest = items-Done xs r.1.it r.1.heap one.rest all.1 one.plenty in
        rw one.success (record {
          success = rest.success;
          rest = rest.rest;
          place = rest.place ∙ one.place;
          value = ap₂ cons one.value rest.value;
          plenty = rest.plenty;
        })

    -- An array into a sequence.
    pub dec_seq-Denotes :
        (xs : Items) → AllDenote xs → Denotes (item_seq item) no_items (dec_seq zeroed d) (array xs)
    unfolding dec_seq fill_seq malloc
    dec_seq-Denotes xs all it h r e full =
        let inner = (c.enter_container it).1 in
        let g : Heap = record h { next = suc h.next; live = h.next ∷ h.live } in
        let entered = rs.entered it xs r e in
        let items = items-Done xs inner g entered.1 all full in
        let res = dec_items zeroed d (replicate (size xs) zeroed) inner g in
        let left = rs.left it res.1.it xs r e items.rest items.place in
        rw
          (
            rs.at_array it xs r e,
            rs.array_length it xs r e,
            full h.next,
            entered.0,
            rs.array_length it xs r e,
            items.success,
            left.0,
          )
          (record {
            success = refl;
            rest = left.1;
            place = left.2;
            value = ap array items.value;
            plenty = items.plenty;
          })

    -- A missing value, and one that is there and not null itself.
    pub dec_opt-null : Denotes (item_opt item) (no_value zeroed) (dec_opt zeroed d) null
    unfolding dec_opt
    dec_opt-null it h r e full = rw (rs.at_null it r e) (
        advance_it-Done (λ o. item_opt item o ≡ null) (at it (no_value zeroed) h) null r e refl
          full)

    pub dec_opt-Denotes :
        (x : Item)
        → ((it : V) (r : Items) → rs.view it ≡ cons x r → c.is_null it ≡ false)
        → Denotes item zeroed d x
        → Denotes (item_opt item) (no_value zeroed) (dec_opt zeroed d) x
    unfolding dec_opt
    dec_opt-Denotes x there denotes it h r e full =
        let sub = denotes it h r e full in
        rw (there it r e) (record {
          success = sub.success;
          rest = sub.rest;
          place = sub.place;
          value = sub.value;
          plenty = sub.plenty;
        })
