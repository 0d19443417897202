-- ===== src/Cbor/Emits.antt =====
-- The encoders write the items that their values denote.
use nim_ffi.Base.{
  ℕ, ℤ, ◌≡◌, refl, sym, ◌∙◌, ap, Bool, true, false, not, List, [], ◌∷◌, String, codes, length,
  if◌then◌else◌,
}
use nim_ffi.Tinycbor.{
  CborError, no_error, out_of_memory, improper_value, data_too_large, other_error, failed, Writer,
}
use nim_ffi.Tinycbor.Items.{
  Shape, map_shape, array_shape, Kind, within, contents, Item, Items, int, text, bool, null, array,
  map, nil, cons, append,
}
use nim_ffi.Tinycbor.Laws.{Wrote, Writes}
use nim_ffi.Cbor.Values.{CStr, c_text, Encoder, and_then, ◌>>◌}
use nim_ffi.Cbor.Enc.{enc_bool, enc_i64, enc_str}
use nim_ffi.Cbor.Struct.{Seq, Opt, in_container, enc_map, enc_field, enc_items, enc_seq, enc_opt}

abbrev pub one : Item → Items
one x = cons x nil

abbrev pub item_str : CStr → Item
item_str s = text (c_text s)

abbrev pub item_all : {X : Type 0} → (X → Item) → List X → Items
item_all item [] = nil
item_all item (x ∷ xs) = cons (item x) (item_all item xs)

abbrev pub item_seq : {X : Type 0} → (X → Item) → Seq X → Item
item_seq item v = array (item_all item v.items)

abbrev pub item_opt : {X : Type 0} → (X → Item) → Opt X → Item
item_opt item v = if v.has_value then item v.value else null

pub append_assoc : (xs ys zs : Items) → append (append xs ys) zs ≡ append xs (append ys zs)
append_assoc nil ys zs = refl
append_assoc (cons x xs) ys zs = rw (append_assoc xs ys zs)

pub append-nil : (xs : Items) → append xs nil ≡ xs
append-nil nil = refl
append-nil (cons x xs) = rw (append-nil xs)

module _ {E : Type 0} (items : E → Items) (kind : E → Kind) where
  and_then-Wrote :
      (xs ys : Items) (e : E) (r : CborError × E) (k : E → CborError × E)
      → Wrote items kind xs e r
      → ((e' : E) → Wrote items kind ys e' (k e'))
      → Wrote items kind (append xs ys) e (and_then r k)
  and_then-Wrote xs ys e (no_error, e1) k p q h =
      let first = p refl in
      let second = q e1 h in
      (second.0 ∙ ap (λ l. append l ys) first.0 ∙ append_assoc (items e) xs ys, second.1 ∙ first.1)
  and_then-Wrote xs ys e (out_of_memory, e1) k p q h = cc
  and_then-Wrote xs ys e (improper_value, e1) k p q h = cc
  and_then-Wrote xs ys e (data_too_large, e1) k p q h = cc
  and_then-Wrote xs ys e (other_error n, e1) k p q h = cc

module _ {E : Type 0} ⦃w : Writer E⦄ (ws : Writes w) where
  -- If it succeeds, `f` writes `xs`.
  pub record Emits (xs : Items) (f : Encoder E) : Type 0 where
    pub emits : (e : E) → Wrote ws.items ws.kind xs e (f e)

  pub then-Emits :
      (xs ys : Items) (f g : Encoder E) → Emits xs f → Emits ys g → Emits (append xs ys) (f >> g)
  unfolding ◌>>◌
  then-Emits xs ys f g p q = record {
    emits = λ e. and_then-Wrote ws.items ws.kind xs ys e (f e) g (p.emits e) q.emits;
  }

  pub enc_str-Emits : (s : CStr) → Emits (one (item_str s)) (enc_str s)
  unfolding enc_str
  enc_str-Emits s = record { emits = λ e. ws.wrote_text e (c_text s) }

  pub enc_i64-Emits : (n : ℤ) → Emits (one (int n)) (enc_i64 n)
  unfolding enc_i64
  enc_i64-Emits n = record { emits = λ e. ws.wrote_int e n }

  pub enc_bool-Emits : (b : Bool) → Emits (one (bool b)) (enc_bool b)
  unfolding enc_bool
  enc_bool-Emits b = record { emits = λ e. ws.wrote_bool e b }

  pub enc_text-Emits : (t : List ℕ) → Emits (one (text t)) (λ e. w.encode_text e t)
  enc_text-Emits t = record { emits = λ e. ws.wrote_text e t }

  -- A field writes its key and its value.
  pub enc_field-Emits :
      (key : String) (x : Item) (value : Encoder E)
      → Emits (one x) value
      → Emits (cons (text (codes key)) (one x)) (enc_field key value)
  unfolding enc_field
  enc_field-Emits key x value p =
      then-Emits (one (text (codes key))) (one x) _ value (enc_text-Emits (codes key)) p

  closed-Wrote :
      (b : Shape) (xs : Items) (e e1 inner : E) (r : CborError × E)
      → Wrote ws.items ws.kind xs inner r
      → (ws.items e1 ≡ ws.items e)
        × (ws.kind e1 ≡ ws.kind e)
        × (ws.items inner ≡ nil)
        × (ws.kind inner ≡ within b (ws.mark e1))
      → Wrote ws.items ws.kind
          (one (contents b xs))
          e
          (if failed r.0 then (r.0, e1) else w.close_container e1 r.1)
  closed-Wrote b xs e e1 inner (no_error, m) p (parent, kept, empty, inside) = λ h.
      let full : ws.items m ≡ xs = (p refl).0 ∙ ap (λ l. append l xs) empty in
      let same : ws.kind m ≡ within b (ws.mark e1) = (p refl).1 ∙ inside in
      let done = ws.closed b e1 m same h in
      (
        done.0
            ∙ ap (λ l. append (ws.items e1) (one (contents b l))) full
            ∙ ap (λ l. append l (one (contents b xs))) parent,
        done.1 ∙ kept,
      )
  closed-Wrote b xs e e1 inner (out_of_memory, m) p made = λ h. cc
  closed-Wrote b xs e e1 inner (improper_value, m) p made = λ h. cc
  closed-Wrote b xs e e1 inner (data_too_large, m) p made = λ h. cc
  closed-Wrote b xs e e1 inner (other_error n, m) p made = λ h. cc

  container-Wrote :
      (b : Shape) (xs : Items) (e : E) (r : CborError × E × E) (body : Encoder E)
      → Emits xs body
      → (r.0 ≡ no_error
          → (ws.items r.1 ≡ ws.items e)
            × (ws.kind r.1 ≡ ws.kind e)
            × (ws.items r.2 ≡ nil)
            × (ws.kind r.2 ≡ within b (ws.mark r.1)))
      → Wrote ws.items ws.kind (one (contents b xs)) e (in_container r body)
  unfolding in_container
  container-Wrote b xs e (no_error, e1, inner) body p made =
      closed-Wrote b xs e e1 inner (body inner) (p.emits inner) (made refl)
  container-Wrote b xs e (out_of_memory, e1, inner) body p made = λ h. cc
  container-Wrote b xs e (improper_value, e1, inner) body p made = λ h. cc
  container-Wrote b xs e (data_too_large, e1, inner) body p made = λ h. cc
  container-Wrote b xs e (other_error n, e1, inner) body p made = λ h. cc

  -- A map with one entry for each field.
  pub enc_map-Emits :
      (n : ℕ) (xs : Items) (body : Encoder E)
      → Emits xs body
      → Emits (one (map xs)) (enc_map n body)
  unfolding enc_map
  enc_map-Emits n xs body p = record {
    emits = λ e. container-Wrote map_shape xs e (w.create_map e n) body p (ws.made_map e n);
  }

  nothing-Emits : Emits nil (λ e. (no_error, e))
  nothing-Emits = record { emits = λ e h. (sym (append-nil (ws.items e)), refl) }

  pub empty_map-Emits : (n : ℕ) → Emits (one (map nil)) (enc_map n (λ e. (no_error, e)))
  empty_map-Emits n = enc_map-Emits n nil _ nothing-Emits

  module _ {X : Type 0} (item : X → Item) (enc : X → Encoder E)
      (each : (x : X) → Emits (one (item x)) (enc x)) where
    enc_items-Emits : (xs : List X) → Emits (item_all item xs) (enc_items enc xs)
    unfolding enc_items
    enc_items-Emits [] = nothing-Emits
    enc_items-Emits (x ∷ xs) = record {
      emits = λ e.
          and_then-Wrote ws.items ws.kind (one (item x)) (item_all item xs) e (enc x e)
            (enc_items enc xs) ((each x).emits e) (enc_items-Emits xs).emits;
    }

    -- A sequence goes out as an array of its elements.
    pub enc_seq-Emits : (v : Seq X) → Emits (one (item_seq item v)) (enc_seq enc v)
    unfolding enc_seq
    enc_seq-Emits v = record {
      emits = λ e.
          container-Wrote array_shape (item_all item v.items) e (w.create_array e (length v.items))
            (enc_items enc v.items) (enc_items-Emits v.items) (ws.made_array e (length v.items));
    }

    -- A missing value goes out as null.
    pub enc_opt-Emits : (v : Opt X) → Emits (one (item_opt item v)) (enc_opt enc v)
    unfolding enc_opt
    enc_opt-Emits v = record { emits = λ e. go (v.has_value) e }
      where
        go :
            (b : Bool) (e : E)
            → Wrote ws.items ws.kind
                (one (if b then item v.value else null))
                e
                (if not b then w.encode_null e else enc v.value e)
        go true e = (each v.value).emits e
        go false e = ws.wrote_null e
