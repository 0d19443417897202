-- ===== src/Cbor/Trip.antt =====
-- What a codec wrote into a buffer is read back from it.
use nim_ffi.Base.{ℕ, ◌+◌, ◌^◌, ◌≤◌, ◌<◌, ◌≡◌, ◌≢◌, refl, sym, ◌∙◌, ap, Bool, true, List, ◌⊎◌}
use nim_ffi.Heap.{Heap}
use nim_ffi.Tinycbor.{CborError, no_error, out_of_memory, Writer, Reader}
use nim_ffi.Tinycbor.Items.{Item, top, nil, append}
use nim_ffi.Tinycbor.Laws.{Writes, Reads, Parses}
use nim_ffi.Cbor.Values.{Encoder, Decoder}
use nim_ffi.Cbor.Buf.{
  Encoded, encoded, not_encoded, out_of_fuel, encode_to_buf, Decoded, decode_from_buf,
}
use nim_ffi.Cbor.Emits.{one, Emits}
use nim_ffi.Cbor.Reading.{Denotes, Plenty}
use nim_ffi.Cbor.Written.{Written, written_buf, encode_to_buf-Written}

-- The decoding succeeds, with a value that denotes the item.
pub record ReadBack {X : Type 0} (item : X → Item) (x : Item) (r : Decoded X) : Type 0 where
  pub ok : r.ok ≡ true
  pub same : item r.out ≡ x

-- The encoding gave a buffer, and whoever decodes it in `h` gets a value that denotes the item.
pub data Carried {V X : Type 0} ⦃c : Reader V⦄ (item : X → Item) (x : Item) (zeroed : X)
    (dec : Decoder V X) (h : Heap) : Encoded → Type 0 where
  carried :
      {buf : ℕ} {bytes : List ℕ} {g : Heap}
      → ReadBack item x (decode_from_buf true dec bytes zeroed h)
      → Carried item x zeroed dec h (encoded buf bytes g)

-- What the codec needs at most, and that it has no error but a buffer that is too small.
pub record Wants {E : Type 0} ⦃w : Writer E⦄ (fn : Encoder E) (n : ℕ) : Type 0 where
  pub small : n + n ≤ 2 ^ 64
  pub fine :
      (cap : ℕ)
      → ((fn (w.encoder_init cap)).0 ≡ no_error) ⊎ ((fn (w.encoder_init cap)).0 ≡ out_of_memory)
  pub fits : (cap : ℕ) → n ≤ cap → (fn (w.encoder_init cap)).0 ≢ out_of_memory
  pub hint : (cap : ℕ) → w.extra_bytes_needed (fn (w.encoder_init cap)).1 ≤ n

module _ {E V : Type 0} ⦃w : Writer E⦄ ⦃c : Reader V⦄ (ws : Writes w) (rs : Reads c) {X : Type 0}
    (item : X → Item) (x : Item) (parses : Parses ws rs x) (zeroed : X) (enc : Encoder E)
    (dec : Decoder V X) (emits : Emits ws (one x) enc)
    (denotes : Denotes rs item zeroed dec x) where
  written-ReadBack :
      (e : E)
      → ws.kind e ≡ top
      → ws.items e ≡ one x
      → (h : Heap) → Plenty h
      → ReadBack item x (decode_from_buf true dec (w.written e) zeroed h)
  unfolding decode_from_buf
  written-ReadBack e at_top holds h full =
      let p = parses e at_top holds in
      let d = denotes (c.parser_init (w.written e)).1 h nil p.1 full in
      simp (p.0, d.success) (record { ok = refl; same = d.value })

  holds_item : (cap : ℕ) (e : E) → enc (w.encoder_init cap) ≡ (no_error, e) → ws.items e ≡ one x
  holds_item cap e ran =
      let all = emits.emits (w.encoder_init cap) (ap (λ r. r.0) ran) in
      ap (λ (r : CborError × E). ws.items r.1) (sym ran)
      ∙ all.0
      ∙ ap (λ l. append l (one x)) (ws.init_items cap)

  writes_top : (cap : ℕ) (e : E) → enc (w.encoder_init cap) ≡ (no_error, e) → ws.kind e ≡ top
  writes_top cap e ran =
      let all = emits.emits (w.encoder_init cap) (ap (λ r. r.0) ran) in
      ap (λ (r : CborError × E). ws.kind r.1) (sym ran) ∙ all.1 ∙ ws.init_kind cap

  module _ (h : Heap) (full : Plenty h) where
    Written-Carried : (r : Encoded) → Written enc r → Carried item x zeroed dec h r
    Written-Carried (encoded buf bytes g) (written_buf cap e ran here lasts) =
        carried (rw here (written-ReadBack e (writes_top cap e ran) (holds_item cap e ran) h full))
    Written-Carried (not_encoded err g) r = elim r [ ]
    Written-Carried out_of_fuel r = elim r [ ]

    pub trip-Carried :
        (n fuel : ℕ) (wants : Bool) (g : Heap)
        → Wants enc n
        → n < fuel
        → Plenty g
        → Carried item x zeroed dec h (encode_to_buf fuel wants enc g)
    trip-Carried n fuel wants g need enough lasts =
        Written-Carried (encode_to_buf fuel wants enc g) (
          encode_to_buf-Written enc wants n need.small need.fine need.fits need.hint fuel g enough
            lasts)
