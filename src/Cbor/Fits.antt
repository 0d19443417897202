-- ===== src/Cbor/Fits.antt =====
-- Values that the bindings carry whole: integers of 64 bits, and strings shorter than the address
-- space. Each is read back from the item that it denotes.
use nim_ffi.Base.{ℤ, pos, ◌<◌, ◌≡◌, refl, Bool, true, false, List, [], ◌∷◌, length, if◌then◌else◌}
use nim_ffi.Tinycbor.{Reader}
use nim_ffi.Tinycbor.Items.{Item, Items, cons, int, null}
use nim_ffi.Tinycbor.Laws.{Reads, IsInt64}
use nim_ffi.Cbor.Values.{CStr, chars, c_text, until_nul, Decoder}
use nim_ffi.Cbor.Dec.{size_max, dec_str, dec_i64}
use nim_ffi.Cbor.Struct.{Seq, Opt, no_items, no_value, dec_seq, dec_opt}
use nim_ffi.Cbor.Emits.{item_str, item_all, item_seq, item_opt}
use nim_ffi.Cbor.Reading.{
  Denotes, AllDenote, until_nul_twice, dec_str-Denotes, dec_i64-Denotes, dec_seq-Denotes,
  dec_opt-null, dec_opt-Denotes,
}

abbrev pub FitsStr : CStr → Type 0
FitsStr s = length (c_text s) < size_max

abbrev pub AllFit : {X : Type 0} → (X → Type 0) → List X → Type 0
AllFit P [] = Unit {0}
AllFit P (x ∷ xs) = P x × AllFit P xs

abbrev pub FitsSeq : {X : Type 0} → (X → Type 0) → Seq X → Type 0
FitsSeq P v = AllFit P v.items

abbrev pub FitsOpt : {X : Type 0} → (X → Type 0) → Opt X → Type 0
FitsOpt P v = if v.has_value then P v.value else Unit {0}

clean : (s : CStr) → until_nul (c_text s) ≡ c_text s
clean CStr.null = refl
clean (chars p s) = until_nul_twice s

module _ {V : Type 0} ⦃c : Reader V⦄ (rs : Reads c) where
  pub str-Denotes : (s : CStr) → FitsStr s → Denotes rs item_str CStr.null dec_str (item_str s)
  str-Denotes s fits = dec_str-Denotes rs (c_text s) (clean s) fits

  module _ {X : Type 0} (item : X → Item) (zeroed : X) (d : Decoder V X) (P : X → Type 0)
      (each : (x : X) → P x → Denotes rs item zeroed d (item x)) where
    all-Denote : (xs : List X) → AllFit P xs → AllDenote rs item zeroed d (item_all item xs)
    all-Denote [] fits = tt
    all-Denote (x ∷ xs) fits = (each x fits.0, all-Denote xs fits.1)

    pub seq-Denotes :
        (v : Seq X)
        → FitsSeq P v
        → Denotes rs (item_seq item) no_items (dec_seq zeroed d) (item_seq item v)
    seq-Denotes v fits =
        dec_seq-Denotes rs item zeroed d (item_all item v.items) (all-Denote v.items fits)

    opt-cases :
        (b : Bool) (x : X)
        → ((it : V) (r : Items) → rs.view it ≡ cons (item x) r → c.is_null it ≡ false)
        → (if b then P x else Unit {0})
        → Denotes rs
            (item_opt item)
            (no_value zeroed)
            (dec_opt zeroed d)
            (if b then item x else null)
    opt-cases true x there fits = dec_opt-Denotes rs item zeroed d (item x) there (each x fits)
    opt-cases false x there fits = dec_opt-null rs item zeroed d

  pub opt_str-Denotes :
      (v : Opt CStr)
      → FitsOpt FitsStr v
      → Denotes rs
          (item_opt item_str)
          (no_value CStr.null)
          (dec_opt CStr.null dec_str)
          (item_opt item_str v)
  opt_str-Denotes v fits =
      opt-cases item_str CStr.null dec_str FitsStr str-Denotes v.has_value v.value
        (λ it r e. rs.text_not_null it (c_text v.value) r e) fits

  pub opt_i64-Denotes :
      (v : Opt ℤ)
      → FitsOpt IsInt64 v
      → Denotes rs (item_opt int) (no_value (pos 0)) (dec_opt (pos 0) dec_i64) (item_opt int v)
  opt_i64-Denotes v fits =
      opt-cases int (pos 0) dec_i64 IsInt64 (dec_i64-Denotes rs) v.has_value v.value
        (λ it r e. rs.int_not_null it v.value r e) fits
