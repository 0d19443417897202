-- ===== src/Cbor/Narrow.antt =====
-- The decoders of the narrower integers store only what their type holds.
use nim_ffi.Base.{
  ℕ, ℤ, zero, suc, sym, ◌∙◌, pos, negsuc, ltℤ, ltb, ◌-◌, ◌^◌, ◌<◌, ◌≡◌, ◌≢◌, refl, ◌||◌, Bool, true,
  false, inl, inr, Bool-cases, arith,
}
use nim_ffi.Tinycbor.{
  CborError, no_error, out_of_memory, improper_value, data_too_large, other_error, failed, Reader,
}
use nim_ffi.Cbor.Values.{Cursor}
use nim_ffi.Cbor.Dec.{
  dec_i64, dec_u64, dec_signed, dec_unsigned, dec_i32, dec_i16, dec_i8, dec_u32, dec_u16, dec_u8,
  int_min, int_max,
}

-- Between `-2^b` and `2^b - 1`.
abbrev pub InBits : ℕ → ℤ → Type 0
InBits b (pos n) = n < 2 ^ b
InBits b (negsuc n) = n < 2 ^ b

-- What a narrow decoder makes of the wide one's result `r`, from the value `old`: it passes an
-- error on; it stores a value that its type holds; another value it refuses. Where it fails, the
-- value stays, and the iterator and the heap are always the wide decoder's.
pub data Narrowed {V X : Type 0} (Holds : X → Type 0) (old : X) (r : CborError × Cursor V X)
    : CborError × Cursor V X → Type 0 where
  passed_on : r.0 ≢ no_error → Narrowed Holds old r (r.0, record (r.1) { out = old })
  stored : r.0 ≡ no_error → Holds (r.1.out) → Narrowed Holds old r (no_error, r.1)
  refused :
      r.0 ≡ no_error
      → ¬ Holds (r.1.out)
      → Narrowed Holds old r (data_too_large, record (r.1) { out = old })

pow_pos : (b : ℕ) → 0 < 2 ^ b
pow_pos zero = omega arith
pow_pos (suc b) = omega (arith, pow_pos b)

within : (b n : ℕ) → ltb (2 ^ b - 1) n ≡ false → n < 2 ^ b
within b n e = ground (arith, pow_pos b)

beyond : (b n : ℕ) → ltb (2 ^ b - 1) n ≡ true → ¬ (n < 2 ^ b)
beyond b n e = ground (arith, pow_pos b)

or_false : (x : Bool) → (x || false) ≡ x
or_false true = refl
or_false false = refl

in_range : (b : ℕ) (n : ℤ) → (ltℤ n (int_min b) || ltℤ (int_max b) n) ≡ false → InBits b n
in_range b (pos n) e = within b n e
in_range b (negsuc n) e = within b n (sym (or_false (ltb (2 ^ b - 1) n)) ∙ e)

out_of_range : (b : ℕ) (n : ℤ) → (ltℤ n (int_min b) || ltℤ (int_max b) n) ≡ true → ¬ InBits b n
out_of_range b (pos n) e = beyond b n e
out_of_range b (negsuc n) e = beyond b n (sym (or_false (ltb (2 ^ b - 1) n)) ∙ e)

failed_lem : (e : CborError) → failed e ≡ true → e ≢ no_error
failed_lem no_error p = cc
failed_lem out_of_memory p = λ e. cc
failed_lem improper_value p = λ e. cc
failed_lem data_too_large p = λ e. cc
failed_lem (other_error n) p = λ e. cc

fine_lem : (e : CborError) → failed e ≡ false → e ≡ no_error
fine_lem no_error p = refl
fine_lem out_of_memory p = cc
fine_lem improper_value p = cc
fine_lem data_too_large p = cc
fine_lem (other_error n) p = cc

module _ {V : Type 0} (c : Reader V) where
  signed-Narrowed :
      (b : ℕ) (s : Cursor V ℤ)
      → Narrowed
          (InBits b)
          s.out
          (dec_i64 ⦃c = c⦄ (record s { out = pos 0 }))
          (dec_signed ⦃c = c⦄ b s)
  unfolding dec_signed
  signed-Narrowed b s =
      let r = dec_i64 ⦃c = c⦄ (record s { out = pos 0 }) in
      elim (Bool-cases (failed r.0)) [
        | inl bad ↦ rw bad (passed_on (failed_lem r.0 bad))
        | inr good ↦
            rw good (elim (Bool-cases (ltℤ r.1.out (int_min b) || ltℤ (int_max b) r.1.out)) [
              | inl far ↦ rw far (refused (fine_lem r.0 good) (out_of_range b r.1.out far))
              | inr near ↦ rw near (stored (fine_lem r.0 good) (in_range b r.1.out near))
            ])
      ]

  unsigned-Narrowed :
      (b : ℕ) (s : Cursor V ℕ)
      → Narrowed
          (λ n. n < 2 ^ b)
          s.out
          (dec_u64 ⦃c = c⦄ (record s { out = 0 }))
          (dec_unsigned ⦃c = c⦄ b s)
  unfolding dec_unsigned
  unsigned-Narrowed b s =
      let r = dec_u64 ⦃c = c⦄ (record s { out = 0 }) in
      elim (Bool-cases (failed r.0)) [
        | inl bad ↦ rw bad (passed_on (failed_lem r.0 bad))
        | inr good ↦ rw good (elim (Bool-cases (ltb (2 ^ b - 1) r.1.out)) [
          | inl far ↦ rw far (refused (fine_lem r.0 good) (beyond b r.1.out far))
          | inr near ↦ rw near (stored (fine_lem r.0 good) (within b r.1.out near))
        ])
      ]

  -- The decoders of `int32_t`, `int16_t` and `int8_t`, before any iterator: each passes on an error of
  -- `nimffi_dec_i64`; stores what that decoded if it lies in the type's range; and refuses it with
  -- `CborErrorDataTooLarge` otherwise. Where it fails, `out` is unchanged.
  pub signed-fits :
      (s : Cursor V ℤ)
      → let wide = dec_i64 ⦃c = c⦄ (record s { out = pos 0 }) in
        Narrowed (InBits 31) s.out wide (dec_i32 ⦃c = c⦄ s)
        × Narrowed (InBits 15) s.out wide (dec_i16 ⦃c = c⦄ s)
        × Narrowed (InBits 7) s.out wide (dec_i8 ⦃c = c⦄ s)
  unfolding dec_i32 dec_i16 dec_i8
  signed-fits s = (signed-Narrowed 31 s, signed-Narrowed 15 s, signed-Narrowed 7 s)

  -- The decoders of `uint32_t`, `uint16_t` and `uint8_t`, before any iterator: each passes on an error
  -- of `nimffi_dec_u64`; stores what that decoded if it has the type's width; and refuses it with
  -- `CborErrorDataTooLarge` otherwise. Where it fails, `out` is unchanged.
  pub unsigned-fits :
      (s : Cursor V ℕ)
      → let wide = dec_u64 ⦃c = c⦄ (record s { out = 0 }) in
        Narrowed (λ n. n < 2 ^ 32) s.out wide (dec_u32 ⦃c = c⦄ s)
        × Narrowed (λ n. n < 2 ^ 16) s.out wide (dec_u16 ⦃c = c⦄ s)
        × Narrowed (λ n. n < 2 ^ 8) s.out wide (dec_u8 ⦃c = c⦄ s)
  unfolding dec_u32 dec_u16 dec_u8
  unsigned-fits s = (unsigned-Narrowed 32 s, unsigned-Narrowed 16 s, unsigned-Narrowed 8 s)
