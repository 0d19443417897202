-- ===== src/Cbor/Encoding.antt =====
-- `nimffi_encode_to_buf` ends, and leaves behind the buffer or the error text and nothing else.
use nim_ffi.Base.{
  ℕ, zero, suc, ◌+◌, ◌%◌, ◌^◌, ◌≤◌, ◌<◌, ◌≡◌, ◌≢◌, refl, ap, subst, inl, inr, Bool-cases, codes,
  dec_lt, ltb, Bool, true, false, none, some, List, arith, if◌then◌else◌, length, ◌==◌,
}
use nim_ffi.Heap.{Heap, Ptr, malloc, free}
use nim_ffi.Heap.Laws.{
  Gains, Gains-refl, Gains-as, Gains-free, Gains-add, malloc-Gains, owned_ptr, Regrown, stays,
  moves, realloc-Regrown,
}
use nim_ffi.Tinycbor.{
  CborError, no_error, out_of_memory, improper_value, data_too_large, other_error, Writer,
}
use nim_ffi.Cbor.Values.{CStr, owned_str, Encoder}
use nim_ffi.Cbor.Buf.{
  place, dup_cstr, dup_cstr_n, report, Encoded, encoded, not_encoded, encode_grown, encode_step,
  encode_loop, encode_from, encode_to_buf,
}
use nim_ffi.Cbor.Dec.{size_max}

place-Gains :
    (s : List ℕ) (r : Ptr × Heap) (h : Heap)
    → Gains (owned_ptr r.0) h r.1
    → Gains (owned_str (place s r).0) h (place s r).1
unfolding place
place-Gains s (none, g) h e = e
place-Gains s (some p, g) h e = e

pub dup_cstr-Gains : (s : List ℕ) (h : Heap) → Gains (owned_str (dup_cstr s h).0) h (dup_cstr s h).1
unfolding dup_cstr
dup_cstr-Gains s h = place-Gains s (malloc h) h (malloc-Gains h)

pub dup_cstr_n-Gains :
    (s : List ℕ) (h : Heap) → Gains (owned_str (dup_cstr_n s h).0) h (dup_cstr_n s h).1
unfolding dup_cstr_n
dup_cstr_n-Gains s h = elim (Bool-cases (length s == size_max)) [
  | inl huge ↦ rw huge (Gains-refl h)
  | inr fine ↦ rw fine (place-Gains s (malloc h) h (malloc-Gains h))
]

pub report-Gains :
    (b : Bool) (s : List ℕ) (h : Heap) → Gains (owned_str (report b s h).0) h (report b s h).1
unfolding report
report-Gains true s h = dup_cstr-Gains s h
report-Gains false s h = Gains-refl h

-- The new capacity is larger, and does not wrap.
pub grows :
    (cap extra n : ℕ)
    → cap < n
    → extra ≤ n
    → n + n ≤ 2 ^ 64
    → 0 < cap
    → cap < (cap + (if ltb 0 extra then extra else cap)) % 2 ^ 64
grows cap extra n less bound small pos = ground arith

pub below : {cap n : ℕ} → Dec (cap < n) → ¬ (n ≤ cap) → cap < n
below (yes p) h = p
below (no p) h = absurd (h (omega arith))

-- The buffer is held, or else the error text.
pub data Kept {E : Type 0} ⦃w : Writer E⦄ (fn : Encoder E) (h : Heap) : Encoded → Type 0 where
  kept_buf :
      {buf : ℕ} {bytes : List ℕ} {g : Heap} (cap : ℕ) (e : E)
      → fn (w.encoder_init cap) ≡ (no_error, e)
      → bytes ≡ w.written e
      → Gains (owned_ptr (some buf)) h g
      → Kept fn h (encoded buf bytes g)
  kept_err : {s : CStr} {g : Heap} → Gains (owned_str s) h g → Kept fn h (not_encoded s g)

module _ {E : Type 0} ⦃w : Writer E⦄ (fn : Encoder E) (wants : Bool) (h : Heap) where
  dropped-Kept :
      (text : List ℕ) (buf : ℕ) {g : Heap}
      → Gains (owned_ptr (some buf)) h g
      → Kept fn h (
          not_encoded
            (report wants text (free (some buf) g)).0
            (report wants text (free (some buf) g)).1)
  dropped-Kept text buf {g} e = kept_err (
      Gains-as (Gains-add (Gains-free (some buf) e) (report-Gains wants text (free (some buf) g)))
        (λ a. omega arith))

  module _ (n : ℕ) (small : n + n ≤ 2 ^ 64)
      (fits : (cap : ℕ) → n ≤ cap → (fn (w.encoder_init cap)).0 ≢ out_of_memory)
      (hint : (cap : ℕ) → w.extra_bytes_needed (fn (w.encoder_init cap)).1 ≤ n) where
    grown-Kept :
        (cap buf : ℕ) (r : Ptr × Heap) (again : (cap buf : ℕ) → Heap → Encoded)
        → Regrown (some buf) h r
        → ((b : ℕ) (g : Heap) → Gains (owned_ptr (some b)) h g → Kept fn h (again cap b g))
        → Kept fn h (encode_grown wants cap buf r again)
    unfolding encode_grown
    grown-Kept cap buf (none, g) again (stays e) next = dropped-Kept _ buf e
    grown-Kept cap buf (some b, g) again (moves e) next = next b g e

    step-Kept :
        (cap buf : ℕ) (g : Heap) (r : CborError × E) (again : (cap buf : ℕ) → Heap → Encoded)
        → fn (w.encoder_init cap) ≡ r
        → 0 < cap
        → Gains (owned_ptr (some buf)) h g
        → ((cap' b : ℕ) (k : Heap)
            → cap < n
            → cap < cap'
            → Gains (owned_ptr (some b)) h k
            → Kept fn h (again cap' b k))
        → Kept fn h (encode_step wants cap buf g r again)
    unfolding encode_step
    step-Kept cap buf g (no_error, e) again eq pos gains next = kept_buf cap e eq refl gains
    step-Kept cap buf g (out_of_memory, e) again eq pos gains next =
        let less : cap < n = below (dec_lt cap n) (λ over. fits cap over (ap (λ r. r.0) eq)) in
        let bound : w.extra_bytes_needed e ≤ n =
          subst (λ (r : CborError × E). w.extra_bytes_needed r.1 ≤ n) eq (hint cap) in
        grown-Kept _ buf _ again (realloc-Regrown (some buf) gains)
          (λ b k f. next _ b k less (grows cap _ n less bound small pos) f)
    step-Kept cap buf g (improper_value, e) again eq pos gains next = dropped-Kept _ buf gains
    step-Kept cap buf g (data_too_large, e) again eq pos gains next = dropped-Kept _ buf gains
    step-Kept cap buf g (other_error m, e) again eq pos gains next = dropped-Kept _ buf gains

    loop-Kept :
        (fuel cap buf : ℕ) (g : Heap)
        → n < fuel + cap
        → 0 < cap
        → 0 < fuel
        → Gains (owned_ptr (some buf)) h g
        → Kept fn h (encode_loop fuel wants fn cap buf g)
    unfolding encode_loop
    loop-Kept zero cap buf g enough pos some_fuel gains = absurd (omega arith)
    loop-Kept (suc fuel) cap buf g enough pos some_fuel gains =
        step-Kept cap buf g _ _ refl pos gains (λ cap' b k less more f.
          loop-Kept fuel cap' b k (omega arith) (omega arith) (omega arith) f)

    from-Kept :
        (fuel : ℕ) (r : Ptr × Heap)
        → n < fuel
        → Gains (owned_ptr r.0) h r.1
        → Kept fn h (encode_from fuel wants fn r)
    unfolding encode_from
    from-Kept fuel (none, g) enough gains = kept_err (
        Gains-as (Gains-add gains (report-Gains wants (codes "out of memory") g))
          (λ a. omega arith))
    from-Kept fuel (some p, g) enough gains =
        loop-Kept fuel 4096 p g (omega arith) (omega arith) (omega arith) gains

    -- If `n` bytes are room enough for the value, `n` is at most half of the address space, and the
    -- encoder never asks for more than `n` further bytes, then with more than `n` rounds of fuel
    -- `nimffi_encode_to_buf` ends: with a buffer that holds what the codec wrote without an error,
    -- or with an error text. Exactly the buffer, or the error text, is allocated then; no block is
    -- freed twice, whichever allocation fails.
    pub encode_to_buf-Kept : (fuel : ℕ) → n < fuel → Kept fn h (encode_to_buf fuel wants fn h)
    unfolding encode_to_buf
    encode_to_buf-Kept fuel enough = from-Kept fuel (malloc h) enough (malloc-Gains h)
