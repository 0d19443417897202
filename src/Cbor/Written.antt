-- ===== src/Cbor/Written.antt =====
-- Where memory lasts and the codec has no error of its own, `nimffi_encode_to_buf` returns a buffer.
use nim_ffi.Base.{
  ℕ, zero, suc, ◌+◌, ◌^◌, ◌≤◌, ◌<◌, ◌≡◌, ◌≢◌, refl, ap, subst, inl, inr, Bool-cases, Bool, none,
  some, List, arith, dec_lt, ◌⊎◌, has,
}
use nim_ffi.Heap.{Heap, Ptr, malloc, free, realloc, replace}
use nim_ffi.Tinycbor.{
  CborError, no_error, out_of_memory, improper_value, data_too_large, other_error, Writer,
}
use nim_ffi.Cbor.Values.{Encoder}
use nim_ffi.Cbor.Buf.{
  Encoded, encoded, encode_grown, encode_step, encode_loop, encode_from, encode_to_buf,
}
use nim_ffi.Cbor.Encoding.{grows, below}
use nim_ffi.Cbor.Reading.{Plenty}

-- A buffer with what the codec wrote, without an error, at some capacity.
pub data Written {E : Type 0} ⦃w : Writer E⦄ (fn : Encoder E) : Encoded → Type 0 where
  written_buf :
      {buf : ℕ} {bytes : List ℕ} {g : Heap} (cap : ℕ) (e : E)
      → fn (w.encoder_init cap) ≡ (no_error, e)
      → bytes ≡ w.written e
      → Plenty g
      → Written fn (encoded buf bytes g)

-- A block that an allocation gave, and memory that still lasts.
data Given : Ptr × Heap → Type 0 where
  given : {b : ℕ} {g : Heap} → Plenty g → Given (some b, g)

malloc-Given : (h : Heap) → Plenty h → Given (malloc h)
unfolding malloc
malloc-Given h full = rw (full h.next) (given full)

free-Plenty : (p : Ptr) (h : Heap) → Plenty h → Plenty (free p h)
unfolding free
free-Plenty none h full = full
free-Plenty (some p) h full = elim (Bool-cases (has p h.live)) [
  | inl there ↦ rw there full
  | inr missing ↦ rw missing full
]

replace-Given : (p : Ptr) (r : Ptr × Heap) → Given r → Given (replace p r)
unfolding replace
replace-Given p (some b, g) (given full) = given (free-Plenty p g full)
replace-Given p (none, g) r = elim r [ ]

realloc-Given : (p : Ptr) (h : Heap) → Plenty h → Given (realloc p h)
unfolding realloc
realloc-Given p h full = replace-Given p (malloc h) (malloc-Given h full)

module _ {E : Type 0} ⦃w : Writer E⦄ (fn : Encoder E) (wants : Bool) (n : ℕ)
    (small : n + n ≤ 2 ^ 64)
    (fine : (cap : ℕ)
      → ((fn (w.encoder_init cap)).0 ≡ no_error) ⊎ ((fn (w.encoder_init cap)).0 ≡ out_of_memory))
    (fits : (cap : ℕ) → n ≤ cap → (fn (w.encoder_init cap)).0 ≢ out_of_memory)
    (hint : (cap : ℕ) → w.extra_bytes_needed (fn (w.encoder_init cap)).1 ≤ n) where
  grown-Written :
      (cap buf : ℕ) (r : Ptr × Heap) (again : (cap buf : ℕ) → Heap → Encoded)
      → Given r
      → ((b : ℕ) (g : Heap) → Plenty g → Written fn (again cap b g))
      → Written fn (encode_grown wants cap buf r again)
  unfolding encode_grown
  grown-Written cap buf (some b, g) again (given full) next = next b g full
  grown-Written cap buf (none, g) again r next = elim r [ ]

  step-Written :
      (cap buf : ℕ) (g : Heap) (r : CborError × E) (again : (cap buf : ℕ) → Heap → Encoded)
      → fn (w.encoder_init cap) ≡ r
      → (r.0 ≡ no_error) ⊎ (r.0 ≡ out_of_memory)
      → 0 < cap
      → Plenty g
      → ((cap' b : ℕ) (k : Heap) → cap < n → cap < cap' → Plenty k → Written fn (again cap' b k))
      → Written fn (encode_step wants cap buf g r again)
  unfolding encode_step
  step-Written cap buf g (no_error, e) again eq ok pos full next = written_buf cap e eq refl full
  step-Written cap buf g (out_of_memory, e) again eq ok pos full next =
      let less : cap < n = below (dec_lt cap n) (λ over. fits cap over (ap (λ r. r.0) eq)) in
      let bound : w.extra_bytes_needed e ≤ n =
        subst (λ (r : CborError × E). w.extra_bytes_needed r.1 ≤ n) eq (hint cap) in
      grown-Written _ buf _ again (realloc-Given (some buf) g full)
        (λ b k more. next _ b k less (grows cap _ n less bound small pos) more)
  step-Written cap buf g (improper_value, e) again eq ok pos full next = elim ok [
    | inl bad ↦ cc
    | inr bad ↦ cc
  ]
  step-Written cap buf g (data_too_large, e) again eq ok pos full next = elim ok [
    | inl bad ↦ cc
    | inr bad ↦ cc
  ]
  step-Written cap buf g (other_error m, e) again eq ok pos full next = elim ok [
    | inl bad ↦ cc
    | inr bad ↦ cc
  ]

  loop-Written :
      (fuel cap buf : ℕ) (g : Heap)
      → n < fuel + cap
      → 0 < cap
      → 0 < fuel
      → Plenty g
      → Written fn (encode_loop fuel wants fn cap buf g)
  unfolding encode_loop
  loop-Written zero cap buf g enough pos some_fuel full = absurd (omega arith)
  loop-Written (suc fuel) cap buf g enough pos some_fuel full =
      step-Written cap buf g _ _ refl (fine cap) pos full (λ cap' b k less more lasts.
        loop-Written fuel cap' b k (omega arith) (omega arith) (omega arith) lasts)

  from-Written :
      (fuel : ℕ) (r : Ptr × Heap) → n < fuel → Given r → Written fn (encode_from fuel wants fn r)
  unfolding encode_from
  from-Written fuel (some p, g) enough (given full) =
      loop-Written fuel 4096 p g (omega arith) (omega arith) (omega arith) full
  from-Written fuel (none, g) enough r = elim r [ ]

  -- If memory lasts, the codec's only error is a buffer that is too small, `n` bytes are room enough,
  -- `n` is at most half of the address space, and the encoder never asks for more than `n` further
  -- bytes, then with more than `n` rounds of fuel `nimffi_encode_to_buf` returns a buffer with
  -- what the codec wrote without an error, and memory still lasts.
  pub encode_to_buf-Written :
      (fuel : ℕ) (h : Heap) → n < fuel → Plenty h → Written fn (encode_to_buf fuel wants fn h)
  unfolding encode_to_buf
  encode_to_buf-Written fuel h enough full =
      from-Written fuel (malloc h) enough (malloc-Given h full)
