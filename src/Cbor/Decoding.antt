-- ===== src/Cbor/Decoding.antt =====
-- `nimffi_decode_from_buf` leaves behind what the value and the error text own, and nothing else.
use nim_ffi.Base.{ℕ, ◌+◌, ◌≡◌, refl, Bool, true, inl, inr, List, arith, Bool-cases}
use nim_ffi.Heap.{Heap}
use nim_ffi.Heap.Laws.{Owned, Gains, Gains-refl, Gains-as, Gains-add}
use nim_ffi.Tinycbor.{failed, Reader}
use nim_ffi.Cbor.Values.{null, owned_str, Decoder}
use nim_ffi.Cbor.Buf.{Decoded, decode_failed, decode_from_buf}
use nim_ffi.Cbor.Memory.{Unowned, Sound, at}
use nim_ffi.Cbor.Encoding.{report-Gains}

-- The value and the error text are held; where it succeeds there is no error text.
pub record Leaves {X : Type 0} (own : X → Owned) (h : Heap) (r : Decoded X) : Type 0 where
  pub gains : Gains (λ a. own r.out a + owned_str r.err a) h r.heap
  pub no_text : r.ok ≡ true → r.err ≡ null

failed-Leaves :
    {X : Type 0} (own : X → Owned) (wants : Bool) (text : List ℕ) (x : X) {h g : Heap}
    → Gains (own x) h g
    → Leaves own h (decode_failed wants text x g)
unfolding decode_failed
failed-Leaves own wants text x {g} e = record {
  gains = Gains-add e (report-Gains wants text g);
  no_text = λ p. cc;
}

-- Whatever the bytes are, whatever the reader answers and whichever allocation fails, the call
-- allocates exactly what the value and the error text own.
pub decode_from_buf-Leaves :
    {V X : Type 0} ⦃c : Reader V⦄ (own : X → Owned) (zeroed : X) (dec : Decoder V X)
    → Sound own zeroed dec
    → Unowned own zeroed
    → (wants : Bool) (buf : List ℕ) (h : Heap)
    → Leaves own h (decode_from_buf wants dec buf zeroed h)
unfolding decode_from_buf
decode_from_buf-Leaves ⦃c⦄ own zeroed dec sound z wants buf h =
    let p = c.parser_init buf in
    let r = dec (at p.1 zeroed h) in
    let got = (sound p.1 h).gains in
    elim (Bool-cases (failed p.0)) [
      | inl bad ↦
          rw bad
            (failed-Leaves own wants _ zeroed (Gains-as (Gains-refl h) (λ a. omega (arith, z a))))
      | inr good ↦ rw good (elim (Bool-cases (failed r.0)) [
        | inl bad ↦ rw bad (failed-Leaves own wants _ r.1.out got)
        | inr done ↦
            rw done (record { gains = Gains-as got (λ a. omega arith); no_text = λ p. refl })
      ])
    ]
