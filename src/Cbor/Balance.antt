-- ===== src/Cbor/Balance.antt =====
-- A value that was decoded and is then freed, with the error text, leaves the heap as it was.
use nim_ffi.Base.{ℕ, ◌∙◌, Bool, List, arith}
use nim_ffi.Heap.{Heap, free}
use nim_ffi.Heap.Laws.{Owned, Gains, free-Loses, frees-both}
use nim_ffi.Tinycbor.{Reader}
use nim_ffi.Cbor.Values.{Decoder, address}
use nim_ffi.Cbor.Buf.{Decoded, decode_from_buf}
use nim_ffi.Cbor.Memory.{Unowned, Sound}
use nim_ffi.Cbor.Release.{Frees}
use nim_ffi.Cbor.Decoding.{decode_from_buf-Leaves}

-- What a caller does with the result: it frees the error text and the value.
abbrev pub release_all : {X : Type 0} → (X → Heap → X × Heap) → Decoded X → Heap
release_all fr r = (fr r.out (free (address r.err) r.heap)).1

-- Whatever the bytes are and whatever fails, in `h` the call takes what its caller then frees.
abbrev pub Balances :
    {V X : Type 0} ⦃c : Reader V⦄ → X → Decoder V X → (X → Heap → X × Heap) → Type 0
Balances zeroed dec fr =
    (wants : Bool) (buf : List ℕ) (h : Heap)
    → Gains (λ _. 0) h (release_all fr (decode_from_buf wants dec buf zeroed h))

pub freed-Balances :
    {V X : Type 0} ⦃c : Reader V⦄ (own : X → Owned) (zeroed : X) (dec : Decoder V X)
    (fr : X → Heap → X × Heap)
    → Sound own zeroed dec
    → Unowned own zeroed
    → Frees own fr
    → Balances zeroed dec fr
freed-Balances own zeroed dec fr sound z frees wants buf h =
    let l = decode_from_buf-Leaves own zeroed dec sound z wants buf h in
    let r = decode_from_buf wants dec buf zeroed h in
    let all =
      frees-both (free-Loses (address r.err) r.heap) (frees r.out (free (address r.err) r.heap))
        (λ a. omega (arith, l.gains.live a)) in
    record { live = λ a. omega (arith, l.gains.live a, all.live a); bad = all.bad ∙ l.gains.bad }
