-- ===== src/Binding/Create/Made.antt =====
-- A creation: the host is told once, and the context stays allocated for it.
use nim_ffi.Base.{
  ℕ, ◌<◌, ◌≡◌, ◌≢◌, refl, sym, ◌∙◌, true, false, inl, inr, none, some, List, ◌++◌, codes, arith,
  ◌==◌, ==_iff, ==_false, Bool-cases,
}
use nim_ffi.Heap.{Heap, Ptr, malloc, free}
use nim_ffi.Heap.Laws.{Owned, owned_ptr, Gains, Holds, Swaps, Gains-free, malloc-Gains, free-Loses}
use nim_ffi.Tinycbor.{Writer, Reader}
use nim_ffi.Cbor.Values.{CStr, null, c_text, address, owned_str, Encoder}
use nim_ffi.Cbor.Dec.{dec_str}
use nim_ffi.Cbor.Memory.{dec_str-Sound}
use nim_ffi.Cbor.Buf.{dup_cstr_n, Decoded, decode_from_buf}
use nim_ffi.Cbor.Encoding.{dup_cstr_n-Gains}
use nim_ffi.Cbor.Decoding.{Leaves, decode_from_buf-Leaves}
use nim_ffi.Binding.Reply.{
  Reply, World, or_text, CallBox, Delivery, payload, ret_ok, ret_stale_warn, minus_one, free_in,
  tell_error, tell_value,
}
use nim_ffi.Binding.Call.{Answer, Host}
use nim_ffi.Binding.Protocol.{Complete, OneMore, Handles, Settled}
use nim_ffi.Binding.Exchange.{settle, Bounded, delivered-Settled, submit-Settled, finish_with}
use nim_ffi.Binding.Create.{
  is_number, create_made, create_decoded, create_refused, create_trampoline, create_answered,
  ctx_create,
}

-- The trampoline's decoding of the reply that should hold the address.
abbrev read_address : {V : Type 0} → Reader V → List ℕ → Heap → Decoded CStr
read_address c bytes h = decode_from_buf ⦃c = c⦄ true (dec_str ⦃c = c⦄) bytes null h

-- What stays allocated behind a reply: the context that it hands over; nothing, behind an error; or,
-- behind the error -1 with the text of `nimffi_decode_from_buf`, the string that it had read of
-- bytes that it failed to decode.
pub data CtxLeft {V X : Type 0} (c : Reader V) (own : X → Owned) (r : Reply X) (o : Owned)
    : Type 0 where
  ctx_left : (x : X) → r.reply ≡ some x → ((a : ℕ) → o a ≡ own x a) → CtxLeft c own r o
  none_left : r.reply ≡ none → ((a : ℕ) → o a ≡ 0) → CtxLeft c own r o
  text_left :
      (bytes : List ℕ) (h : Heap)
      → (read_address c bytes h).ok ≡ false
      → r.reply ≡ none
      → r.err_code ≡ minus_one
      → r.err_msg ≡ some (or_text (read_address c bytes h).err (codes "decode failed"))
      → r.heap ≡ (read_address c bytes h).heap
      → ((a : ℕ) → o a ≡ owned_str (read_address c bytes h).out a)
      → CtxLeft c own r o

module _ {V X : Type 0} (c : Reader V) (strtoull : List ℕ → ℕ × List ℕ)
    (make : (block addr : ℕ) → X) (own : X → Owned)
    (makes : (b addr a : ℕ) → own (make b addr) a ≡ owned_ptr (some b) a) where
  module _ (box : CallBox) (w : World X) (held : Holds (owned_ptr (some box.block)) w.heap) where
    -- The heap `g` holds what is left beside the old blocks; then the box is freed.
    boxed-Swaps :
        (o : Owned) (g : Heap)
        → Gains o w.heap g
        → Swaps (owned_ptr (some box.block)) o w.heap (free (some box.block) g)
    boxed-Swaps o g e =
        let f = free-Loses (some box.block) g (λ a. omega (arith, e.live a, held a)) in
        record { live = λ a. omega (arith, e.live a, f.live a); bad = f.bad ∙ e.bad }

    made-OneMore :
        (addr : ℕ) (g : Heap) (r : Ptr × Heap)
        → Gains (λ _. 0) w.heap g
        → Gains (owned_ptr r.0) g r.1
        → OneMore
            (CtxLeft c own)
            box
            w
            (create_made c strtoull make box addr r (record w { heap = g }))
    unfolding create_made tell_error tell_value free_in
    made-OneMore addr g (none, k) e m = record {
      kept = λ _. 0;
      heap =
          boxed-Swaps (λ _. 0) k
            (record { live = λ a. omega (arith, e.live a, m.live a); bad = m.bad ∙ e.bad });
      reply = _;
      left = none_left refl (λ a. refl);
      told = refl;
      addressed = refl;
    }
    made-OneMore addr g (some b, k) e m = record {
      kept = owned_ptr (some b);
      heap =
          boxed-Swaps (owned_ptr (some b)) k
            (record { live = λ a. omega (arith, e.live a, m.live a); bad = m.bad ∙ e.bad });
      reply = _;
      left = ctx_left (make b addr) refl (λ a. sym (makes b addr a));
      told = refl;
      addressed = refl;
    }

    undecodable-OneMore :
        (d : Delivery)
        → let got = read_address c (payload d) w.heap in
          Leaves owned_str w.heap got
          → got.ok ≡ false
          → OneMore (CtxLeft c own) box w (create_decoded c strtoull make box got w)
    unfolding create_decoded tell_error free_in
    undecodable-OneMore d l bad =
        let r = read_address c (payload d) w.heap in
        let text = free-Loses (address r.err) r.heap (λ a. omega (arith, l.gains.live a)) in
        simp bad (record {
          kept = owned_str r.out;
          heap = boxed-Swaps (owned_str r.out) (free (address r.err) r.heap) (record {
            live = λ a. omega (arith, l.gains.live a, text.live a);
            bad = text.bad ∙ l.gains.bad;
          });
          reply = _;
          left = text_left (payload d) w.heap bad refl refl refl refl (λ a. refl);
          told = refl;
          addressed = refl;
        })

    decoded-OneMore :
        (r : Decoded CStr)
        → Leaves owned_str w.heap r
        → r.ok ≡ true
        → OneMore (CtxLeft c own) box w (create_decoded c strtoull make box r w)
    unfolding create_decoded tell_error free_in
    decoded-OneMore r l good =
        let gone : (a : ℕ) → owned_str r.err a ≡ 0 = λ a. rw (l.no_text good) refl in
        let text = free-Loses (address r.out) r.heap (λ a. omega (arith, l.gains.live a)) in
        let freed : Gains (λ _. 0) w.heap (free (address r.out) r.heap) = record {
          live = λ a. omega (arith, l.gains.live a, gone a, text.live a);
          bad = text.bad ∙ l.gains.bad;
        } in
        simp good (elim (Bool-cases (is_number c strtoull make r.out)) [
          | inl number ↦ simp number (
              made-OneMore (strtoull (c_text r.out)).0 (free (address r.out) r.heap)
                (malloc (free (address r.out) r.heap)) freed
                (malloc-Gains (free (address r.out) r.heap)))
          | inr other ↦ simp other (record {
            kept = λ _. 0;
            heap = boxed-Swaps (λ _. 0) _ freed;
            reply = _;
            left = none_left refl (λ a. refl);
            told = refl;
            addressed = refl;
          })
        ])

    refused-OneMore :
        (d : Delivery) → OneMore (CtxLeft c own) box w (create_refused c strtoull make box d w)
    unfolding create_refused tell_error free_in
    refused-OneMore d = record {
      kept = λ _. 0;
      heap =
          boxed-Swaps (λ _. 0) _
            (Gains-free (address (dup_cstr_n (payload d) w.heap).0)
              (dup_cstr_n-Gains (payload d) w.heap));
      reply = _;
      left = none_left refl (λ a. refl);
      told = refl;
      addressed = refl;
    }

    pub create_trampoline-OneMore :
        (d : Delivery)
        → d.ret ≢ ret_stale_warn
        → box.has_fn ≡ true
        → OneMore (CtxLeft c own) box w (create_trampoline c strtoull make box d w)
    unfolding create_trampoline
    create_trampoline-OneMore d terminal fn =
        let got = read_address c (payload d) w.heap in
        let l =
          decode_from_buf-Leaves ⦃c = c⦄ owned_str null (dec_str ⦃c = c⦄) (dec_str-Sound ⦃c = c⦄)
            (λ a. refl) true (payload d) w.heap in
        simp (==_false d.ret ret_stale_warn terminal, fn)
          (elim (Bool-cases (d.ret == ret_ok)) [
            | inr bad ↦ simp bad (refused-OneMore d)
            | inl fine ↦ simp fine (elim (Bool-cases got.ok) [
              | inl good ↦ decoded-OneMore got l good
              | inr bad ↦ undecodable-OneMore d l bad
            ])
          ])

  pub create_trampoline-Handles : Handles (CtxLeft c own) (create_trampoline c strtoull make)
  unfolding create_trampoline
  create_trampoline-Handles = record {
    ping = λ box d w stale. rw ((==_iff d.ret ret_stale_warn).1 stale);
    once = λ box d w terminal fn held. create_trampoline-OneMore box w held d terminal fn;
    unanswered = λ r e. none_left e (λ a. refl);
  }

  module _ (host : Host) (later : List Delivery) (fn : host.has_fn ≡ true) (w : World X) where
    pub create-Settled :
        {E : Type 0} ⦃wr : Writer E⦄ (send : ℕ → List ℕ → Answer) (enc : Encoder E) (n fuel : ℕ)
        → Bounded wr enc n
        → n < fuel
        → ((b : ℕ) (bytes : List ℕ) → Complete ((send b bytes).fires ++ later))
        → Settled (CtxLeft c own) host w (
            settle
              (create_trampoline c strtoull make)
              later
              (ctx_create (create_trampoline c strtoull make) host send fuel enc w))
    unfolding ctx_create create_answered finish_with
    create-Settled send enc n fuel bounded enough protocol =
        let tramp = create_trampoline c strtoull make in
        submit-Settled (CtxLeft c own) tramp create_trampoline-Handles host later fn w send
          (create_answered tramp)
          (λ b buf bytes h sent.
            delivered-Settled (CtxLeft c own) tramp create_trampoline-Handles host later fn w b buf
              (send b bytes).fires h sent (protocol b bytes))
          enc n fuel bounded enough
