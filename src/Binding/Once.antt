-- ===== src/Binding/Once.antt =====
-- A delivery to a reply trampoline: the host is called once, with memory that it may read, and
-- everything is freed afterwards.
use nim_ffi.Base.{
  ℕ, pos, ◌≡◌, ◌≢◌, refl, ◌∙◌, codes, true, false, inl, inr, none, some, [], ◌∷◌, ◌++◌, arith, ◌==◌,
  ==_iff, ==_false, Bool-cases,
}
use nim_ffi.Heap.{Heap, free}
use nim_ffi.Heap.Laws.{Owned, owned_ptr, Gains, Loses, Holds, Gains-free, free-Loses, frees-both}
use nim_ffi.Tinycbor.{Reader}
use nim_ffi.Cbor.Values.{null, address, owned_str, Decoder}
use nim_ffi.Cbor.Buf.{dup_cstr_n, Decoded, decode_from_buf}
use nim_ffi.Cbor.Memory.{Unowned, Sound}
use nim_ffi.Cbor.Release.{Frees}
use nim_ffi.Cbor.Encoding.{dup_cstr_n-Gains}
use nim_ffi.Cbor.Decoding.{Leaves, decode_from_buf-Leaves}
use nim_ffi.Binding.Reply.{
  Reply, World, CallBox, Delivery, payload, ret_ok, ret_stale_warn, minus_one, tell_error,
  tell_value, or_text, free_in, reply_refused, reply_decoded, reply_trampoline,
}

-- What the one reply says: an error of the library, passed on; bytes that do not decode; or the
-- value, whose memory is allocated while the host reads it.
pub data Outcome {X : Type 0} (own : X → Owned) (d : Delivery) (got : Decoded X) (r : Reply X)
    : Type 0 where
  refused : d.ret ≢ ret_ok → r.err_code ≡ pos d.ret → r.reply ≡ none → Outcome own d got r
  undecodable :
      d.ret ≡ ret_ok
      → got.ok ≡ false
      → r.err_code ≡ minus_one
      → r.reply ≡ none
      → Outcome own d got r
  value :
      d.ret ≡ ret_ok
      → got.ok ≡ true
      → r.err_code ≡ pos ret_ok
      → r.reply ≡ some got.out
      → Holds (own got.out) r.heap
      → Outcome own d got r

-- One reply to the host with its own `user_data`, and the box freed.
pub record Answered {X : Type 0} (own : X → Owned) (d : Delivery) (got : Decoded X) (box : CallBox)
    (w w' : World X) : Type 0 where
  pub heap : Loses (owned_ptr (some box.block)) w.heap w'.heap
  pub reply : Reply X
  pub told : w'.replies ≡ w.replies ++ reply ∷ []
  pub addressed : reply.user_data ≡ box.user_data
  pub outcome : Outcome own d got reply

after_gain :
    (b : ℕ) {h g : Heap}
    → Gains (λ _. 0) h g
    → Holds (owned_ptr (some b)) h
    → Loses (owned_ptr (some b)) h (free (some b) g)
after_gain b {h} {g} e o =
    let f = free-Loses (some b) g (λ a. omega (arith, e.live a, o a)) in
    record { live = λ a. omega (arith, e.live a, f.live a); bad = f.bad ∙ e.bad }

module _ {V X : Type 0} ⦃c : Reader V⦄ (dec : Decoder V X) (zeroed : X) (fr : X → Heap → X × Heap)
    (own : X → Owned) (z : Unowned own zeroed) (sound : Sound own zeroed dec) (frees : Frees own fr)
    (box : CallBox) (d : Delivery) (w : World X)
    (held : Holds (owned_ptr (some box.block)) w.heap) where
  refused-Answered :
      (got : Decoded X)
      → d.ret ≢ ret_ok
      → Answered own d got box w (reply_refused dec zeroed fr box d w)
  unfolding reply_refused tell_error free_in
  refused-Answered got ne =
      let e = dup_cstr_n-Gains (payload d) w.heap in
      let (em, g) = dup_cstr_n (payload d) w.heap in
      record {
        heap = after_gain box.block (Gains-free (address (dup_cstr_n (payload d) w.heap).0) e) held;
        reply = record {
          err_code = pos d.ret;
          reply = none;
          err_msg = some (or_text em (codes "FFI call failed"));
          user_data = box.user_data;
          heap = g;
        };
        told = refl;
        addressed = refl;
        outcome = refused ne refl refl;
      }

  undecodable-Loses :
      (got : Decoded X)
      → Leaves own w.heap got
      → Loses
          (owned_ptr (some box.block))
          w.heap
          (free (some box.block) (fr got.out (free (address got.err) got.heap)).1)
  undecodable-Loses got l =
      let all =
        frees-both (free-Loses (address got.err) got.heap)
          (frees-both (frees got.out (free (address got.err) got.heap))
            (free-Loses (some box.block) (fr got.out (free (address got.err) got.heap)).1))
          (λ a. omega (arith, l.gains.live a, held a)) in
      record { live = λ a. omega (arith, l.gains.live a, all.live a); bad = all.bad ∙ l.gains.bad }

  value-Loses :
      (got : Decoded X)
      → Leaves own w.heap got
      → got.err ≡ null
      → Loses (owned_ptr (some box.block)) w.heap (free (some box.block) (fr got.out got.heap).1)
  value-Loses got l e =
      let gone : (a : ℕ) → owned_str got.err a ≡ 0 = λ a. rw e refl in
      let all =
        frees-both (frees got.out got.heap) (free-Loses (some box.block) (fr got.out got.heap).1)
          (λ a. omega (arith, l.gains.live a, gone a, held a)) in
      record {
        live = λ a. omega (arith, l.gains.live a, gone a, all.live a);
        bad = all.bad ∙ l.gains.bad;
      }

  decoded-Answered :
      (got : Decoded X)
      → Leaves own w.heap got
      → d.ret ≡ ret_ok
      → Answered own d got box w (reply_decoded dec zeroed fr box got w)
  unfolding reply_decoded tell_error tell_value free_in
  decoded-Answered got l zero = elim (Bool-cases got.ok) [
    | inr bad ↦ simp bad (record {
      heap = undecodable-Loses got l;
      reply = record {
        err_code = minus_one;
        reply = none;
        err_msg = some (or_text got.err (codes "decode failed"));
        user_data = box.user_data;
        heap = got.heap;
      };
      told = refl;
      addressed = refl;
      outcome = undecodable zero bad refl refl;
    })
    | inl good ↦ simp good (record {
      heap = value-Loses got l (l.no_text good);
      reply = record {
        err_code = pos ret_ok;
        reply = some got.out;
        err_msg = none;
        user_data = box.user_data;
        heap = got.heap;
      };
      told = refl;
      addressed = refl;
      outcome = value zero good refl refl (λ a. omega (arith, l.gains.live a));
    })
  ]

  -- A terminal delivery to a box with a callback is answered.
  pub trampoline-Answered :
      d.ret ≢ ret_stale_warn
      → box.has_fn ≡ true
      → Answered own d
          (decode_from_buf true dec (payload d) zeroed w.heap)
          box
          w
          (reply_trampoline dec zeroed fr box d w)
  unfolding reply_trampoline
  trampoline-Answered terminal fn =
      let got = decode_from_buf-Leaves own zeroed dec sound z true (payload d) w.heap in
      simp (==_false d.ret ret_stale_warn terminal, fn)
        (elim (Bool-cases (d.ret == ret_ok)) [
          | inl ok ↦ rw ok (decoded-Answered _ got ((==_iff d.ret ret_ok).0 ok))
          | inr bad ↦ rw bad (refused-Answered _ (λ e. cc (bad, (==_iff d.ret ret_ok).1 e)))
        ])

  -- Without a callback it only frees the box.
  pub trampoline-silent :
      d.ret ≢ ret_stale_warn
      → box.has_fn ≡ false
      → (reply_trampoline dec zeroed fr box d w).replies ≡ w.replies
        × Loses (owned_ptr (some box.block)) w.heap (reply_trampoline dec zeroed fr box d w).heap
  unfolding reply_trampoline free_in
  trampoline-silent terminal fn =
      simp (==_false d.ret ret_stale_warn terminal, fn)
        (refl, free-Loses (some box.block) w.heap held)

  -- A progress ping changes nothing.
  pub trampoline-stale : d.ret ≡ ret_stale_warn → reply_trampoline dec zeroed fr box d w ≡ w
  unfolding reply_trampoline
  trampoline-stale e = rw ((==_iff d.ret ret_stale_warn).1 e)
