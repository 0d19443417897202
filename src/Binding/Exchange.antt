-- ===== src/Binding/Exchange.antt =====
-- A whole exchange: the call, the deliveries that the library makes during it and after it. The
-- library is a parameter; its side of the contract is that of nim_ffi_prelude.h and of
-- nim_ffi_cbor.h's status codes.
use nim_ffi.Base.{
  ℕ, ◌+◌, ◌^◌, ◌≤◌, ◌<◌, ◌≡◌, ◌≢◌, refl, inl, inr, true, none, some, Option, List, [], ◌++◌, arith,
  ==_iff, ==_false,
}
use nim_ffi.Heap.{Heap, Ptr, malloc, free}
use nim_ffi.Heap.Laws.{
  Owned, Gains, Gains-Swaps, owned_ptr, Gains-as, Gains-add, Gains-minus, Gains-free, malloc-Gains,
  free-Loses,
}
use nim_ffi.Tinycbor.{out_of_memory, Writer}
use nim_ffi.Cbor.Values.{address, Encoder}
use nim_ffi.Cbor.Buf.{Encoded, encoded, not_encoded, out_of_fuel, encode_to_buf}
use nim_ffi.Cbor.Encoding.{Kept, kept_buf, kept_err, encode_to_buf-Kept}
use nim_ffi.Binding.Reply.{
  Reply, World, CallBox, Delivery, ret_missing_callback, tell_error, free_in,
}
use nim_ffi.Binding.Call.{
  Answer, Called, Host, complain, deliver_all, deliver_now, call_answered, submit_boxed,
  submit_encoded, submit, ctx_call,
}
use nim_ffi.Binding.Protocol.{
  Complete, Pings, Protocol, Handles, Settled, settled, split-Complete, deliver-Pings,
  deliver-Complete,
}

-- The deliveries that come after the call, to the box if there still is one.
unfoldable pub finish_with :
    {X : Type 0}
    → (CallBox → Delivery → World X → World X)
    → List Delivery
    → Option CallBox
    → World X
    → World X
finish_with tramp later none w = w
finish_with tramp later (some box) w = deliver_all tramp box later w

abbrev pub settle :
    {X : Type 0}
    → (CallBox → Delivery → World X → World X)
    → List Delivery
    → Option (Called X)
    → Option (World X)
settle tramp later none = none
settle tramp later (some called) = some (finish_with tramp later called.pending called.world)

-- The encoder asks for at most `n` bytes, and `n` is at most half of the address space.
pub record Bounded {E : Type 0} (wr : Writer E) (enc : Encoder E) (n : ℕ) : Type 0 where
  pub small : n + n ≤ 2 ^ 64
  pub fits : (cap : ℕ) → n ≤ cap → (enc (wr.encoder_init cap)).0 ≢ out_of_memory
  pub hint : (cap : ℕ) → wr.extra_bytes_needed (enc (wr.encoder_init cap)).1 ≤ n

module _ {X : Type 0} (Left : Reply X → Owned → Type 0)
    (tramp : CallBox → Delivery → World X → World X) (handles : Handles Left tramp) (host : Host)
    (later : List Delivery) (fn : host.has_fn ≡ true) (w : World X) where
  abbrev box_at : ℕ → CallBox
  box_at b = record { block = b; has_fn = host.has_fn; user_data = host.user_data }

  -- The call went to the library, with the buffer and the box allocated.
  abbrev pub Sent : ℕ → ℕ → Heap → Type 0
  Sent b buf h = Gains (λ x. owned_ptr (some buf) x + owned_ptr (some b) x) w.heap h

  abbrev ended : ℕ → ℕ → List Delivery → Heap → Option (World X)
  ended b buf fires h = some (
      finish_with tramp later (some (box_at b))
        (deliver_now tramp (box_at b) buf fires (record w { heap = h })))

  -- The terminal delivery came during the call.
  during-Settled :
      (b buf : ℕ) (fires : List Delivery) (h : Heap)
      → Sent b buf h
      → Complete fires
      → later ≡ []
      → Settled Left host w (ended b buf fires h)
  unfolding deliver_now deliver_all free_in finish_with
  during-Settled b buf fires h gains all none_left =
      let one =
        deliver-Complete Left tramp handles (box_at b) fires (record w { heap = h }) all fn
          (λ x. omega (arith, gains.live x)) in
      let swap : Gains (λ x. owned_ptr (some b) x + owned_ptr (some buf) x) w.heap h =
        Gains-as gains (λ x. omega arith) in
      let swapped = Gains-Swaps (owned_ptr (some buf)) swap one.heap in
      let buf_left = Gains-minus (Gains-as swapped (λ x. omega arith)) (free-Loses (some buf) _) in
      simp none_left (settled one.reply one.kept one.left buf_left one.told one.addressed)

  -- The terminal delivery came after the call.
  after-Settled :
      (b buf : ℕ) (fires : List Delivery) (h : Heap)
      → Sent b buf h
      → Pings fires
      → Complete later
      → Settled Left host w (ended b buf fires h)
  unfolding deliver_now free_in finish_with
  after-Settled b buf fires h gains pings all =
      let box_left = Gains-minus gains (free-Loses (some buf) h) in
      let one =
        deliver-Complete Left tramp handles (box_at b) later (record w { heap = free (some buf) h })
          all fn (λ x. omega (arith, box_left.live x)) in
      let quiet = deliver-Pings Left tramp handles (box_at b) fires (record w { heap = h }) pings in
      let kept = Gains-Swaps (λ _. 0) (Gains-as box_left (λ x. omega arith)) one.heap in
      simp quiet (
        settled one.reply one.kept one.left (Gains-as kept (λ x. omega arith)) one.told
          one.addressed)

  pub delivered-Settled :
      (b buf : ℕ) (fires : List Delivery) (h : Heap)
      → Sent b buf h
      → Complete (fires ++ later)
      → Settled Left host w (ended b buf fires h)
  delivered-Settled b buf fires h gains all = elim (split-Complete fires later all) [
    | inl (done, none_left) ↦ during-Settled b buf fires h gains done none_left
    | inr (pings, rest) ↦ after-Settled b buf fires h gains pings rest
  ]

  module _ (send : ℕ → List ℕ → Answer)
      (answered : CallBox → (buf : ℕ) → Answer → World X → Called X)
      (ends : (b buf : ℕ) (bytes : List ℕ) (h : Heap)
        → Sent b buf h
        → Settled Left host w (
            let r = answered (box_at b) buf (send b bytes) (record w { heap = h }) in
            some (finish_with tramp later r.pending r.world))) where
    boxed-Settled :
        (buf : ℕ) (bytes : List ℕ) (r : Ptr × Heap) (g : Heap)
        → Gains (owned_ptr (some buf)) w.heap g
        → Gains (owned_ptr r.0) g r.1
        → Settled Left host w (
            let r = submit_boxed answered host send buf bytes r w in
            some (finish_with tramp later r.pending r.world))
    unfolding submit_boxed free_in complain tell_error finish_with
    boxed-Settled buf bytes (none, h) g gains boxed =
        let none_left =
          Gains-free (some buf) (Gains-as (Gains-add gains boxed) (λ x. omega arith)) in
        simp fn (settled _ _ (handles.unanswered _ refl) none_left refl refl)
    boxed-Settled buf bytes (some b, h) g gains boxed = ends b buf bytes h (Gains-add gains boxed)

    encoded-Settled :
        {E : Type 0} ⦃wr : Writer E⦄ (enc : Encoder E) (r : Encoded)
        → Kept enc w.heap r
        → Settled Left host w (settle tramp later (submit_encoded answered host send r w))
    unfolding submit_encoded free_in complain tell_error finish_with
    encoded-Settled enc (encoded buf bytes g) (kept_buf room e _ _ gains) =
        boxed-Settled buf bytes (malloc g) g gains (malloc-Gains g)
    encoded-Settled enc (not_encoded s g) (kept_err gains) =
        simp fn (settled _ _ (handles.unanswered _ refl) (Gains-free (address s) gains) refl refl)
    encoded-Settled enc out_of_fuel none_left = elim none_left [ ]

    pub submit-Settled :
        {E : Type 0} ⦃wr : Writer E⦄ (enc : Encoder E) (n fuel : ℕ)
        → Bounded wr enc n
        → n < fuel
        → Settled Left host w (settle tramp later (submit answered host send fuel enc w))
    unfolding submit
    submit-Settled enc n fuel bounded enough =
        encoded-Settled enc (encode_to_buf fuel true enc w.heap)
          (encode_to_buf-Kept enc true w.heap n bounded.small bounded.fits bounded.hint fuel enough)

  answered-Settled :
      (b buf : ℕ) (a : Answer) (h : Heap)
      → Sent b buf h
      → Protocol a later
      → Settled Left host w (
          let r = call_answered tramp host (box_at b) buf a (record w { heap = h }) in
          some (finish_with tramp later r.pending r.world))
  unfolding call_answered deliver_now deliver_all free_in complain tell_error finish_with
  answered-Settled b buf a h gains (inl (missing, silent)) =
      let box_left = Gains-minus gains (free-Loses (some buf) h) in
      simp ((==_iff a.ret ret_missing_callback).1 missing, silent, fn)
        (settled _ _ (handles.unanswered _ refl) (Gains-free (some b) box_left) refl refl)
  answered-Settled b buf a h gains (inr (sent, all)) =
      simp (==_false a.ret ret_missing_callback sent) (delivered-Settled b buf a.fires h gains all)

  -- A call of a binding whose request fits into `n` bytes, with a callback set: whatever fails on
  -- the way, and whether the library delivers during the call or after it, the host's callback is
  -- called once with its own `user_data`.
  pub exchange-Settled :
      {E : Type 0} ⦃wr : Writer E⦄ (send : ℕ → List ℕ → Answer) (enc : Encoder E) (n fuel : ℕ)
      → Bounded wr enc n
      → n < fuel
      → ((b : ℕ) (bytes : List ℕ) → Protocol (send b bytes) later)
      → Settled Left host w (settle tramp later (ctx_call tramp host send fuel enc w))
  unfolding ctx_call
  exchange-Settled send enc n fuel bounded enough protocol =
      submit-Settled send (call_answered tramp host)
        (λ b buf bytes h sent. answered-Settled b buf (send b bytes) h sent (protocol b bytes)) enc
        n fuel bounded enough
