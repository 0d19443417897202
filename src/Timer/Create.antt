-- ===== src/Timer/Create.antt =====
-- `my_timer_create_trampoline` and `my_timer_ctx_create`, and their exchange with the library.
use nim_ffi.Base.{ℕ, ◌<◌, ◌≡◌, true, none, some, Option, List, [], ◌++◌, ◌==◌, arith, if◌then◌else◌}
use nim_ffi.Tinycbor.{Writer, Reader}
use nim_ffi.Timer.Types.{TimerConfig}
use nim_ffi.Timer.Enc.{enc_my_timer_create_ctor_req}
use nim_ffi.Timer.Context.{Ctx}
use nim_ffi.Timer.Context.Account.{owned_ctx}
use nim_ffi.Binding.Reply.{World, CallBox, Delivery}
use nim_ffi.Binding.Call.{Answer, Called, Host}
use nim_ffi.Binding.Protocol.{Complete, Settled}
use nim_ffi.Binding.Exchange.{settle, Bounded}
use nim_ffi.Binding.Create.{create_trampoline, ctx_create}
use nim_ffi.Binding.Create.Made.{CtxLeft, create-Settled}

-- The zeroed context, and its pointer.
unfoldable pub make_ctx : (block addr : ℕ) → Ctx
make_ctx block addr = record {
  block = block;
  ptr = if addr == 0 then none else some addr;
  array = none;
  listeners = [];
  listeners_cap = 0;
}

unfoldable pub timer_create_trampoline :
    {V : Type 0} → Reader V → (List ℕ → ℕ × List ℕ) → CallBox → Delivery → World Ctx → World Ctx
unfolding create_trampoline
timer_create_trampoline c strtoull = create_trampoline c strtoull make_ctx

unfoldable pub timer_ctx_create :
    {E V : Type 0}
    → Writer E
    → Reader V
    → (List ℕ → ℕ × List ℕ)
    → ℕ
    → Host
    → (ℕ → List ℕ → Answer)
    → TimerConfig
    → World Ctx
    → Option (Called Ctx)
unfolding ctx_create
timer_ctx_create wr c strtoull fuel host send config =
    ctx_create ⦃wr = wr⦄ (timer_create_trampoline c strtoull) host send fuel
      (enc_my_timer_create_ctor_req ⦃w = wr⦄ (record { config = config }))

module _ {E V : Type 0} (wr : Writer E) (c : Reader V) (strtoull : List ℕ → ℕ × List ℕ) (n fuel : ℕ)
    (enough : n < fuel) (host : Host) (fn : host.has_fn ≡ true) (send : ℕ → List ℕ → Answer)
    (later : List Delivery)
    (protocol : (b : ℕ) (bytes : List ℕ) → Complete ((send b bytes).fires ++ later)) where
  -- `my_timer_ctx_create` with a callback set, for a configuration that the encoder fits into `n`
  -- bytes (`n` at most half of the address space, more than `n` rounds of fuel), and a library
  -- that delivers pings and one terminal delivery, during the call or after it. Whatever fails on
  -- the way, the callback is called exactly once with its own `user_data`. If it gets a context,
  -- exactly the blocks of that context are allocated afterwards beside those of before; if it
  -- gets an error, none are, but for the string that was read of a reply which fails to decode,
  -- an error -1. No block is freed twice.
  pub create_ctx-Settled :
      (config : TimerConfig) (w : World Ctx)
      → Bounded wr (enc_my_timer_create_ctor_req ⦃w = wr⦄ (record { config = config })) n
      → Settled (CtxLeft c owned_ctx) host w (
          settle
            (timer_create_trampoline c strtoull)
            later
            (timer_ctx_create wr c strtoull fuel host send config w))
  unfolding timer_create_trampoline timer_ctx_create make_ctx
  create_ctx-Settled config w bounded =
      create-Settled c strtoull make_ctx owned_ctx (λ b addr a. omega arith) host later fn w
        ⦃wr = wr⦄ send (enc_my_timer_create_ctor_req ⦃w = wr⦄ (record { config = config })) n fuel
        bounded enough protocol
