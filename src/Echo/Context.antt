-- ===== src/Echo/Context.antt =====
-- The context wrapper of the header, `EchoCtx`: its creation and its end.
use nim_ffi.Base.{ℕ, ◌<◌, ◌≡◌, refl, true, none, some, Option, List, ◌++◌, ◌==◌, if◌then◌else◌}
use nim_ffi.Heap.{Heap, free}
use nim_ffi.Heap.Laws.{Owned, owned_ptr, Gains, Gains-free}
use nim_ffi.Tinycbor.{Writer, Reader}
use nim_ffi.Echo.Types.{EchoConfig}
use nim_ffi.Echo.Enc.{enc_echo_create_ctor_req}
use nim_ffi.Binding.Reply.{World, CallBox, Delivery}
use nim_ffi.Binding.Call.{Answer, Called, Host}
use nim_ffi.Binding.Protocol.{Complete, Settled}
use nim_ffi.Binding.Exchange.{settle, Bounded}
use nim_ffi.Binding.Create.{create_trampoline, ctx_create}
use nim_ffi.Binding.Create.Made.{CtxLeft, create-Settled}

pub record EchoCtx : Type 0 where
  pub block : ℕ
  pub ptr : Option ℕ

unfoldable pub make_echo_ctx : (block addr : ℕ) → EchoCtx
make_echo_ctx block addr = record { block = block; ptr = if addr == 0 then none else some addr }

abbrev pub owned_echo_ctx : EchoCtx → Owned
owned_echo_ctx x = owned_ptr (some x.block)

unfoldable pub echo_create_trampoline :
    {V : Type 0}
    → Reader V
    → (List ℕ → ℕ × List ℕ)
    → CallBox
    → Delivery
    → World EchoCtx
    → World EchoCtx
unfolding create_trampoline
echo_create_trampoline c strtoull = create_trampoline c strtoull make_echo_ctx

unfoldable pub echo_ctx_create :
    {E V : Type 0}
    → Writer E
    → Reader V
    → (List ℕ → ℕ × List ℕ)
    → ℕ
    → Host
    → (ℕ → List ℕ → Answer)
    → EchoConfig
    → World EchoCtx
    → Option (Called EchoCtx)
unfolding ctx_create
echo_ctx_create wr c strtoull fuel host send config =
    ctx_create ⦃wr = wr⦄ (echo_create_trampoline c strtoull) host send fuel
      (enc_echo_create_ctor_req ⦃w = wr⦄ (record { config = config }))

-- `echo_ctx_destroy` of a context; `answer` is the library's code, asked for if there is a pointer.
unfoldable pub echo_ctx_destroy : (answer : ℕ) → EchoCtx → Heap → ℕ × Heap
echo_ctx_destroy answer x h = (elim x.ptr [ none ↦ 0 | some p ↦ answer ], free (some x.block) h)

module _ {E V : Type 0} (wr : Writer E) (c : Reader V) (strtoull : List ℕ → ℕ × List ℕ) (n fuel : ℕ)
    (enough : n < fuel) (host : Host) (fn : host.has_fn ≡ true) (send : ℕ → List ℕ → Answer)
    (later : List Delivery)
    (protocol : (b : ℕ) (bytes : List ℕ) → Complete ((send b bytes).fires ++ later)) where
  -- `echo_ctx_create` with a callback set, for a configuration that the encoder fits into `n` bytes
  -- (`n` at most half of the address space, more than `n` rounds of fuel), and a library that
  -- delivers pings and one terminal delivery, during the call or after it. Whatever fails on the
  -- way, the callback is called exactly once with its own `user_data`. If it gets a context,
  -- exactly that block is allocated afterwards beside those of before; if it gets an error, none
  -- is, but for the string that was read of a reply which fails to decode, an error -1. No block
  -- is freed twice.
  pub echo_ctx_create-Settled :
      (config : EchoConfig) (w : World EchoCtx)
      → Bounded wr (enc_echo_create_ctor_req ⦃w = wr⦄ (record { config = config })) n
      → Settled (CtxLeft c owned_echo_ctx) host w (
          settle
            (echo_create_trampoline c strtoull)
            later
            (echo_ctx_create wr c strtoull fuel host send config w))
  unfolding echo_create_trampoline echo_ctx_create make_echo_ctx
  echo_ctx_create-Settled config w bounded =
      create-Settled c strtoull make_echo_ctx owned_echo_ctx (λ b addr a. refl) host later fn w
        ⦃wr = wr⦄ send (enc_echo_create_ctor_req ⦃w = wr⦄ (record { config = config })) n fuel
        bounded enough protocol

-- A context, allocated and then destroyed, whatever the library answers, leaves no block behind.
echo_ctx_destroy-Gains :
    (answer : ℕ) (x : EchoCtx) {h g : Heap}
    → Gains (owned_echo_ctx x) h g
    → Gains (λ _. 0) h (echo_ctx_destroy answer x g).1
unfolding echo_ctx_destroy
echo_ctx_destroy-Gains answer x e = Gains-free (some x.block) e
