-- ===== src/Timer/Tests/Contexts.antt =====
-- A context created by the library's reply, and the listeners of one until it is destroyed.
use nim_ffi.Base.{
  ℕ, ◌+◌, ◌*◌, ◌-◌, ◌&&◌, leb, if◌then◌else◌, ◌≤◌, ◌^◌, refl, List, [], ◌∷◌, codes, inl, inr, arith,
}
use nim_ffi.Tinycbor.Model.{sink}
use nim_ffi.Tinycbor.Model.Source.{item_reader}
use nim_ffi.Cbor.Emits.{item_str}
use nim_ffi.Cbor.Values.{chars}
use nim_ffi.Heap.{malloc}
use nim_ffi.Heap.Laws.{Gains, malloc-Gains}
use nim_ffi.Binding.Call.{Answer}
use nim_ffi.Binding.Protocol.{Settled}
use nim_ffi.Binding.Exchange.{settle}
use nim_ffi.Binding.Create.Made.{CtxLeft}
use nim_ffi.Timer.Types.{TimerConfig}
use nim_ffi.Timer.Context.{ctx_destroy}
use nim_ffi.Timer.Context.Account.{owned_ctx}
use nim_ffi.Timer.Context.Lifetime.{CtxOp, add, remove, run_ops, lifetime-Balances}
use nim_ffi.Timer.Create.{make_ctx, timer_create_trampoline, timer_ctx_create, create_ctx-Settled}
use nim_ffi.Timer.Tests.Encodes.{create_req-runs}
use nim_ffi.Timer.Tests.Data.{roomy, empty_heap, tight_heap, host, hello, world, ping, reply_of}

abbrev config : TimerConfig
config = record { name = hello }

-- The decimal digits at the head of a string, most significant first, without a bound.
pub digits_from : ℕ → List ℕ → ℕ × List ℕ
digits_from n [] = (n, [])
digits_from n (c ∷ cs) =
    let rest = digits_from (n * 10 + (c - 48)) cs in
    if leb 48 c && leb c 57 then rest else (n, c ∷ cs)

abbrev pub digits : List ℕ → ℕ × List ℕ
digits = digits_from 0

-- A ping and the address.
abbrev address_now : ℕ → List ℕ → Answer
address_now b bytes = record {
  fires = ping ∷ reply_of (item_str (chars 700 (codes "4160"))) ∷ [];
  ret = 9;
}

small : 400 + 400 ≤ 2 ^ 64
small = omega arith

create_ctx-Settled_example : Settled (CtxLeft item_reader owned_ctx) host (world empty_heap) (
    settle
      (timer_create_trampoline item_reader digits)
      []
      (timer_ctx_create roomy item_reader digits 401 host address_now config (world empty_heap)))
unfolding roomy sink
create_ctx-Settled_example =
    create_ctx-Settled roomy item_reader digits 400 401 (omega arith) host refl address_now []
      (λ b bytes. inl (refl, inr (λ e. absurd (omega (arith, e)), refl))) config (world empty_heap)
      (record {
        small = small;
        fits = λ room enough e. cc (e, create_req-runs room);
        hint = λ room. omega arith;
      })

-- Two listeners, the first removed, in a heap where the third allocation fails.
abbrev some_ops : List CtxOp
some_ops = add (λ b. 5) ∷ add (λ b. 6) ∷ remove 0 5 ∷ []

lifetime-Balances_example :
    let s = run_ops some_ops (make_ctx 0 4160, (malloc tight_heap).1) in
    Gains (λ _. 0) tight_heap (ctx_destroy 0 s.0 s.1).1
unfolding make_ctx malloc
lifetime-Balances_example =
    lifetime-Balances 0 4160 some_ops tight_heap (malloc tight_heap).1 (omega arith) (record {
      live = λ a. omega (arith, (malloc-Gains tight_heap).live a);
      bad = (malloc-Gains tight_heap).bad;
    })
