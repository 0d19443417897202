-- ===== src/Ffi/Pool/Steps.antt =====
-- What hosts and the FFI threads do to a pool, as a sequence.
use nim_ffi.Base.{ℕ, Bool, List, [], ◌∷◌}
use nim_ffi.Ffi.Pool.{
  FfiContextPool, RecycleFailure, create_ffi_context, recycle_ffi_context, recycle_context,
  reap_if_idle, destroy_ffi_context, static_ffi_context, destroy_static_ffi_context, change_slot,
}

-- A creation, a host that asks for a recycle, the FFI thread that does it, the idle slots' threads
-- stopped, and the full teardown of a slot; the static context created and destroyed.
pub data PoolStep : Type 0 where
  create : (starts : Bool) → PoolStep
  ask : (inside : Bool) (i : ℕ) → PoolStep
  recycle : (cause : RecycleFailure) (abandoned : Bool) (i : ℕ) → PoolStep
  reap : (inside : Bool) (stops : ℕ → Bool) → PoolStep
  destroy : (stops : Bool) (i : ℕ) → PoolStep
  create_static : (starts : Bool) → PoolStep
  destroy_static : (stops : Bool) → PoolStep

unfoldable pub pool_step : PoolStep → FfiContextPool → FfiContextPool
unfolding create_ffi_context recycle_ffi_context recycle_context reap_if_idle destroy_ffi_context
    static_ffi_context destroy_static_ffi_context change_slot
pool_step (create starts) pool = record pool { slots = (create_ffi_context starts pool.slots).1 }
pool_step (ask inside i) pool = recycle_ffi_context inside i pool
pool_step (recycle cause abandoned i) pool = change_slot i (recycle_context cause abandoned) pool
pool_step (reap inside stops) pool = reap_if_idle inside stops pool
pool_step (destroy stops i) pool = (destroy_ffi_context stops i pool).1
pool_step (create_static starts) pool = (static_ffi_context starts pool).1
pool_step (destroy_static stops) pool = (destroy_static_ffi_context stops pool).1

unfoldable pub pool_steps : List PoolStep → FfiContextPool → FfiContextPool
unfolding pool_step
pool_steps [] pool = pool
pool_steps (x ∷ xs) pool = pool_steps xs (pool_step x pool)
