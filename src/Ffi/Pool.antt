-- ===== src/Ffi/Pool.antt =====
-- The fixed pool of contexts, ffi/ffi_context_pool.nim, with the claim of a context from
-- ffi/ffi_context.nim: a context is claimed while its generation is odd. The record of a slot has
-- the context's fields of the claim and the pool's entries for it. Starting and joining threads is
-- the operating system's: a call is given whether each of its attempts succeeds.
pub mod Steps
pub mod Grown
pub mod Growth
pub mod Resolve
pub mod Create
pub mod Quarantine
pub mod Race
use nim_ffi.Base.{
  ℕ, zero, suc, ◌+◌, ◌%◌, ◌^◌, ◌<◌, Bool, true, false, not, ◌&&◌, ◌||◌, none, some, Option, List,
  [], ◌∷◌, ◌==◌, length, if◌then◌else◌,
}
use nim_ffi.Ffi.Token.{make_token, token_slot_and_generation}

abbrev pub max_ffi_contexts : ℕ
max_ffi_contexts = 32

pub data CtxLifecycle : Type 0 where
  active : CtxLifecycle
  recycle_pending : CtxLifecycle
  recycling : CtxLifecycle
  recycle_failed : CtxLifecycle

pub data RecycleFailure : Type 0 where
  no_failure : RecycleFailure
  drain_timeout : RecycleFailure
  teardown_timeout : RecycleFailure
  teardown_raised : RecycleFailure
  caller_abandoned : RecycleFailure

pub record Slot : Type 0 where
  pub generation : ℕ
  pub token : ℕ
  pub lifecycle : CtxLifecycle
  pub recycle_failure : RecycleFailure
  pub initialized : Bool
  pub threads_up : Bool

abbrev pub slot_at : ℕ → List Slot → Option Slot
slot_at i [] = none
slot_at zero (s ∷ ss) = some s
slot_at (suc i) (s ∷ ss) = slot_at i ss

abbrev pub set_slot : ℕ → Slot → List Slot → List Slot
set_slot i s [] = []
set_slot zero s (old ∷ ss) = s ∷ ss
set_slot (suc i) s (old ∷ ss) = old ∷ set_slot i s ss

unfoldable pub is_in_use : Slot → Bool
is_in_use s = s.generation % 2 == 1

-- `tryClaim`, where no other thread comes between the load and the exchange.
unfoldable pub try_claim : Slot → Bool × Slot
try_claim s =
    if s.generation % 2 == 1
    then (false, s)
    else (true, record s { generation = (s.generation + 1) % 2 ^ 64 })

unfoldable pub release_claim : Slot → Slot
release_claim s = record s { generation = (s.generation + 1) % 2 ^ 64 }

unfoldable pub release_slot : Slot → Slot
unfolding release_claim
release_slot s = release_claim (record s { lifecycle = active; recycle_failure = no_failure })

unfoldable pub mark_as_active : Slot → Slot
mark_as_active s = record s { lifecycle = active }

pub data Created : Type 0 where
  created : (slot : ℕ) → Created
  start_failed : Created
  init_failed : Created
  exhausted : Created

-- The body of the loop of `createFFIContext` behind `tryClaim`; `starts` is whether the resources
-- and the threads that it asks for can be had.
unfoldable pub create_claimed : (starts : Bool) → ℕ → Slot → Created × Slot
unfolding make_token mark_as_active release_claim
create_claimed starts i s =
    let named = record s { token = make_token i s.generation } in
    if named.initialized
    then (let served = mark_as_active named in
        if served.threads_up
        then (created i, served)
        else if starts
        then (created i, record served { threads_up = true })
        else (start_failed, release_claim served))
    else (let fresh = record named { lifecycle = active; recycle_failure = no_failure } in
        if starts
        then (created i, record fresh { initialized = true; threads_up = true })
        else (init_failed, release_claim fresh))

-- The loop, over the slots from `i` on.
unfoldable pub create_from : (starts : Bool) → ℕ → List Slot → Created × List Slot
unfolding try_claim create_claimed
create_from starts i [] = (exhausted, [])
create_from starts i (s ∷ ss) =
    let rest = create_from starts (suc i) ss in
    let (claimed, s') = try_claim s in
    if claimed
    then (let (outcome, s'') = create_claimed starts i s' in (outcome, s'' ∷ ss))
    else (rest.0, s ∷ rest.1)

unfoldable pub create_ffi_context : (starts : Bool) → List Slot → Created × List Slot
unfolding create_from
create_ffi_context starts = create_from starts 0

-- The exchange of `requestRecycle`; whether it is the one that asks.
unfoldable pub request_recycle : Slot → Bool × Slot
request_recycle s = elim s.lifecycle as (λ _. Bool × Slot) [
  | active ↦ (true, record s { lifecycle = recycle_pending })
  | _ ↦ (false, s)
]

-- `finishRecycle`; `abandoned` is whether the caller's wait expired.
unfoldable pub finish_recycle : RecycleFailure → (abandoned : Bool) → Slot → Slot
unfolding release_claim
finish_recycle no_failure abandoned s =
    if abandoned
    then record s { lifecycle = recycle_failed; recycle_failure = caller_abandoned }
    else release_claim s
finish_recycle cause abandoned s = record s { lifecycle = recycle_failed; recycle_failure = cause }

-- The FFI thread, when it finds a recycle asked for: `cause` is how draining and teardown ended.
unfoldable pub recycle_context : RecycleFailure → (abandoned : Bool) → Slot → Slot
unfolding finish_recycle
recycle_context cause abandoned s = elim s.lifecycle as (λ _. Slot) [
  | recycle_pending ↦ finish_recycle cause abandoned (record s { lifecycle = recycling })
  | _ ↦ s
]

-- The slots, and the slot of the `{.ffiStatic.}` context, which is one of them. Its state is `StaticCtxReady` if there is
-- one and `StaticCtxNone` if not; the two states between them last no longer than one call.
pub record FfiContextPool : Type 0 where
  pub slots : List Slot
  pub static_ctx : Option ℕ

unfoldable pub is_static_ctx : FfiContextPool → ℕ → Bool
is_static_ctx pool i = elim pool.static_ctx as (λ _. Bool) [ none ↦ false | some k ↦ k == i ]

unfoldable pub change_slot : ℕ → (Slot → Slot) → FfiContextPool → FfiContextPool
change_slot i f pool = elim (slot_at i pool.slots) as (λ _. FfiContextPool) [
  | none ↦ pool
  | some s ↦ record pool { slots = set_slot i (f s) pool.slots }
]

-- `destroyFFIContext` of a slot; `stops` is whether its threads exit in time.
unfoldable pub destroy_ffi_context : (stops : Bool) → ℕ → FfiContextPool → Bool × FfiContextPool
unfolding is_static_ctx change_slot release_slot
destroy_ffi_context stops i pool =
    if is_static_ctx pool i then (false, pool) else if not stops then (false, pool) else (
      true,
      change_slot i (λ s. release_slot (record s { threads_up = false; initialized = false })) pool,
    )

-- `recycleFFIContext` of a slot, up to the wait for the FFI thread; `inside` is whether the caller
-- is one of the context's own threads.
unfoldable pub recycle_ffi_context : (inside : Bool) → ℕ → FfiContextPool → FfiContextPool
unfolding is_static_ctx change_slot request_recycle
recycle_ffi_context inside i pool =
    if is_static_ctx pool i
    then pool
    else if inside
    then pool
    else change_slot i (λ s. (request_recycle s).1) pool

-- `hasLiveContext`, over the slots from `i` on: one is in use, is not the static context's, and is
-- not quarantined.
unfoldable pub has_live_from : (static_ctx : Option ℕ) → ℕ → List Slot → Bool
unfolding is_in_use
has_live_from static_ctx i [] = false
has_live_from static_ctx i (s ∷ ss) =
    let is_static = elim static_ctx as (λ _. Bool) [ none ↦ false | some k ↦ k == i ] in
    let failed = elim s.lifecycle as (λ _. Bool) [ recycle_failed ↦ true | _ ↦ false ] in
    (is_in_use s && not is_static && not failed) || has_live_from static_ctx (suc i) ss

-- The body of the loop of `parkIdleSlots`: a slot whose threads do not stop keeps the claim.
unfoldable pub park_idle_slot : (stops : Bool) → Slot → Slot
unfolding try_claim release_claim
park_idle_slot stops s =
    if not s.threads_up
    then s
    else (let (claimed, s') = try_claim s in
        if not claimed
        then s
        else if stops
        then release_claim (record s' { threads_up = false })
        else s')

unfoldable pub park_idle_slots : (stops : ℕ → Bool) → ℕ → List Slot → List Slot
unfolding park_idle_slot
park_idle_slots stops i [] = []
park_idle_slots stops i (s ∷ ss) = park_idle_slot (stops i) s ∷ park_idle_slots stops (suc i) ss

-- `reapIfIdle`; `inside` is whether the caller is one of the library's own threads.
unfoldable pub reap_if_idle : (inside : Bool) (stops : ℕ → Bool) → FfiContextPool → FfiContextPool
unfolding has_live_from park_idle_slots
reap_if_idle inside stops pool =
    if inside
    then pool
    else if has_live_from pool.static_ctx 0 pool.slots
    then pool
    else record pool { slots = park_idle_slots stops 0 pool.slots }

unfoldable pub static_ffi_context : (starts : Bool) → FfiContextPool → Created × FfiContextPool
unfolding create_ffi_context
static_ffi_context starts pool = elim pool.static_ctx as (λ _. Created × FfiContextPool) [
  | some i ↦ (created i, pool)
  | none ↦
      let (outcome, ss) = create_ffi_context starts pool.slots in
      (
        outcome,
        record {
          slots = ss;
          static_ctx = elim outcome as (λ _. Option ℕ) [ created i ↦ some i | _ ↦ none ];
        },
      )
]

unfoldable pub destroy_static_ffi_context : (stops : Bool) → FfiContextPool → Bool × FfiContextPool
unfolding change_slot release_slot
destroy_static_ffi_context stops pool = elim pool.static_ctx as (λ _. Bool × FfiContextPool) [
  | none ↦ (true, pool)
  | some i ↦ if not stops then (false, pool) else (
    true,
    change_slot i (λ s. release_slot (record s { threads_up = false }))
        (record pool { static_ctx = none }),
  )
]

-- `none` is nil.
unfoldable pub resolve_ctx : List Slot → (token : ℕ) → Option ℕ
unfolding token_slot_and_generation
resolve_ctx ss token =
    let (slot, generation) = token_slot_and_generation token in
    if generation == 0 then none else (elim (slot_at slot ss) as (λ _. Option ℕ) [
      | none ↦ none
      | some s ↦ if s.generation == generation then some slot else none
    ])

unfoldable pub is_valid_ctx : List Slot → (token : ℕ) → Bool
unfolding resolve_ctx
is_valid_ctx ss token = elim (resolve_ctx ss token) as (λ _. Bool) [ none ↦ false | some i ↦ true ]
