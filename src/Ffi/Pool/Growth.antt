-- ===== src/Ffi/Pool/Growth.antt =====
-- Generations only grow, by at most two a step.
use nim_ffi.Base.{
  ℕ, zero, suc, ◌+◌, ◌*◌, ◌%◌, ◌^◌, ◌<◌, ◌≡◌, refl, Bool, true, false, none, some, Option,
  Option-cases, inl, inr, List, [], ◌∷◌, length, arith, ◌==◌, if◌then◌else◌, Bool-cases,
}
use nim_ffi.Ffi.Pool.{
  has_live_from, park_idle_slot, park_idle_slots, reap_if_idle, Slot, RecycleFailure,
  FfiContextPool, slot_at, set_slot, try_claim, release_claim, release_slot, create_claimed,
  create_from, create_ffi_context, request_recycle, finish_recycle, recycle_context, change_slot,
  is_static_ctx, recycle_ffi_context, destroy_ffi_context, static_ffi_context,
  destroy_static_ffi_context,
}
use nim_ffi.Ffi.Pool.Steps.{
  PoolStep, create, ask, recycle, reap, destroy, create_static, destroy_static, pool_step,
  pool_steps,
}
use nim_ffi.Ffi.Pool.Grown.{
  Grown, AllGrown, Below, width, same-AllGrown, Below-AllGrown, less-Below, both-AllGrown,
}

create_claimed-Grown :
    (starts : Bool) (i : ℕ) (s : Slot)
    → s.generation + 2 < width
    → Grown 2 s (create_claimed starts i (record s { generation = (s.generation + 1) % 2 ^ 64 })).1
unfolding create_claimed release_claim
create_claimed-Grown starts i s small = record { more = ground arith; bound = ground arith }

create_from-AllGrown :
    (starts : Bool) (i : ℕ) (ss : List Slot)
    → Below width 2 ss
    → AllGrown 2 ss (create_from starts i ss).1
unfolding create_from try_claim
create_from-AllGrown starts i [] small = tt
create_from-AllGrown starts i (s ∷ ss) small = elim (Bool-cases (s.generation % 2 == 1)) [
  | inl busy ↦ rw busy (
    record { more = omega arith; bound = omega arith },
    create_from-AllGrown starts (suc i) ss small.1,
  )
  | inr free ↦ rw free (create_claimed-Grown starts i s small.0, same-AllGrown 2 ss)
]

recycle_context-Grown :
    (cause : RecycleFailure) (abandoned : Bool) (s : Slot)
    → s.generation + 2 < width
    → Grown 2 s (recycle_context cause abandoned s)
unfolding recycle_context finish_recycle release_claim
recycle_context-Grown cause abandoned s small = record { more = ground arith; bound = ground arith }

release_slot-Grown :
    (s t : Slot)
    → t.generation ≡ s.generation
    → s.generation + 2 < width
    → Grown 2 s (release_slot t)
unfolding release_slot release_claim
release_slot-Grown s t e small = record { more = omega (arith, e); bound = omega (arith, e) }

request_recycle-Grown : (s : Slot) → Grown 2 s (request_recycle s).1
unfolding request_recycle
request_recycle-Grown s = record { more = ground arith; bound = ground arith }

-- An operation on one slot.
set_slot-AllGrown :
    (f : Slot → Slot)
    → ((s : Slot) → s.generation + 2 < width → Grown 2 s (f s))
    → (i : ℕ) (ss : List Slot) (s : Slot) → slot_at i ss ≡ some s
    → Below width 2 ss
    → AllGrown 2 ss (set_slot i (f s) ss)
set_slot-AllGrown f grows i [] s e small = tt
set_slot-AllGrown f grows zero (t ∷ ss) s e small =
    let same : t ≡ s = cc e in (rw⁻¹ same (grows t small.0), same-AllGrown 2 ss)
set_slot-AllGrown f grows (suc i) (t ∷ ss) s e small =
    (record { more = omega arith; bound = omega arith }, set_slot-AllGrown f grows i ss s e small.1)

change_slot-AllGrown :
    (f : Slot → Slot)
    → ((s : Slot) → s.generation + 2 < width → Grown 2 s (f s))
    → (i : ℕ) (pool : FfiContextPool) → Below width 2 pool.slots
    → AllGrown 2 pool.slots (change_slot i f pool).slots
unfolding change_slot
change_slot-AllGrown f grows i pool small = elim (Option-cases (slot_at i pool.slots)) [
  | inl e ↦ rw (change_slot, e) (same-AllGrown 2 pool.slots)
  | inr (s, e) ↦ rw (change_slot, e) (set_slot-AllGrown f grows i pool.slots s e small)
]

ask-AllGrown :
    (inside : Bool) (i : ℕ) (pool : FfiContextPool)
    → Below width 2 pool.slots
    → AllGrown 2 pool.slots (recycle_ffi_context inside i pool).slots
unfolding recycle_ffi_context
ask-AllGrown inside i pool small = elim (Bool-cases (is_static_ctx pool i)) [
  | inl own ↦ rw own (same-AllGrown 2 pool.slots)
  | inr other ↦ rw other (go inside)
]
  where
    go :
        (b : Bool)
        → AllGrown 2 pool.slots
            (if b then pool else change_slot i (λ s. (request_recycle s).1) pool).slots
    go true = same-AllGrown 2 pool.slots
    go false = change_slot-AllGrown _ (λ s less. request_recycle-Grown s) i pool small

destroy-AllGrown :
    (stops : Bool) (i : ℕ) (pool : FfiContextPool)
    → Below width 2 pool.slots
    → AllGrown 2 pool.slots (destroy_ffi_context stops i pool).1.slots
unfolding destroy_ffi_context
destroy-AllGrown stops i pool small = elim (Bool-cases (is_static_ctx pool i)) [
  | inl own ↦ rw own (same-AllGrown 2 pool.slots)
  | inr other ↦ rw other (elim (Bool-cases stops) [
    | inl yes_stops ↦ rw yes_stops (
        change_slot-AllGrown _
          (λ s less.
            release_slot-Grown s (record s { threads_up = false; initialized = false }) refl less)
          i pool small)
    | inr no_stops ↦ rw no_stops (same-AllGrown 2 pool.slots)
  ])
]

park_idle_slot-Grown :
    (stops : Bool) (s : Slot) → s.generation + 2 < width → Grown 2 s (park_idle_slot stops s)
unfolding park_idle_slot try_claim release_claim
park_idle_slot-Grown stops s small = record { more = ground arith; bound = ground arith }

park_idle_slots-AllGrown :
    (stops : ℕ → Bool) (i : ℕ) (ss : List Slot)
    → Below width 2 ss
    → AllGrown 2 ss (park_idle_slots stops i ss)
unfolding park_idle_slots
park_idle_slots-AllGrown stops i [] small = tt
park_idle_slots-AllGrown stops i (s ∷ ss) small =
    (park_idle_slot-Grown (stops i) s small.0, park_idle_slots-AllGrown stops (suc i) ss small.1)

reap-AllGrown :
    (inside : Bool) (stops : ℕ → Bool) (pool : FfiContextPool)
    → Below width 2 pool.slots
    → AllGrown 2 pool.slots (reap_if_idle inside stops pool).slots
unfolding reap_if_idle
reap-AllGrown true stops pool small = same-AllGrown 2 pool.slots
reap-AllGrown false stops pool small =
    elim (Bool-cases (has_live_from pool.static_ctx 0 pool.slots)) [
      | inl live ↦ rw live (same-AllGrown 2 pool.slots)
      | inr idle ↦ rw idle (park_idle_slots-AllGrown stops 0 pool.slots small)
    ]

create_static-AllGrown :
    (starts : Bool) (ss : List Slot) (owner : Option ℕ)
    → Below width 2 ss
    → AllGrown 2 ss (static_ffi_context starts (record { slots = ss; static_ctx = owner })).1.slots
unfolding static_ffi_context create_ffi_context
create_static-AllGrown starts ss (some i) small = same-AllGrown 2 ss
create_static-AllGrown starts ss none small = create_from-AllGrown starts 0 ss small

destroy_static-AllGrown :
    (stops : Bool) (ss : List Slot) (owner : Option ℕ)
    → Below width 2 ss
    → AllGrown 2 ss
        (destroy_static_ffi_context stops (record { slots = ss; static_ctx = owner })).1.slots
unfolding destroy_static_ffi_context
destroy_static-AllGrown stops ss none small = same-AllGrown 2 ss
destroy_static-AllGrown false ss (some i) small = same-AllGrown 2 ss
destroy_static-AllGrown true ss (some i) small =
    change_slot-AllGrown _
      (λ s less. release_slot-Grown s (record s { threads_up = false }) refl less) i
      (record { slots = ss; static_ctx = none }) small

step-AllGrown :
    (x : PoolStep) (pool : FfiContextPool)
    → Below width 2 pool.slots
    → AllGrown 2 pool.slots (pool_step x pool).slots
unfolding pool_step create_ffi_context
step-AllGrown (create starts) pool small = create_from-AllGrown starts 0 pool.slots small
step-AllGrown (ask inside i) pool small = ask-AllGrown inside i pool small
step-AllGrown (recycle cause abandoned i) pool small =
    change_slot-AllGrown _ (recycle_context-Grown cause abandoned) i pool small
step-AllGrown (reap inside stops) pool small = reap-AllGrown inside stops pool small
step-AllGrown (destroy stops i) pool small = destroy-AllGrown stops i pool small
step-AllGrown (create_static starts) pool small =
    create_static-AllGrown starts pool.slots pool.static_ctx small
step-AllGrown (destroy_static stops) pool small =
    destroy_static-AllGrown stops pool.slots pool.static_ctx small

pub steps-AllGrown :
    (xs : List PoolStep) (pool : FfiContextPool)
    → Below width (2 * length xs) pool.slots
    → AllGrown (2 * length xs) pool.slots (pool_steps xs pool).slots
unfolding pool_steps
steps-AllGrown [] pool small = same-AllGrown 0 pool.slots
steps-AllGrown (x ∷ xs) pool small =
    let n = 2 * length xs in
    let two : 2 * suc (length xs) ≡ 2 + n = omega arith in
    let start =
      less-Below width width (2 * suc (length xs)) 2 pool.slots (omega arith) (omega arith) small in
    let all =
      less-Below width width (2 * suc (length xs)) (2 + n) pool.slots (omega arith) (omega arith)
        small in
    let one = step-AllGrown x pool start in
    rw two (
      both-AllGrown 2 n pool.slots (pool_step x pool).slots _ one (
        steps-AllGrown xs (pool_step x pool)
          (Below-AllGrown width 2 n pool.slots (pool_step x pool).slots one all)))
