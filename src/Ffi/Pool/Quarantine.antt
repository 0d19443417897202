-- ===== src/Ffi/Pool/Quarantine.antt =====
-- A slot that a failed recycle took out of service.
use nim_ffi.Base.{
  ◌∙◌, ℕ, zero, suc, ◌%◌, ◌≡◌, ◌≢◌, refl, ap, Bool, true, false, none, some, Option, Option-cases,
  inl, inr, List, [], ◌∷◌, arith, ◌==◌, Bool-cases,
}
use nim_ffi.Ffi.Pool.{
  has_live_from, park_idle_slot, park_idle_slots, reap_if_idle, Slot, recycle_failed,
  RecycleFailure, FfiContextPool, slot_at, set_slot, is_in_use, try_claim, create_from,
  create_ffi_context, request_recycle, recycle_context, change_slot, is_static_ctx,
  recycle_ffi_context, destroy_ffi_context, static_ffi_context, destroy_static_ffi_context, Created,
  created, start_failed, init_failed, exhausted,
}
use nim_ffi.Ffi.Pool.Create.{Ends, create_ffi_context-Ends}
use nim_ffi.Ffi.Pool.Steps.{
  PoolStep, create, ask, recycle, reap, destroy, create_static, destroy_static, pool_step,
  pool_steps,
}

-- A slot that is claimed and whose lifecycle is `RecycleFailed`.
pub record Quarantined (s : Slot) : Type 0 where
  pub claimed : is_in_use s ≡ true
  pub failed : s.lifecycle ≡ recycle_failed

-- No step tears the slot down.
abbrev pub Spares : ℕ → List PoolStep → Type 0
Spares i [] = Unit {0}
Spares i (destroy stops k ∷ xs) = (k ≢ i) × Spares i xs
Spares i (_ ∷ xs) = Spares i xs

-- The slot is in the pool as it was, and is not the static context's.
pub record Kept (i : ℕ) (s : Slot) (pool : FfiContextPool) : Type 0 where
  pub at : slot_at i pool.slots ≡ some s
  pub owned : pool.static_ctx ≢ some i

create_from-keeps :
    (starts : Bool) (k i : ℕ) (ss : List Slot) (s : Slot)
    → is_in_use s ≡ true
    → slot_at i ss ≡ some s
    → slot_at i (create_from starts k ss).1 ≡ some s
unfolding create_from try_claim is_in_use
create_from-keeps starts k i [] s used e = cc e
create_from-keeps starts k zero (t ∷ ss) s used e =
    let same : t ≡ s = cc e in let busy : (t.generation % 2 == 1) ≡ true = rw same used in rw busy e
create_from-keeps starts k (suc i) (t ∷ ss) s used e = elim (Bool-cases (t.generation % 2 == 1)) [
  | inl busy ↦ rw busy (create_from-keeps starts (suc k) i ss s used e)
  | inr free ↦ rw free e
]

set_slot-keeps :
    (f : Slot → Slot) (i k : ℕ) (ss : List Slot) (s u : Slot)
    → (k ≡ i → f s ≡ s)
    → slot_at i ss ≡ some s
    → slot_at k ss ≡ some u
    → slot_at i (set_slot k (f u) ss) ≡ some s
set_slot-keeps f i k [] s u fixed e d = cc e
set_slot-keeps f zero zero (t ∷ ss) s u fixed e d =
    let same : u ≡ s = cc (e, d) in cc (same, fixed refl)
set_slot-keeps f zero (suc k) (t ∷ ss) s u fixed e d = e
set_slot-keeps f (suc i) zero (t ∷ ss) s u fixed e d = e
set_slot-keeps f (suc i) (suc k) (t ∷ ss) s u fixed e d =
    set_slot-keeps f i k ss s u (λ same. fixed (ap suc same)) e d

change_slot-Kept :
    (f : Slot → Slot) (i k : ℕ) (s : Slot) (pool : FfiContextPool)
    → (k ≡ i → f s ≡ s)
    → Kept i s pool
    → Kept i s (change_slot k f pool)
unfolding change_slot
change_slot-Kept f i k s pool fixed kept = elim (Option-cases (slot_at k pool.slots)) [
  | inl e ↦ rw (change_slot, e) kept
  | inr (u, e) ↦
      rw (change_slot, e)
        (record { at = set_slot-keeps f i k pool.slots s u fixed kept.at e; owned = kept.owned })
]

request_recycle-fixed : (s : Slot) → s.lifecycle ≡ recycle_failed → (request_recycle s).1 ≡ s
unfolding request_recycle
request_recycle-fixed s e = simp (request_recycle, e) refl

recycle_context-fixed :
    (cause : RecycleFailure) (abandoned : Bool) (s : Slot)
    → s.lifecycle ≡ recycle_failed
    → recycle_context cause abandoned s ≡ s
unfolding recycle_context
recycle_context-fixed cause abandoned s e = simp (recycle_context, e) refl

not_handed :
    (i : ℕ) (s : Slot)
    → Quarantined s
    → (ss : List Slot) (o : Created) (ts : List Slot) → Ends 0 ss o ts
    → slot_at i ss ≡ some s
    → (elim o as (λ _. Option ℕ) [ created k ↦ some k | _ ↦ none ]) ≢ some i
not_handed i s q ss (created k) ts ends at e =
    let here : ends.index ≡ i = omega (arith, ends.place, some_same e) in
    let old : slot_at i ss ≡ some ends.old = rw⁻¹ here ends.at in cc (old, at, ends.free, q.claimed)
  where
    some_same : some k ≡ some i → k ≡ i
    some_same d = cc d
not_handed i s q ss start_failed ts ends at e = cc e
not_handed i s q ss init_failed ts ends at e = cc e
not_handed i s q ss exhausted ts ends at e = cc e

park_idle_slot-keeps : (stops : Bool) (s : Slot) → is_in_use s ≡ true → park_idle_slot stops s ≡ s
unfolding park_idle_slot try_claim is_in_use
park_idle_slot-keeps stops s used = elim (Bool-cases s.threads_up) [
  | inl up ↦ rw (up, used) refl
  | inr down ↦ rw down refl
]

park_idle_slots-keeps :
    (stops : ℕ → Bool) (k i : ℕ) (ss : List Slot) (s : Slot)
    → is_in_use s ≡ true
    → slot_at i ss ≡ some s
    → slot_at i (park_idle_slots stops k ss) ≡ some s
unfolding park_idle_slots
park_idle_slots-keeps stops k i [] s used e = cc e
park_idle_slots-keeps stops k zero (t ∷ ss) s used e =
    let same : t ≡ s = cc e in
    ap some (ap (park_idle_slot (stops k)) same ∙ park_idle_slot-keeps (stops k) s used)
park_idle_slots-keeps stops k (suc i) (t ∷ ss) s used e =
    park_idle_slots-keeps stops (suc k) i ss s used e

module _ (i : ℕ) (s : Slot) (q : Quarantined s) where
  reap-Kept :
      (inside : Bool) (stops : ℕ → Bool) (pool : FfiContextPool)
      → Kept i s pool
      → Kept i s (reap_if_idle inside stops pool)
  unfolding reap_if_idle
  reap-Kept true stops pool kept = kept
  reap-Kept false stops pool kept = elim (Bool-cases (has_live_from pool.static_ctx 0 pool.slots)) [
    | inl live ↦ rw live kept
    | inr idle ↦ rw idle (record {
      at = park_idle_slots-keeps stops 0 i pool.slots s q.claimed kept.at;
      owned = kept.owned;
    })
  ]

  ask-Kept :
      (inside : Bool) (k : ℕ) (pool : FfiContextPool)
      → Kept i s pool
      → Kept i s (recycle_ffi_context inside k pool)
  unfolding recycle_ffi_context
  ask-Kept inside k pool kept = elim (Bool-cases (is_static_ctx pool k)) [
    | inl own ↦ rw own kept
    | inr other ↦ rw other (elim (Bool-cases inside) [
      | inl here ↦ rw here kept
      | inr host ↦
          rw host (change_slot-Kept _ i k s pool (λ same. request_recycle-fixed s q.failed) kept)
    ])
  ]

  destroy-Kept :
      (stops : Bool) (k : ℕ) (pool : FfiContextPool)
      → k ≢ i
      → Kept i s pool
      → Kept i s (destroy_ffi_context stops k pool).1
  unfolding destroy_ffi_context
  destroy-Kept stops k pool apart kept = elim (Bool-cases (is_static_ctx pool k)) [
    | inl own ↦ rw own kept
    | inr other ↦ rw other (elim (Bool-cases stops) [
      | inl yes_stops ↦
          rw yes_stops (change_slot-Kept _ i k s pool (λ same. absurd (apart same)) kept)
      | inr no_stops ↦ rw no_stops kept
    ])
  ]

  create_static-Kept :
      (starts : Bool) (ss : List Slot) (owner : Option ℕ)
      → Kept i s (record { slots = ss; static_ctx = owner })
      → Kept i s (static_ffi_context starts (record { slots = ss; static_ctx = owner })).1
  unfolding static_ffi_context create_ffi_context
  create_static-Kept starts ss (some k) kept = kept
  create_static-Kept starts ss none kept = record {
    at = create_from-keeps starts 0 i ss s q.claimed kept.at;
    owned =
        not_handed i s q ss (create_from starts 0 ss).0 (create_from starts 0 ss).1
          (create_ffi_context-Ends starts ss) kept.at;
  }

  destroy_static-Kept :
      (stops : Bool) (ss : List Slot) (owner : Option ℕ)
      → Kept i s (record { slots = ss; static_ctx = owner })
      → Kept i s (destroy_static_ffi_context stops (record { slots = ss; static_ctx = owner })).1
  unfolding destroy_static_ffi_context
  destroy_static-Kept stops ss none kept = kept
  destroy_static-Kept false ss (some k) kept = kept
  destroy_static-Kept true ss (some k) kept =
      change_slot-Kept _ i k s (record { slots = ss; static_ctx = none })
        (λ same. absurd (kept.owned (ap some same))) (record { at = kept.at; owned = λ e. cc e })

  step-Kept :
      (x : PoolStep) (xs : List PoolStep) (pool : FfiContextPool)
      → Spares i (x ∷ xs)
      → Kept i s pool
      → Kept i s (pool_step x pool) × Spares i xs
  unfolding pool_step create_ffi_context
  step-Kept (create starts) xs pool spares kept = (
    record { at = create_from-keeps starts 0 i pool.slots s q.claimed kept.at; owned = kept.owned },
    spares,
  )
  step-Kept (ask inside k) xs pool spares kept = (ask-Kept inside k pool kept, spares)
  step-Kept (recycle cause abandoned k) xs pool spares kept = (
    change_slot-Kept _ i k s pool (λ same. recycle_context-fixed cause abandoned s q.failed) kept,
    spares,
  )
  step-Kept (reap inside stops) xs pool spares kept = (reap-Kept inside stops pool kept, spares)
  step-Kept (destroy stops k) xs pool spares kept =
      (destroy-Kept stops k pool spares.0 kept, spares.1)
  step-Kept (create_static starts) xs pool spares kept =
      (create_static-Kept starts pool.slots pool.static_ctx kept, spares)
  step-Kept (destroy_static stops) xs pool spares kept =
      (destroy_static-Kept stops pool.slots pool.static_ctx kept, spares)

-- A slot that is claimed with the lifecycle `RecycleFailed` and is not the static context's stays
-- exactly as it is over any steps but a full teardown of it: no creation hands it out, and no
-- recycle releases it.
pub spared-Kept :
    (xs : List PoolStep) (i : ℕ) (s : Slot) (pool : FfiContextPool)
    → Quarantined s
    → Spares i xs
    → Kept i s pool
    → Kept i s (pool_steps xs pool)
unfolding pool_steps
spared-Kept [] i s pool q spares kept = kept
spared-Kept (x ∷ xs) i s pool q spares kept =
    let (now, others) = step-Kept i s q x xs pool spares kept in
    spared-Kept xs i s (pool_step x pool) q others now
