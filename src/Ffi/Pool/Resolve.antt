-- ===== src/Ffi/Pool/Resolve.antt =====
-- Which tokens a pool resolves.
use nim_ffi.Base.{
  ℕ, ◌*◌, ◌^◌, ◌<◌, ◌≡◌, ◌≢◌, ◌↔◌, refl, true, none, some, Option-cases, inl, inr, List, length,
  arith, ◌==◌, ==_iff, ==_false, Bool-cases, ℕ_discrete,
}
use nim_ffi.Ffi.Token.{make_token, token_slot_and_generation, generation_limit, make_token-Names}
use nim_ffi.Ffi.Pool.{Slot, FfiContextPool, slot_at, resolve_ctx}
use nim_ffi.Ffi.Pool.Steps.{PoolStep, pool_steps}
use nim_ffi.Ffi.Pool.Growth.{steps-AllGrown}
use nim_ffi.Ffi.Pool.Grown.{Below, less-Below, at-AllGrown, at-Below}

-- A slot of the pool whose generation is the token's, which is not 0.
pub record Found (ss : List Slot) (token i : ℕ) : Type 0 where
  pub slot : Slot
  pub at : slot_at i ss ≡ some slot
  pub named : (token_slot_and_generation token).0 ≡ i
  pub current : slot.generation ≡ (token_slot_and_generation token).1
  pub issued : (token_slot_and_generation token).1 ≢ 0

module _ (ss : List Slot) (token : ℕ) where
  unissued : (token_slot_and_generation token).1 ≡ 0 → resolve_ctx ss token ≡ none
  unfolding resolve_ctx
  unissued e =
      let zero_generation : ((token_slot_and_generation token).1 == 0) ≡ true = (==_iff _ 0).1 e in
      rw zero_generation refl

  no_slot : slot_at (token_slot_and_generation token).0 ss ≡ none → resolve_ctx ss token ≡ none
  unfolding resolve_ctx
  no_slot e = elim (Bool-cases ((token_slot_and_generation token).1 == 0)) [
    | inl zero_generation ↦ rw zero_generation refl
    | inr issued ↦ rw (issued, e) refl
  ]

  other_claim :
      (s : Slot)
      → slot_at (token_slot_and_generation token).0 ss ≡ some s
      → s.generation ≢ (token_slot_and_generation token).1
      → resolve_ctx ss token ≡ none
  unfolding resolve_ctx
  other_claim s e differs = elim (Bool-cases ((token_slot_and_generation token).1 == 0)) [
    | inl zero_generation ↦ rw zero_generation refl
    | inr issued ↦ rw (issued, e, ==_false _ _ differs) refl
  ]

  same_claim :
      (s : Slot)
      → slot_at (token_slot_and_generation token).0 ss ≡ some s
      → s.generation ≡ (token_slot_and_generation token).1
      → (token_slot_and_generation token).1 ≢ 0
      → resolve_ctx ss token ≡ some (token_slot_and_generation token).0
  unfolding resolve_ctx
  same_claim s e same issued =
      rw (==_false _ 0 issued, e, (==_iff s.generation (token_slot_and_generation token).1).1 same)
        refl

  refused : (i : ℕ) → resolve_ctx ss token ≡ none → resolve_ctx ss token ≡ some i → Found ss token i
  refused i e f = cc (e, f)

  accepted :
      (i : ℕ) (s : Slot)
      → slot_at (token_slot_and_generation token).0 ss ≡ some s
      → s.generation ≡ (token_slot_and_generation token).1
      → (token_slot_and_generation token).1 ≢ 0
      → resolve_ctx ss token ≡ some i
      → Found ss token i
  accepted i s e same issued f =
      let named : (token_slot_and_generation token).0 ≡ i = cc (f, same_claim s e same issued) in
      record { slot = s; at = rw⁻¹ named e; named = named; current = same; issued = issued }

  found : (i : ℕ) → resolve_ctx ss token ≡ some i → Found ss token i
  found i f = elim (Option-cases (slot_at (token_slot_and_generation token).0 ss)) [
    | inl e ↦ refused i (no_slot e) f
    | inr (s, e) ↦ elim (ℕ_discrete s.generation (token_slot_and_generation token).1) [
      | no differs ↦ refused i (other_claim s e differs) f
      | yes same ↦ elim (ℕ_discrete (token_slot_and_generation token).1 0) [
        | yes zero_generation ↦ refused i (unissued zero_generation) f
        | no issued ↦ accepted i s e same issued f
      ]
    ]
  ]

  -- `resolveCtx` gives a context exactly if the slot in the token exists and has, now, the
  -- generation in the token, which is not 0. Whether that generation is odd, so that the slot is
  -- claimed, is not asked.
  pub resolve_ctx-Found : (i : ℕ) → (resolve_ctx ss token ≡ some i) ↔ Found ss token i
  resolve_ctx-Found i =
      (found i, λ f. rw⁻¹ (f.named) (same_claim f.slot (rw (f.named) f.at) f.current f.issued))

-- A token of an earlier claim of slot `i`, in a pool whose generations stay below 2^59 - 2^7 over
-- the steps: after any creations, recycles, stops of idle slots and teardowns, of the static
-- context also, with any outcomes, `resolveCtx` answers nil.
pub stale_token-Refused :
    (xs : List PoolStep) (pool : FfiContextPool) (i generation : ℕ) (s : Slot)
    → i < 32
    → slot_at i pool.slots ≡ some s
    → generation < s.generation
    → Below generation_limit (2 * length xs) pool.slots
    → resolve_ctx (pool_steps xs pool).slots (make_token i generation) ≡ none
stale_token-Refused xs pool i generation s small at older few =
    let at_start =
      at-AllGrown (2 * length xs) i pool.slots (pool_steps xs pool).slots s
        (steps-AllGrown xs pool
          (less-Below generation_limit (2 ^ 64) _ _ pool.slots (omega arith) (omega arith) few))
        at in
    let below = at-Below generation_limit (2 * length xs) i pool.slots s few at in
    let names = make_token-Names i generation small (omega (arith, below, older)) in
    other_claim (pool_steps xs pool).slots (make_token i generation) at_start.0
      (rw (names.slot_in) at_start.1)
      (λ e. omega (arith, e, names.generation_in, at_start.2.more, older))
