-- ===== src/Ffi/Token.antt =====
-- The handles that a host holds for its contexts, ffi/ffi_context_pool.nim: `makeToken` and
-- `tokenSlotAndGeneration`. A `uint` has 64 bits.
use nim_ffi.Base.{ℕ, ◌+◌, ◌-◌, ◌*◌, ◌/◌, ◌%◌, ◌^◌, ◌≤◌, ◌<◌, ◌≡◌, arith, ltb, if◌then◌else◌}

abbrev pub slot_bits : ℕ
slot_bits = 5

abbrev pub token_base : ℕ
token_base = 2 ^ 12

-- TokenBase + (generation << SlotBits) + slot.
unfoldable pub make_token : (slot generation : ℕ) → ℕ
make_token slot generation =
    ((token_base + generation * 2 ^ slot_bits % 2 ^ 64) % 2 ^ 64 + slot % 2 ^ slot_bits) % 2 ^ 64

unfoldable pub token_slot_and_generation : (raw : ℕ) → ℕ × ℕ
token_slot_and_generation raw =
    if ltb raw token_base
    then (0, 0)
    else (let packed = raw - token_base in (packed % 2 ^ slot_bits, packed / 2 ^ slot_bits))

unfoldable pub token_generation : (raw : ℕ) → ℕ
unfolding token_slot_and_generation
token_generation raw = (token_slot_and_generation raw).1

-- The generations of which a token holds every bit.
abbrev pub generation_limit : ℕ
generation_limit = 2 ^ 59 - 2 ^ 7

-- A token that is a pointer of no interest, and the slot and the generation in it.
pub record Names (slot generation raw : ℕ) : Type 0 where
  pub clear : token_base ≤ raw
  pub width : raw < 2 ^ 64
  pub slot_in : (token_slot_and_generation raw).0 ≡ slot
  pub generation_in : (token_slot_and_generation raw).1 ≡ generation

packed_token :
    (slot generation : ℕ)
    → slot < 32
    → generation < generation_limit
    → make_token slot generation ≡ 4096 + (generation * 32 + slot)
unfolding make_token
packed_token slot generation small few = omega arith

-- A token for one of 32 slots and a generation below 2^59 - 2^7 is at least 4096, has 64
-- bits, and `tokenSlotAndGeneration` gives back exactly that slot and that generation.
pub make_token-Names :
    (slot generation : ℕ)
    → slot < 32
    → generation < generation_limit
    → Names slot generation (make_token slot generation)
unfolding token_slot_and_generation
make_token-Names slot generation small few = rw (packed_token slot generation small few) (record {
  clear = omega arith;
  width = omega arith;
  slot_in = ground arith;
  generation_in = ground arith;
})
