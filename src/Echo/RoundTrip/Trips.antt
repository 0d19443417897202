-- ===== src/Echo/RoundTrip/Trips.antt =====
-- Each message of the header: encoded into a buffer and decoded from it.
use nim_ffi.Base.{ℕ, ◌<◌, Bool}
use nim_ffi.Heap.{Heap}
use nim_ffi.Tinycbor.{Writer, Reader}
use nim_ffi.Tinycbor.Laws.{Writes, Reads, Parses}
use nim_ffi.Cbor.Buf.{encode_to_buf}
use nim_ffi.Cbor.Reading.{Plenty}
use nim_ffi.Cbor.Trip.{Carried, Wants, trip-Carried}
use nim_ffi.Echo.Types.{
  EchoShoutReq, EchoShoutAnonReq, EchoCreateCtorReq, ShoutResponse, no_echo_shout_req,
  no_echo_shout_anon_req, no_echo_create_ctor_req, no_shout_response,
}
use nim_ffi.Echo.Enc.{
  enc_echo_shout_req, enc_echo_shout_anon_req, enc_echo_create_ctor_req, enc_shout_response,
}
use nim_ffi.Echo.Dec.{
  dec_echo_shout_req, dec_echo_shout_anon_req, dec_echo_create_ctor_req, dec_shout_response,
}
use nim_ffi.Echo.Items.{
  item_echo_shout_req, item_echo_shout_anon_req, item_echo_create_ctor_req, item_shout_response,
  FitsEchoShoutReq, FitsEchoShoutAnonReq, FitsEchoCreateCtorReq, FitsShoutResponse,
}
use nim_ffi.Echo.RoundTrip.Emitted.{
  enc_echo_shout_req-Emits, enc_echo_shout_anon_req-Emits, enc_echo_create_ctor_req-Emits,
  enc_shout_response-Emits,
}
use nim_ffi.Echo.RoundTrip.ReadBack.{
  dec_echo_shout_req-Denotes, dec_echo_shout_anon_req-Denotes, dec_echo_create_ctor_req-Denotes,
  dec_shout_response-Denotes,
}

module _ {E V : Type 0} (w : Writer E) (c : Reader V) (ws : Writes w) (rs : Reads c) (n fuel : ℕ)
    (enough : n < fuel) (wants : Bool) (g : Heap) (lasts : Plenty g) (h : Heap)
    (full : Plenty h) where
  -- For a lawful TinyCBOR that parses a buffer with just this item, an `EchoShoutReq` whose strings are shorter than the address space, an encoder
  -- that needs at most `n` bytes and fails only for lack of room, more than `n` rounds of fuel, and
  -- memory that lasts: `nimffi_encode_to_buf` returns a buffer, and `nimffi_decode_from_buf` on it,
  -- in any heap where memory lasts, succeeds with a value that denotes the same data item.
  pub echo_shout_req-trip :
      (v : EchoShoutReq)
      → FitsEchoShoutReq v
      → Parses ws rs (item_echo_shout_req v)
      → Wants ⦃w = w⦄ (enc_echo_shout_req ⦃w = w⦄ v) n
      → Carried ⦃c = c⦄ item_echo_shout_req
          (item_echo_shout_req v)
          no_echo_shout_req
          (dec_echo_shout_req ⦃c = c⦄)
          h
          (encode_to_buf ⦃w = w⦄ fuel wants (enc_echo_shout_req ⦃w = w⦄ v) g)
  echo_shout_req-trip v fits parses need =
      trip-Carried ⦃w = w⦄ ⦃c = c⦄ ws rs item_echo_shout_req (item_echo_shout_req v) parses
        no_echo_shout_req _ _ (enc_echo_shout_req-Emits ⦃w = w⦄ ws v)
        (dec_echo_shout_req-Denotes ⦃c = c⦄ rs v fits) h full n fuel wants g need enough lasts

  -- For a lawful TinyCBOR that parses a buffer with just this item, an `EchoShoutAnonReq` whose strings are shorter than the address space, an encoder
  -- that needs at most `n` bytes and fails only for lack of room, more than `n` rounds of fuel, and
  -- memory that lasts: `nimffi_encode_to_buf` returns a buffer, and `nimffi_decode_from_buf` on it,
  -- in any heap where memory lasts, succeeds with a value that denotes the same data item.
  pub echo_shout_anon_req-trip :
      (v : EchoShoutAnonReq)
      → FitsEchoShoutAnonReq v
      → Parses ws rs (item_echo_shout_anon_req v)
      → Wants ⦃w = w⦄ (enc_echo_shout_anon_req ⦃w = w⦄ v) n
      → Carried ⦃c = c⦄ item_echo_shout_anon_req
          (item_echo_shout_anon_req v)
          no_echo_shout_anon_req
          (dec_echo_shout_anon_req ⦃c = c⦄)
          h
          (encode_to_buf ⦃w = w⦄ fuel wants (enc_echo_shout_anon_req ⦃w = w⦄ v) g)
  echo_shout_anon_req-trip v fits parses need =
      trip-Carried ⦃w = w⦄ ⦃c = c⦄ ws rs item_echo_shout_anon_req (item_echo_shout_anon_req v)
        parses no_echo_shout_anon_req _ _ (enc_echo_shout_anon_req-Emits ⦃w = w⦄ ws v)
        (dec_echo_shout_anon_req-Denotes ⦃c = c⦄ rs v fits) h full n fuel wants g need enough lasts

  -- For a lawful TinyCBOR that parses a buffer with just this item, an `EchoCreateCtorReq` whose strings are shorter than the address space, an encoder
  -- that needs at most `n` bytes and fails only for lack of room, more than `n` rounds of fuel, and
  -- memory that lasts: `nimffi_encode_to_buf` returns a buffer, and `nimffi_decode_from_buf` on it,
  -- in any heap where memory lasts, succeeds with a value that denotes the same data item.
  pub echo_create_ctor_req-trip :
      (v : EchoCreateCtorReq)
      → FitsEchoCreateCtorReq v
      → Parses ws rs (item_echo_create_ctor_req v)
      → Wants ⦃w = w⦄ (enc_echo_create_ctor_req ⦃w = w⦄ v) n
      → Carried ⦃c = c⦄ item_echo_create_ctor_req
          (item_echo_create_ctor_req v)
          no_echo_create_ctor_req
          (dec_echo_create_ctor_req ⦃c = c⦄)
          h
          (encode_to_buf ⦃w = w⦄ fuel wants (enc_echo_create_ctor_req ⦃w = w⦄ v) g)
  echo_create_ctor_req-trip v fits parses need =
      trip-Carried ⦃w = w⦄ ⦃c = c⦄ ws rs item_echo_create_ctor_req (item_echo_create_ctor_req v)
        parses no_echo_create_ctor_req _ _ (enc_echo_create_ctor_req-Emits ⦃w = w⦄ ws v)
        (dec_echo_create_ctor_req-Denotes ⦃c = c⦄ rs v fits) h full n fuel wants g need enough lasts

  -- For a lawful TinyCBOR that parses a buffer with just this item, a `ShoutResponse` whose strings are shorter than the address space, an encoder
  -- that needs at most `n` bytes and fails only for lack of room, more than `n` rounds of fuel, and
  -- memory that lasts: `nimffi_encode_to_buf` returns a buffer, and `nimffi_decode_from_buf` on it,
  -- in any heap where memory lasts, succeeds with a value that denotes the same data item.
  pub shout_response-trip :
      (v : ShoutResponse)
      → FitsShoutResponse v
      → Parses ws rs (item_shout_response v)
      → Wants ⦃w = w⦄ (enc_shout_response ⦃w = w⦄ v) n
      → Carried ⦃c = c⦄ item_shout_response
          (item_shout_response v)
          no_shout_response
          (dec_shout_response ⦃c = c⦄)
          h
          (encode_to_buf ⦃w = w⦄ fuel wants (enc_shout_response ⦃w = w⦄ v) g)
  shout_response-trip v fits parses need =
      trip-Carried ⦃w = w⦄ ⦃c = c⦄ ws rs item_shout_response (item_shout_response v) parses
        no_shout_response _ _ (enc_shout_response-Emits ⦃w = w⦄ ws v)
        (dec_shout_response-Denotes ⦃c = c⦄ rs v fits) h full n fuel wants g need enough lasts
