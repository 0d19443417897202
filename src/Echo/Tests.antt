-- ===== src/Echo/Tests.antt =====
-- Runs of the header's code on the small codec.
use nim_ffi.Base.{ℕ, ◌+◌, ◌≤◌, ◌<◌, ◌^◌, ◌≡◌, refl, true, List, [], ◌∷◌, codes, inl, inr, arith}
use nim_ffi.Tinycbor.{no_error}
use nim_ffi.Tinycbor.Model.{sink}
use nim_ffi.Tinycbor.Model.Source.{item_reader}
use nim_ffi.Tinycbor.Model.Lawful.{sink_Writes, item_Reads, model_Parses}
use nim_ffi.Cbor.Dec.{size_max}
use nim_ffi.Cbor.Buf.{encode_to_buf}
use nim_ffi.Cbor.Emits.{item_str}
use nim_ffi.Cbor.Trip.{Carried}
use nim_ffi.Cbor.Values.{chars}
use nim_ffi.Binding.Reply.{Delivery}
use nim_ffi.Binding.Call.{Answer}
use nim_ffi.Binding.Protocol.{NoneLeft, Settled}
use nim_ffi.Binding.Exchange.{settle}
use nim_ffi.Binding.Create.Made.{CtxLeft}
use nim_ffi.Echo.Types.{
  EchoConfig, ShoutRequest, ShoutResponse, EchoShoutReq, EchoCreateCtorReq, no_shout_response,
}
use nim_ffi.Echo.Enc.{
  enc_echo_shout_req, enc_echo_shout_anon_req, enc_echo_create_ctor_req, enc_shout_response,
}
use nim_ffi.Echo.Dec.{dec_shout_response}
use nim_ffi.Echo.Items.{item_shout_response}
use nim_ffi.Echo.Calls.{echo_shout_reply_trampoline, echo_ctx_shout, echo_ctx_shout-Settled}
use nim_ffi.Echo.Context.{
  owned_echo_ctx, echo_create_trampoline, echo_ctx_create, echo_ctx_create-Settled,
}
use nim_ffi.Echo.RoundTrip.Trips.{shout_response-trip}
use nim_ffi.Timer.Tests.Contexts.{digits}
use nim_ffi.Timer.Tests.Data.{roomy, empty_heap, host, hello, world, ping, reply_of}

abbrev shout : ShoutRequest
shout = record { text = hello }

abbrev shout_req : EchoShoutReq
shout_req = record { req = shout }

abbrev shouted : ShoutResponse
shouted = record { shouted = chars 903 (codes "HELLO"); prefix = hello }

abbrev config : EchoConfig
config = record { prefix = hello }

abbrev create_req : EchoCreateCtorReq
create_req = record { config = config }

shout_req-runs :
    (room : ℕ) → (enc_echo_shout_req ⦃w = roomy⦄ shout_req (roomy.encoder_init room)).0 ≡ no_error
unfolding roomy sink enc_echo_shout_req nim_ffi.Cbor.Struct.enc_map nim_ffi.Cbor.Struct.enc_field
    nim_ffi.Cbor.Values.◌>>◌ nim_ffi.Echo.Enc.enc_shout_request nim_ffi.Cbor.Enc.enc_str
shout_req-runs room = refl

create_req-runs :
    (room : ℕ)
    → (enc_echo_create_ctor_req ⦃w = roomy⦄ create_req (roomy.encoder_init room)).0 ≡ no_error
unfolding roomy sink enc_echo_create_ctor_req nim_ffi.Cbor.Struct.enc_map
    nim_ffi.Cbor.Struct.enc_field nim_ffi.Cbor.Values.◌>>◌ nim_ffi.Echo.Enc.enc_echo_config
    nim_ffi.Cbor.Enc.enc_str
create_req-runs room = refl

shouted-runs :
    (room : ℕ) → (enc_shout_response ⦃w = roomy⦄ shouted (roomy.encoder_init room)).0 ≡ no_error
unfolding roomy sink enc_shout_response nim_ffi.Cbor.Struct.enc_map nim_ffi.Cbor.Values.◌>>◌
    nim_ffi.Cbor.Struct.enc_field nim_ffi.Cbor.Enc.enc_str
shouted-runs room = refl

small : 400 + 400 ≤ 2 ^ 64
small = omega arith

short : 5 < size_max
short = omega arith

-- A ping and the value during the call; a ping then, and the rest later; a ping and the address.
abbrev now : Delivery → ℕ → List ℕ → Answer
now d b bytes = record { fires = ping ∷ d ∷ []; ret = 0 }

abbrev soon : ℕ → List ℕ → Answer
soon b bytes = record { fires = ping ∷ []; ret = 0 }

abbrev address_now : ℕ → List ℕ → Answer
address_now b bytes = record {
  fires = ping ∷ reply_of (item_str (chars 700 (codes "4160"))) ∷ [];
  ret = 9;
}

echo_ctx_shout-Settled_example : Settled NoneLeft host (world empty_heap) (
    settle (echo_shout_reply_trampoline item_reader) [] (
      echo_ctx_shout roomy item_reader 401 host
        (now (reply_of (item_shout_response shouted)))
        shout
        (world empty_heap)))
unfolding roomy sink
echo_ctx_shout-Settled_example =
    echo_ctx_shout-Settled roomy item_reader 400 401 (omega arith) host refl
      (now (reply_of (item_shout_response shouted))) []
      (λ b bytes.
        inr
          (λ e. absurd (omega (arith, e)), inl (refl, inr (λ e. absurd (omega (arith, e)), refl))))
      shout (world empty_heap)
      (record {
        small = small;
        fits = λ room enough e. cc (e, shout_req-runs room);
        hint = λ room. omega arith;
      })

echo_ctx_create-Settled_example :
    Settled (CtxLeft item_reader owned_echo_ctx) host (world empty_heap) (
      settle
        (echo_create_trampoline item_reader digits)
        []
        (echo_ctx_create roomy item_reader digits 401 host address_now config (world empty_heap)))
unfolding roomy sink
echo_ctx_create-Settled_example =
    echo_ctx_create-Settled roomy item_reader digits 400 401 (omega arith) host refl address_now []
      (λ b bytes. inl (refl, inr (λ e. absurd (omega (arith, e)), refl))) config (world empty_heap)
      (record {
        small = small;
        fits = λ room enough e. cc (e, create_req-runs room);
        hint = λ room. omega arith;
      })

shout_response-trip_example :
    Carried ⦃c = item_reader⦄ item_shout_response
      (item_shout_response shouted)
      no_shout_response
      (dec_shout_response ⦃c = item_reader⦄)
      empty_heap
      (encode_to_buf ⦃w = roomy⦄ 401 true (enc_shout_response ⦃w = roomy⦄ shouted) empty_heap)
unfolding roomy sink
shout_response-trip_example =
    shout_response-trip roomy item_reader (sink_Writes _) item_Reads 400 401 (omega arith) true
      empty_heap (λ n. refl) empty_heap (λ n. refl) shouted (short, short) (model_Parses _ _)
      (record {
        small = small;
        fine = λ room. inl (shouted-runs room);
        fits = λ room enough e. cc (e, shouted-runs room);
        hint = λ room. omega arith;
      })
