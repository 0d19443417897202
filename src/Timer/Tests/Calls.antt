-- ===== src/Timer/Tests/Calls.antt =====
-- Exchanges with a library that answers during the call, after it, or not at all.
use nim_ffi.Base.{
  ℕ, ◌≢◌, refl, none, some, true, false, codes, inl, inr, List, [], ◌∷◌, arith, ◌<◌, ◌^◌, ◌≤◌, ◌+◌,
}
use nim_ffi.Tinycbor.Model.{sink}
use nim_ffi.Tinycbor.Model.Source.{item_reader}
use nim_ffi.Heap.{Heap}
use nim_ffi.Cbor.Buf.{decode_from_buf}
use nim_ffi.Timer.Memory.Owned.{owned_echo_response, owned_complex_response, owned_schedule_result}
use nim_ffi.Timer.Types.{no_echo_response, no_complex_response, no_schedule_result}
use nim_ffi.Timer.Dec.{dec_echo_response, dec_complex_response, dec_schedule_result}
use nim_ffi.Binding.Once.{Answered}
use nim_ffi.Cbor.Emits.{item_str}
use nim_ffi.Timer.Items.{item_echo_response, item_complex_response, item_schedule_result}
use nim_ffi.Binding.Reply.{Delivery, payload}
use nim_ffi.Binding.Call.{Answer}
use nim_ffi.Timer.Call.{
  schedule_reply_trampoline, complex_reply_trampoline, echo_reply_trampoline,
  version_reply_trampoline, lib_version_reply_trampoline, ctx_schedule, ctx_complex, ctx_echo,
  ctx_version, static_lib_version,
}
use nim_ffi.Binding.Protocol.{NoneLeft, Settled}
use nim_ffi.Binding.Exchange.{settle}
use nim_ffi.Timer.Call.Settles.{
  schedule-Settled, complex-Settled, echo-Settled, version-Settled, lib_version-Settled,
}
use nim_ffi.Timer.Call.Replies.{
  schedule_reply-Answered, complex_reply-Answered, echo_reply-Answered,
}
use nim_ffi.Timer.Tests.Encodes.{
  schedule_req-runs, complex_req-runs, echo_req-runs, version_req-runs, lib_version_req-runs,
}
use nim_ffi.Timer.Tests.Data.{
  roomy, empty_heap, tight_heap, host, hello, echo_request, echo_response, complex_request,
  complex_response, job, retry, schedule, schedule_result, world, ping, reply_of, box,
}

-- A ping and the value during the call; a ping then, and the value later; an error; no delivery.
abbrev now : Delivery → ℕ → List ℕ → Answer
now d b bytes = record { fires = ping ∷ d ∷ []; ret = 0 }

abbrev soon : ℕ → List ℕ → Answer
soon b bytes = record { fires = ping ∷ []; ret = 0 }

abbrev never : ℕ → List ℕ → Answer
never b bytes = record { fires = []; ret = 2 }

small : 400 + 400 ≤ 2 ^ 64
small = omega arith

schedule-Settled_example : Settled NoneLeft host (world empty_heap) (
    settle (schedule_reply_trampoline item_reader) [] (
      ctx_schedule roomy item_reader 401 host
        (now (reply_of (item_schedule_result schedule_result)))
        job
        retry
        schedule
        (world empty_heap)))
unfolding roomy sink
schedule-Settled_example =
    schedule-Settled roomy item_reader 400 401 (omega arith) host refl
      (now (reply_of (item_schedule_result schedule_result))) []
      (λ b bytes.
        inr
          (λ e. absurd (omega (arith, e)), inl (refl, inr (λ e. absurd (omega (arith, e)), refl))))
      job retry schedule (world empty_heap)
      (record {
        small = small;
        fits = λ room enough e. cc (e, schedule_req-runs room);
        hint = λ room. omega arith;
      })

complex-Settled_example : Settled NoneLeft host (world empty_heap) (
    settle
      (complex_reply_trampoline item_reader)
      (reply_of (item_complex_response complex_response) ∷ [])
      (ctx_complex roomy item_reader 401 host soon complex_request (world empty_heap)))
unfolding roomy sink
complex-Settled_example =
    complex-Settled roomy item_reader 400 401 (omega arith) host refl soon
      (reply_of (item_complex_response complex_response) ∷ [])
      (λ b bytes.
        inr
          (λ e. absurd (omega (arith, e)), inl (refl, inr (λ e. absurd (omega (arith, e)), refl))))
      complex_request (world empty_heap)
      (record {
        small = small;
        fits = λ room enough e. cc (e, complex_req-runs room);
        hint = λ room. omega arith;
      })

echo-Settled_example : Settled NoneLeft host (world tight_heap) (
    settle
      (echo_reply_trampoline item_reader)
      (record { ret = 5; msg = none } ∷ [])
      (ctx_echo roomy item_reader 401 host soon echo_request (world tight_heap)))
unfolding roomy sink
echo-Settled_example =
    echo-Settled roomy item_reader 400 401 (omega arith) host refl soon
      (record { ret = 5; msg = none } ∷ [])
      (λ b bytes.
        inr
          (λ e. absurd (omega (arith, e)), inl (refl, inr (λ e. absurd (omega (arith, e)), refl))))
      echo_request (world tight_heap)
      (record {
        small = small;
        fits = λ room enough e. cc (e, echo_req-runs room);
        hint = λ room. omega arith;
      })

version-Settled_example : Settled NoneLeft host (world empty_heap) (
    settle
      (version_reply_trampoline item_reader)
      []
      (ctx_version roomy item_reader 401 host never (world empty_heap)))
unfolding roomy sink
version-Settled_example =
    version-Settled roomy item_reader 400 401 (omega arith) host refl never []
      (λ b bytes. inl (refl, refl)) (world empty_heap)
      (record {
        small = small;
        fits = λ room enough e. cc (e, version_req-runs room);
        hint = λ room. omega arith;
      })

lib_version-Settled_example : Settled NoneLeft host (world tight_heap) (
    settle (lib_version_reply_trampoline item_reader) [] (
      static_lib_version roomy item_reader 401 host
        (now (reply_of (item_str hello)))
        (world tight_heap)))
unfolding roomy sink
lib_version-Settled_example =
    lib_version-Settled roomy item_reader 400 401 (omega arith) host refl
      (now (reply_of (item_str hello))) []
      (λ b bytes.
        inr
          (λ e. absurd (omega (arith, e)), inl (refl, inr (λ e. absurd (omega (arith, e)), refl))))
      (world tight_heap)
      (record {
        small = small;
        fits = λ room enough e. cc (e, lib_version_req-runs room);
        hint = λ room. omega arith;
      })

not_three : (n : ℕ) → n < 3 → n ≢ 3
not_three n less e = omega (arith, less, e)

abbrev boxed : Heap
boxed = record { next = 41; live = 40 ∷ []; bad = false; fails = λ n. false }

abbrev echo_delivery : Delivery
echo_delivery = reply_of (item_echo_response echo_response)

echo_reply-Answered_example :
    Answered owned_echo_response echo_delivery
      (decode_from_buf ⦃c = item_reader⦄ true
        (dec_echo_response ⦃c = item_reader⦄)
        (payload echo_delivery)
        no_echo_response
        boxed)
      box
      (world boxed)
      (echo_reply_trampoline item_reader box echo_delivery (world boxed))
echo_reply-Answered_example =
    echo_reply-Answered item_reader box echo_delivery (world boxed) (λ a. ground arith)
      (not_three 0 (omega arith)) refl

abbrev complex_delivery : Delivery
complex_delivery = record { ret = 1; msg = some (codes "no") }

complex_reply-Answered_example :
    Answered owned_complex_response complex_delivery
      (decode_from_buf ⦃c = item_reader⦄ true
        (dec_complex_response ⦃c = item_reader⦄)
        (payload complex_delivery)
        no_complex_response
        boxed)
      box
      (world boxed)
      (complex_reply_trampoline item_reader box complex_delivery (world boxed))
complex_reply-Answered_example =
    complex_reply-Answered item_reader box complex_delivery (world boxed) (λ a. ground arith)
      (not_three 1 (omega arith)) refl

abbrev schedule_delivery : Delivery
schedule_delivery = record { ret = 0; msg = none }

schedule_reply-Answered_example :
    Answered owned_schedule_result schedule_delivery
      (decode_from_buf ⦃c = item_reader⦄ true
        (dec_schedule_result ⦃c = item_reader⦄)
        (payload schedule_delivery)
        no_schedule_result
        boxed)
      box
      (world boxed)
      (schedule_reply_trampoline item_reader box schedule_delivery (world boxed))
schedule_reply-Answered_example =
    schedule_reply-Answered item_reader box schedule_delivery (world boxed) (λ a. ground arith)
      (not_three 0 (omega arith)) refl
