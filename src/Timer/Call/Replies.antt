-- ===== src/Timer/Call/Replies.antt =====
-- The reply trampolines of the header, one by one: what one delivery does, and that each handles
-- the deliveries of an exchange.
use nim_ffi.Base.{◌≡◌, ◌≢◌, refl, true, some}
use nim_ffi.Heap.Laws.{owned_ptr, Holds}
use nim_ffi.Tinycbor.{Reader}
use nim_ffi.Cbor.Values.{null, owned_str, free_str}
use nim_ffi.Cbor.Buf.{decode_from_buf}
use nim_ffi.Cbor.Memory.{dec_str-Sound}
use nim_ffi.Cbor.Release.{free_str-Frees}
use nim_ffi.Timer.Types.{
  EchoResponse, ComplexResponse, ScheduleResult, no_echo_response, no_complex_response,
  no_schedule_result,
}
use nim_ffi.Timer.Free.{free_echo_response, free_complex_response, free_schedule_result}
use nim_ffi.Timer.Dec.{dec_echo_response, dec_complex_response, dec_schedule_result}
use nim_ffi.Timer.Memory.Owned.{owned_echo_response, owned_complex_response, owned_schedule_result}
use nim_ffi.Timer.Memory.Decoded.{
  dec_echo_response-Sound, dec_complex_response-Sound, dec_schedule_result-Sound,
}
use nim_ffi.Timer.Memory.Freed.{
  free_echo_response-Frees, free_complex_response-Frees, free_schedule_result-Frees,
}
use nim_ffi.Binding.Reply.{World, CallBox, Delivery, payload, ret_stale_warn}
use nim_ffi.Timer.Call.{
  echo_reply_trampoline, version_reply_trampoline, complex_reply_trampoline,
  schedule_reply_trampoline, lib_version_reply_trampoline,
}
use nim_ffi.Binding.Once.{Answered, trampoline-Answered}
use nim_ffi.Binding.Protocol.{NoneLeft, Handles}
use nim_ffi.Binding.Handled.{reply_trampoline-Handles}

module _ {V : Type 0} (c : Reader V) where
  pub echo_reply-Handles : Handles NoneLeft (echo_reply_trampoline c)
  unfolding echo_reply_trampoline
  echo_reply-Handles =
      reply_trampoline-Handles ⦃c = c⦄ _ no_echo_response free_echo_response owned_echo_response
        (λ a. refl) (dec_echo_response-Sound ⦃c = c⦄) free_echo_response-Frees

  pub complex_reply-Handles : Handles NoneLeft (complex_reply_trampoline c)
  unfolding complex_reply_trampoline
  complex_reply-Handles =
      reply_trampoline-Handles ⦃c = c⦄ _ no_complex_response free_complex_response
        owned_complex_response (λ a. refl) (dec_complex_response-Sound ⦃c = c⦄)
        free_complex_response-Frees

  pub schedule_reply-Handles : Handles NoneLeft (schedule_reply_trampoline c)
  unfolding schedule_reply_trampoline
  schedule_reply-Handles =
      reply_trampoline-Handles ⦃c = c⦄ _ no_schedule_result free_schedule_result
        owned_schedule_result (λ a. refl) (dec_schedule_result-Sound ⦃c = c⦄)
        free_schedule_result-Frees

  pub version_reply-Handles : Handles NoneLeft (version_reply_trampoline c)
  unfolding version_reply_trampoline
  version_reply-Handles =
      reply_trampoline-Handles ⦃c = c⦄ _ null free_str owned_str (λ a. refl) (dec_str-Sound ⦃c = c⦄)
        free_str-Frees

  pub lib_version_reply-Handles : Handles NoneLeft (lib_version_reply_trampoline c)
  unfolding lib_version_reply_trampoline
  lib_version_reply-Handles =
      reply_trampoline-Handles ⦃c = c⦄ _ null free_str owned_str (λ a. refl) (dec_str-Sound ⦃c = c⦄)
        free_str-Frees

  module _ (box : CallBox) (d : Delivery) where
    -- A terminal delivery to the trampoline of `echo`, whose box is allocated and has a callback: the
    -- callback is called once, with the box's `user_data`. It gets the library's code and no reply
    -- if that code is not 0; -1 and no reply if the bytes do not decode; else 0 and the decoded
    -- reply, whose memory is allocated while the callback reads it. Afterwards the box is freed and
    -- every other block is as before, none freed twice.
    pub echo_reply-Answered :
        (w : World EchoResponse)
        → Holds (owned_ptr (some box.block)) w.heap
        → d.ret ≢ ret_stale_warn
        → box.has_fn ≡ true
        → Answered owned_echo_response d
            (decode_from_buf ⦃c = c⦄ true
              (dec_echo_response ⦃c = c⦄)
              (payload d)
              no_echo_response
              w.heap)
            box
            w
            (echo_reply_trampoline c box d w)
    unfolding echo_reply_trampoline
    echo_reply-Answered w held terminal fn =
        trampoline-Answered ⦃c = c⦄ _ no_echo_response free_echo_response owned_echo_response
          (λ a. refl) (dec_echo_response-Sound ⦃c = c⦄) free_echo_response-Frees box d w held
          terminal fn

    -- A terminal delivery to the trampoline of `complex`, whose box is allocated and has a callback: the
    -- callback is called once, with the box's `user_data`. It gets the library's code and no reply
    -- if that code is not 0; -1 and no reply if the bytes do not decode; else 0 and the decoded
    -- reply, whose memory is allocated while the callback reads it. Afterwards the box is freed and
    -- every other block is as before, none freed twice.
    pub complex_reply-Answered :
        (w : World ComplexResponse)
        → Holds (owned_ptr (some box.block)) w.heap
        → d.ret ≢ ret_stale_warn
        → box.has_fn ≡ true
        → Answered owned_complex_response d
            (decode_from_buf ⦃c = c⦄ true
              (dec_complex_response ⦃c = c⦄)
              (payload d)
              no_complex_response
              w.heap)
            box
            w
            (complex_reply_trampoline c box d w)
    unfolding complex_reply_trampoline
    complex_reply-Answered w held terminal fn =
        trampoline-Answered ⦃c = c⦄ _ no_complex_response free_complex_response
          owned_complex_response (λ a. refl) (dec_complex_response-Sound ⦃c = c⦄)
          free_complex_response-Frees box d w held terminal fn

    -- A terminal delivery to the trampoline of `schedule`, whose box is allocated and has a callback: the
    -- callback is called once, with the box's `user_data`. It gets the library's code and no reply
    -- if that code is not 0; -1 and no reply if the bytes do not decode; else 0 and the decoded
    -- reply, whose memory is allocated while the callback reads it. Afterwards the box is freed and
    -- every other block is as before, none freed twice.
    pub schedule_reply-Answered :
        (w : World ScheduleResult)
        → Holds (owned_ptr (some box.block)) w.heap
        → d.ret ≢ ret_stale_warn
        → box.has_fn ≡ true
        → Answered owned_schedule_result d
            (decode_from_buf ⦃c = c⦄ true
              (dec_schedule_result ⦃c = c⦄)
              (payload d)
              no_schedule_result
              w.heap)
            box
            w
            (schedule_reply_trampoline c box d w)
    unfolding schedule_reply_trampoline
    schedule_reply-Answered w held terminal fn =
        trampoline-Answered ⦃c = c⦄ _ no_schedule_result free_schedule_result owned_schedule_result
          (λ a. refl) (dec_schedule_result-Sound ⦃c = c⦄) free_schedule_result-Frees box d w held
          terminal fn
