-- ===== src/Timer/Call.antt =====
-- The calls of the header: `my_timer_ctx_echo`, `…_version`, `…_complex`, `…_schedule` and
-- `my_timer_static_lib_version`, each with its reply trampoline. The five pairs have one text, but
-- for the request's encoder and the reply's decoder and free function: `ctx_call` of Binding/Call and
-- `reply_trampoline` of Binding/Reply are that text, and the five pairs are their instances.
pub mod Replies
pub mod Settles
use nim_ffi.Base.{
  ℕ, ℤ, pos, negsuc, Bool, true, false, not, Option, none, some, List, [], ◌∷◌, ◌++◌, codes, ◌==◌,
  if◌then◌else◌,
}
use nim_ffi.Heap.{Heap, Ptr, malloc, free}
use nim_ffi.Tinycbor.{Writer, Reader}
use nim_ffi.Cbor.Values.{CStr, null, chars, c_text, address, Decoder, Encoder, free_str}
use nim_ffi.Cbor.Dec.{dec_str}
use nim_ffi.Cbor.Buf.{
  dup_cstr_n, Encoded, encoded, not_encoded, out_of_fuel, encode_to_buf, Decoded, decode_from_buf,
}
use nim_ffi.Timer.Types.{
  EchoResponse, ComplexResponse, ScheduleResult, no_echo_response, no_complex_response,
  no_schedule_result, EchoRequest, ComplexRequest, JobSpec, RetryPolicy, ScheduleConfig,
}
use nim_ffi.Timer.Enc.{
  enc_my_timer_echo_req, enc_my_timer_version_req, enc_my_timer_lib_version_req,
  enc_my_timer_complex_req, enc_my_timer_schedule_req,
}
use nim_ffi.Timer.Dec.{dec_echo_response, dec_complex_response, dec_schedule_result}
use nim_ffi.Timer.Free.{free_echo_response, free_complex_response, free_schedule_result}
use nim_ffi.Binding.Reply.{
  ret_ok, ret_missing_callback, ret_stale_warn, Reply, World, CallBox, Delivery, payload, or_text,
  tell_error, tell_value, minus_one, free_in, reply_refused, reply_decoded, reply_trampoline,
}
use nim_ffi.Binding.Call.{Answer, Called, Host, ctx_call}

module _ {V : Type 0} (c : Reader V) where
  unfoldable pub echo_reply_trampoline :
      CallBox → Delivery → World EchoResponse → World EchoResponse
  unfolding reply_trampoline
  echo_reply_trampoline =
      reply_trampoline ⦃c = c⦄ (dec_echo_response ⦃c = c⦄) no_echo_response free_echo_response

  unfoldable pub version_reply_trampoline : CallBox → Delivery → World CStr → World CStr
  unfolding reply_trampoline
  version_reply_trampoline = reply_trampoline ⦃c = c⦄ (dec_str ⦃c = c⦄) null free_str

  unfoldable pub complex_reply_trampoline :
      CallBox → Delivery → World ComplexResponse → World ComplexResponse
  unfolding reply_trampoline
  complex_reply_trampoline =
      reply_trampoline ⦃c = c⦄ (dec_complex_response ⦃c = c⦄) no_complex_response
        free_complex_response

  unfoldable pub schedule_reply_trampoline :
      CallBox → Delivery → World ScheduleResult → World ScheduleResult
  unfolding reply_trampoline
  schedule_reply_trampoline =
      reply_trampoline ⦃c = c⦄ (dec_schedule_result ⦃c = c⦄) no_schedule_result free_schedule_result

  unfoldable pub lib_version_reply_trampoline : CallBox → Delivery → World CStr → World CStr
  unfolding reply_trampoline
  lib_version_reply_trampoline = reply_trampoline ⦃c = c⦄ (dec_str ⦃c = c⦄) null free_str

module _ {E V : Type 0} (wr : Writer E) (c : Reader V) (fuel : ℕ) (host : Host)
    (send : ℕ → List ℕ → Answer) where
  unfoldable pub ctx_echo : EchoRequest → World EchoResponse → Option (Called EchoResponse)
  unfolding ctx_call
  ctx_echo req =
      ctx_call ⦃wr = wr⦄ (echo_reply_trampoline c) host send fuel
        (enc_my_timer_echo_req ⦃w = wr⦄ (record { req = req }))

  unfoldable pub ctx_version : World CStr → Option (Called CStr)
  unfolding ctx_call
  ctx_version =
      ctx_call ⦃wr = wr⦄ (version_reply_trampoline c) host send fuel
        (enc_my_timer_version_req ⦃w = wr⦄ (record { nimffi_empty = 0 }))

  unfoldable pub ctx_complex :
      ComplexRequest → World ComplexResponse → Option (Called ComplexResponse)
  unfolding ctx_call
  ctx_complex req =
      ctx_call ⦃wr = wr⦄ (complex_reply_trampoline c) host send fuel
        (enc_my_timer_complex_req ⦃w = wr⦄ (record { req = req }))

  unfoldable pub ctx_schedule :
      JobSpec → RetryPolicy → ScheduleConfig → World ScheduleResult → Option (Called ScheduleResult)
  unfolding ctx_call
  ctx_schedule job retry schedule =
      ctx_call ⦃wr = wr⦄ (schedule_reply_trampoline c) host send fuel (
        enc_my_timer_schedule_req ⦃w = wr⦄
          (record { job = job; retry = retry; schedule = schedule }))

  unfoldable pub static_lib_version : World CStr → Option (Called CStr)
  unfolding ctx_call
  static_lib_version =
      ctx_call ⦃wr = wr⦄ (lib_version_reply_trampoline c) host send fuel
        (enc_my_timer_lib_version_req ⦃w = wr⦄ (record { nimffi_empty = 0 }))
