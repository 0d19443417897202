-- ===== src/Timer/Call/Settles.antt =====
-- Each call of the header as a whole exchange with the library.
use nim_ffi.Base.{◌<◌, ◌≡◌, ℕ, true, List}
use nim_ffi.Tinycbor.{Writer, Reader}
use nim_ffi.Cbor.Values.{CStr}
use nim_ffi.Timer.Types.{
  EchoRequest, ComplexRequest, JobSpec, RetryPolicy, ScheduleConfig, EchoResponse, ComplexResponse,
  ScheduleResult,
}
use nim_ffi.Timer.Enc.{
  enc_my_timer_echo_req, enc_my_timer_version_req, enc_my_timer_lib_version_req,
  enc_my_timer_complex_req, enc_my_timer_schedule_req,
}
use nim_ffi.Binding.Reply.{World, Delivery}
use nim_ffi.Binding.Call.{Answer, Host}
use nim_ffi.Timer.Call.{
  echo_reply_trampoline, version_reply_trampoline, complex_reply_trampoline,
  schedule_reply_trampoline, lib_version_reply_trampoline, ctx_echo, ctx_version, ctx_complex,
  ctx_schedule, static_lib_version,
}
use nim_ffi.Binding.Protocol.{NoneLeft, Protocol, Settled}
use nim_ffi.Binding.Exchange.{settle, Bounded, exchange-Settled}
use nim_ffi.Timer.Call.Replies.{
  echo_reply-Handles, version_reply-Handles, complex_reply-Handles, schedule_reply-Handles,
  lib_version_reply-Handles,
}

module _ {E V : Type 0} (wr : Writer E) (c : Reader V) (n fuel : ℕ) (enough : n < fuel)
    (host : Host) (fn : host.has_fn ≡ true) (send : ℕ → List ℕ → Answer) (later : List Delivery)
    (protocol : (b : ℕ) (bytes : List ℕ) → Protocol (send b bytes) later) where
  -- `my_timer_ctx_echo` with a callback set, for a request that the encoder fits into `n` bytes (`n` at most half of
  -- the address space, more than `n` rounds of fuel), and a library that keeps its side: either it
  -- says that no delivery comes, or pings and one terminal delivery come, during the call or after
  -- it. Whatever fails on the way, the host's callback is called exactly once, with its own
  -- `user_data`, and afterwards the heap has the blocks that it had before, none freed twice.
  pub echo-Settled :
      (req : EchoRequest) (w : World EchoResponse)
      → Bounded wr (enc_my_timer_echo_req ⦃w = wr⦄ (record { req = req })) n
      → Settled NoneLeft host w
          (settle (echo_reply_trampoline c) later (ctx_echo wr c fuel host send req w))
  unfolding ctx_echo
  echo-Settled req w bounded =
      exchange-Settled NoneLeft (echo_reply_trampoline c) (echo_reply-Handles c) host later fn w
        ⦃wr = wr⦄ send (enc_my_timer_echo_req ⦃w = wr⦄ (record { req = req })) n fuel bounded enough
        protocol

  -- `my_timer_ctx_complex` with a callback set, for a request that the encoder fits into `n` bytes (`n` at most half of
  -- the address space, more than `n` rounds of fuel), and a library that keeps its side: either it
  -- says that no delivery comes, or pings and one terminal delivery come, during the call or after
  -- it. Whatever fails on the way, the host's callback is called exactly once, with its own
  -- `user_data`, and afterwards the heap has the blocks that it had before, none freed twice.
  pub complex-Settled :
      (req : ComplexRequest) (w : World ComplexResponse)
      → Bounded wr (enc_my_timer_complex_req ⦃w = wr⦄ (record { req = req })) n
      → Settled NoneLeft host w
          (settle (complex_reply_trampoline c) later (ctx_complex wr c fuel host send req w))
  unfolding ctx_complex
  complex-Settled req w bounded =
      exchange-Settled NoneLeft (complex_reply_trampoline c) (complex_reply-Handles c) host later fn
        w ⦃wr = wr⦄ send (enc_my_timer_complex_req ⦃w = wr⦄ (record { req = req })) n fuel bounded
        enough protocol

  -- `my_timer_ctx_schedule` with a callback set, for a request that the encoder fits into `n` bytes (`n` at most half of
  -- the address space, more than `n` rounds of fuel), and a library that keeps its side: either it
  -- says that no delivery comes, or pings and one terminal delivery come, during the call or after
  -- it. Whatever fails on the way, the host's callback is called exactly once, with its own
  -- `user_data`, and afterwards the heap has the blocks that it had before, none freed twice.
  pub schedule-Settled :
      (job : JobSpec) (retry : RetryPolicy) (schedule : ScheduleConfig) (w : World ScheduleResult)
      → Bounded wr
          (enc_my_timer_schedule_req ⦃w = wr⦄
            (record { job = job; retry = retry; schedule = schedule }))
          n
      → Settled NoneLeft host w (
          settle
            (schedule_reply_trampoline c)
            later
            (ctx_schedule wr c fuel host send job retry schedule w))
  unfolding ctx_schedule
  schedule-Settled job retry schedule w bounded =
      exchange-Settled NoneLeft (schedule_reply_trampoline c) (schedule_reply-Handles c) host later
        fn w ⦃wr = wr⦄ send
        (enc_my_timer_schedule_req ⦃w = wr⦄
          (record { job = job; retry = retry; schedule = schedule }))
        n fuel bounded enough protocol

  -- `my_timer_ctx_version` with a callback set, for an empty request that the encoder fits into `n` bytes (`n` at most half of
  -- the address space, more than `n` rounds of fuel), and a library that keeps its side: either it
  -- says that no delivery comes, or pings and one terminal delivery come, during the call or after
  -- it. Whatever fails on the way, the host's callback is called exactly once, with its own
  -- `user_data`, and afterwards the heap has the blocks that it had before, none freed twice.
  pub version-Settled :
      (w : World CStr)
      → Bounded wr (enc_my_timer_version_req ⦃w = wr⦄ (record { nimffi_empty = 0 })) n
      → Settled NoneLeft host w
          (settle (version_reply_trampoline c) later (ctx_version wr c fuel host send w))
  unfolding ctx_version
  version-Settled w bounded =
      exchange-Settled NoneLeft (version_reply_trampoline c) (version_reply-Handles c) host later fn
        w ⦃wr = wr⦄ send (enc_my_timer_version_req ⦃w = wr⦄ (record { nimffi_empty = 0 })) n fuel
        bounded enough protocol

  -- `my_timer_static_lib_version` with a callback set, for an empty request that the encoder fits into `n` bytes (`n` at most half of
  -- the address space, more than `n` rounds of fuel), and a library that keeps its side: either it
  -- says that no delivery comes, or pings and one terminal delivery come, during the call or after
  -- it. Whatever fails on the way, the host's callback is called exactly once, with its own
  -- `user_data`, and afterwards the heap has the blocks that it had before, none freed twice.
  pub lib_version-Settled :
      (w : World CStr)
      → Bounded wr (enc_my_timer_lib_version_req ⦃w = wr⦄ (record { nimffi_empty = 0 })) n
      → Settled NoneLeft host w
          (settle (lib_version_reply_trampoline c) later (static_lib_version wr c fuel host send w))
  unfolding static_lib_version
  lib_version-Settled w bounded =
      exchange-Settled NoneLeft (lib_version_reply_trampoline c) (lib_version_reply-Handles c) host
        later fn w ⦃wr = wr⦄ send
        (enc_my_timer_lib_version_req ⦃w = wr⦄ (record { nimffi_empty = 0 })) n fuel bounded enough
        protocol
