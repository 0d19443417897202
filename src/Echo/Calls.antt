-- ===== src/Echo/Calls.antt =====
-- The calls of the header with their reply trampolines, and their exchanges with the library.
use nim_ffi.Base.{ℕ, ◌<◌, ◌≡◌, refl, true, Option, List}
use nim_ffi.Tinycbor.{Writer, Reader}
use nim_ffi.Cbor.Values.{CStr, null, owned_str, free_str}
use nim_ffi.Cbor.Dec.{dec_str}
use nim_ffi.Cbor.Memory.{dec_str-Sound}
use nim_ffi.Cbor.Release.{free_str-Frees}
use nim_ffi.Echo.Types.{ShoutRequest, ShoutResponse, no_shout_response}
use nim_ffi.Echo.Enc.{
  enc_echo_shout_req, enc_echo_shout_anon_req, enc_echo_version_req, enc_echo_lib_version_req,
}
use nim_ffi.Echo.Dec.{dec_shout_response}
use nim_ffi.Echo.Free.{free_shout_response}
use nim_ffi.Echo.Memory.Owned.{owned_shout_response}
use nim_ffi.Echo.Memory.Decoded.{dec_shout_response-Sound}
use nim_ffi.Echo.Memory.Freed.{free_shout_response-Frees}
use nim_ffi.Binding.Reply.{World, CallBox, Delivery, reply_trampoline}
use nim_ffi.Binding.Call.{Answer, Called, Host, ctx_call}
use nim_ffi.Binding.Protocol.{NoneLeft, Protocol, Handles, Settled}
use nim_ffi.Binding.Handled.{reply_trampoline-Handles}
use nim_ffi.Binding.Exchange.{settle, Bounded, exchange-Settled}

module _ {V : Type 0} (c : Reader V) where
  unfoldable pub echo_shout_reply_trampoline :
      CallBox → Delivery → World ShoutResponse → World ShoutResponse
  unfolding reply_trampoline
  echo_shout_reply_trampoline =
      reply_trampoline ⦃c = c⦄ (dec_shout_response ⦃c = c⦄) no_shout_response free_shout_response

  unfoldable pub echo_shout_anon_reply_trampoline :
      CallBox → Delivery → World ShoutResponse → World ShoutResponse
  unfolding reply_trampoline
  echo_shout_anon_reply_trampoline =
      reply_trampoline ⦃c = c⦄ (dec_shout_response ⦃c = c⦄) no_shout_response free_shout_response

  unfoldable pub echo_version_reply_trampoline : CallBox → Delivery → World CStr → World CStr
  unfolding reply_trampoline
  echo_version_reply_trampoline = reply_trampoline ⦃c = c⦄ (dec_str ⦃c = c⦄) null free_str

  unfoldable pub echo_lib_version_reply_trampoline : CallBox → Delivery → World CStr → World CStr
  unfolding reply_trampoline
  echo_lib_version_reply_trampoline = reply_trampoline ⦃c = c⦄ (dec_str ⦃c = c⦄) null free_str

module _ {E V : Type 0} (wr : Writer E) (c : Reader V) (fuel : ℕ) (host : Host)
    (send : ℕ → List ℕ → Answer) where
  unfoldable pub echo_ctx_shout : ShoutRequest → World ShoutResponse → Option (Called ShoutResponse)
  unfolding ctx_call
  echo_ctx_shout req =
      ctx_call ⦃wr = wr⦄ (echo_shout_reply_trampoline c) host send fuel
        (enc_echo_shout_req ⦃w = wr⦄ (record { req = req }))

  unfoldable pub echo_static_shout_anon :
      ShoutRequest → World ShoutResponse → Option (Called ShoutResponse)
  unfolding ctx_call
  echo_static_shout_anon req =
      ctx_call ⦃wr = wr⦄ (echo_shout_anon_reply_trampoline c) host send fuel
        (enc_echo_shout_anon_req ⦃w = wr⦄ (record { req = req }))

  unfoldable pub echo_ctx_version : World CStr → Option (Called CStr)
  unfolding ctx_call
  echo_ctx_version =
      ctx_call ⦃wr = wr⦄ (echo_version_reply_trampoline c) host send fuel
        (enc_echo_version_req ⦃w = wr⦄ (record { nimffi_empty = 0 }))

  unfoldable pub echo_static_lib_version : World CStr → Option (Called CStr)
  unfolding ctx_call
  echo_static_lib_version =
      ctx_call ⦃wr = wr⦄ (echo_lib_version_reply_trampoline c) host send fuel
        (enc_echo_lib_version_req ⦃w = wr⦄ (record { nimffi_empty = 0 }))

module _ {V : Type 0} (c : Reader V) where
  echo_shout_reply_trampoline-Handles : Handles NoneLeft (echo_shout_reply_trampoline c)
  unfolding echo_shout_reply_trampoline
  echo_shout_reply_trampoline-Handles =
      reply_trampoline-Handles ⦃c = c⦄ _ no_shout_response free_shout_response owned_shout_response
        (λ a. refl) (dec_shout_response-Sound ⦃c = c⦄) free_shout_response-Frees

  echo_shout_anon_reply_trampoline-Handles : Handles NoneLeft (echo_shout_anon_reply_trampoline c)
  unfolding echo_shout_anon_reply_trampoline
  echo_shout_anon_reply_trampoline-Handles =
      reply_trampoline-Handles ⦃c = c⦄ _ no_shout_response free_shout_response owned_shout_response
        (λ a. refl) (dec_shout_response-Sound ⦃c = c⦄) free_shout_response-Frees

  echo_version_reply_trampoline-Handles : Handles NoneLeft (echo_version_reply_trampoline c)
  unfolding echo_version_reply_trampoline
  echo_version_reply_trampoline-Handles =
      reply_trampoline-Handles ⦃c = c⦄ _ null free_str owned_str (λ a. refl) (dec_str-Sound ⦃c = c⦄)
        free_str-Frees

  echo_lib_version_reply_trampoline-Handles : Handles NoneLeft (echo_lib_version_reply_trampoline c)
  unfolding echo_lib_version_reply_trampoline
  echo_lib_version_reply_trampoline-Handles =
      reply_trampoline-Handles ⦃c = c⦄ _ null free_str owned_str (λ a. refl) (dec_str-Sound ⦃c = c⦄)
        free_str-Frees

module _ {E V : Type 0} (wr : Writer E) (c : Reader V) (n fuel : ℕ) (enough : n < fuel)
    (host : Host) (fn : host.has_fn ≡ true) (send : ℕ → List ℕ → Answer) (later : List Delivery)
    (protocol : (b : ℕ) (bytes : List ℕ) → Protocol (send b bytes) later) where
  -- `echo_ctx_shout` with a callback set, for a request that the encoder fits into `n` bytes (`n` at
  -- most half of the address space, more than `n` rounds of fuel), and a library that keeps its
  -- side: either it says that no delivery comes, or pings and one terminal delivery come, during
  -- the call or after it. Whatever fails on the way, the host's callback is called exactly once,
  -- with its own `user_data`, and afterwards the heap has the blocks that it had before, none
  -- freed twice.
  pub echo_ctx_shout-Settled :
      (req : ShoutRequest) (w : World ShoutResponse)
      → Bounded wr (enc_echo_shout_req ⦃w = wr⦄ (record { req = req })) n
      → Settled NoneLeft host w
          (settle (echo_shout_reply_trampoline c) later (echo_ctx_shout wr c fuel host send req w))
  unfolding echo_ctx_shout
  echo_ctx_shout-Settled req w bounded =
      exchange-Settled NoneLeft (echo_shout_reply_trampoline c)
        (echo_shout_reply_trampoline-Handles c) host later fn w ⦃wr = wr⦄ send
        (enc_echo_shout_req ⦃w = wr⦄ (record { req = req })) n fuel bounded enough protocol

  -- `echo_static_shout_anon` with a callback set, for a request that the encoder fits into `n` bytes (`n` at
  -- most half of the address space, more than `n` rounds of fuel), and a library that keeps its
  -- side: either it says that no delivery comes, or pings and one terminal delivery come, during
  -- the call or after it. Whatever fails on the way, the host's callback is called exactly once,
  -- with its own `user_data`, and afterwards the heap has the blocks that it had before, none
  -- freed twice.
  pub echo_static_shout_anon-Settled :
      (req : ShoutRequest) (w : World ShoutResponse)
      → Bounded wr (enc_echo_shout_anon_req ⦃w = wr⦄ (record { req = req })) n
      → Settled NoneLeft host w (
          settle
            (echo_shout_anon_reply_trampoline c)
            later
            (echo_static_shout_anon wr c fuel host send req w))
  unfolding echo_static_shout_anon
  echo_static_shout_anon-Settled req w bounded =
      exchange-Settled NoneLeft (echo_shout_anon_reply_trampoline c)
        (echo_shout_anon_reply_trampoline-Handles c) host later fn w ⦃wr = wr⦄ send
        (enc_echo_shout_anon_req ⦃w = wr⦄ (record { req = req })) n fuel bounded enough protocol

  -- `echo_ctx_version` with a callback set, for a request that the encoder fits into `n` bytes (`n` at
  -- most half of the address space, more than `n` rounds of fuel), and a library that keeps its
  -- side: either it says that no delivery comes, or pings and one terminal delivery come, during
  -- the call or after it. Whatever fails on the way, the host's callback is called exactly once,
  -- with its own `user_data`, and afterwards the heap has the blocks that it had before, none
  -- freed twice.
  pub echo_ctx_version-Settled :
      (w : World CStr)
      → Bounded wr (enc_echo_version_req ⦃w = wr⦄ (record { nimffi_empty = 0 })) n
      → Settled NoneLeft host w
          (settle (echo_version_reply_trampoline c) later (echo_ctx_version wr c fuel host send w))
  unfolding echo_ctx_version
  echo_ctx_version-Settled w bounded =
      exchange-Settled NoneLeft (echo_version_reply_trampoline c)
        (echo_version_reply_trampoline-Handles c) host later fn w ⦃wr = wr⦄ send
        (enc_echo_version_req ⦃w = wr⦄ (record { nimffi_empty = 0 })) n fuel bounded enough protocol

  -- `echo_static_lib_version` with a callback set, for a request that the encoder fits into `n` bytes (`n` at
  -- most half of the address space, more than `n` rounds of fuel), and a library that keeps its
  -- side: either it says that no delivery comes, or pings and one terminal delivery come, during
  -- the call or after it. Whatever fails on the way, the host's callback is called exactly once,
  -- with its own `user_data`, and afterwards the heap has the blocks that it had before, none
  -- freed twice.
  pub echo_static_lib_version-Settled :
      (w : World CStr)
      → Bounded wr (enc_echo_lib_version_req ⦃w = wr⦄ (record { nimffi_empty = 0 })) n
      → Settled NoneLeft host w (
          settle
            (echo_lib_version_reply_trampoline c)
            later
            (echo_static_lib_version wr c fuel host send w))
  unfolding echo_static_lib_version
  echo_static_lib_version-Settled w bounded =
      exchange-Settled NoneLeft (echo_lib_version_reply_trampoline c)
        (echo_lib_version_reply_trampoline-Handles c) host later fn w ⦃wr = wr⦄ send
        (enc_echo_lib_version_req ⦃w = wr⦄ (record { nimffi_empty = 0 })) n fuel bounded enough
        protocol
