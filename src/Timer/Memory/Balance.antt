-- ===== src/Timer/Memory/Balance.antt =====
-- Each struct of the header: decoded from a buffer and freed again.
use nim_ffi.Base.{ℕ, Bool, List, refl}
use nim_ffi.Heap.{Heap}
use nim_ffi.Heap.Laws.{Gains}
use nim_ffi.Cbor.Buf.{decode_from_buf}
use nim_ffi.Tinycbor.{Reader}
use nim_ffi.Cbor.Balance.{release_all, freed-Balances}
use nim_ffi.Timer.Types.{
  no_timer_config, no_echo_request, no_complex_request, no_job_spec, no_retry_policy,
  no_echo_response, no_complex_response, no_schedule_result, no_my_timer_create_ctor_req,
  no_my_timer_echo_req, no_my_timer_complex_req, no_my_timer_schedule_req, no_echo_event,
  no_on_job_scheduled_payload,
}
use nim_ffi.Timer.Dec.{
  dec_timer_config, dec_echo_request, dec_complex_request, dec_job_spec, dec_retry_policy,
  dec_echo_response, dec_complex_response, dec_schedule_result, dec_my_timer_create_ctor_req,
  dec_my_timer_echo_req, dec_my_timer_complex_req, dec_my_timer_schedule_req, dec_echo_event,
  dec_on_job_scheduled_payload,
}
use nim_ffi.Timer.Free.{
  free_timer_config, free_echo_request, free_complex_request, free_job_spec, free_retry_policy,
  free_echo_response, free_complex_response, free_schedule_result, free_my_timer_create_ctor_req,
  free_my_timer_echo_req, free_my_timer_complex_req, free_my_timer_schedule_req, free_echo_event,
  free_on_job_scheduled_payload,
}
use nim_ffi.Timer.Memory.Owned.{
  owned_timer_config, owned_echo_request, owned_complex_request, owned_job_spec, owned_retry_policy,
  owned_echo_response, owned_complex_response, owned_schedule_result,
  owned_my_timer_create_ctor_req, owned_my_timer_echo_req, owned_my_timer_complex_req,
  owned_my_timer_schedule_req, owned_echo_event, owned_on_job_scheduled_payload,
}
use nim_ffi.Timer.Memory.Decoded.{
  dec_timer_config-Sound, dec_echo_request-Sound, dec_complex_request-Sound, dec_job_spec-Sound,
  dec_retry_policy-Sound, dec_echo_response-Sound, dec_complex_response-Sound,
  dec_schedule_result-Sound, dec_my_timer_create_ctor_req-Sound, dec_my_timer_echo_req-Sound,
  dec_my_timer_complex_req-Sound, dec_my_timer_schedule_req-Sound, dec_echo_event-Sound,
  dec_on_job_scheduled_payload-Sound,
}
use nim_ffi.Timer.Memory.Freed.{
  free_timer_config-Frees, free_echo_request-Frees, free_complex_request-Frees, free_job_spec-Frees,
  free_retry_policy-Frees, free_echo_response-Frees, free_complex_response-Frees,
  free_schedule_result-Frees, free_my_timer_create_ctor_req-Frees, free_my_timer_echo_req-Frees,
  free_my_timer_complex_req-Frees, free_my_timer_schedule_req-Frees, free_echo_event-Frees,
  free_on_job_scheduled_payload-Frees,
}

module _ {V : Type 0} (c : Reader V) where
  -- For every byte buffer, every reader and every heap: `nimffi_decode_from_buf` with the decoder of
  -- `TimerConfig` into a zeroed struct, with or without an error text, followed by freeing the error text
  -- and by the free function of `TimerConfig`, leaves exactly the blocks that were allocated before, and
  -- frees none twice; also where the decoding stops half way.
  pub timer_config-Balances :
      (wants : Bool) (buf : List ℕ) (h : Heap)
      → Gains
          (λ _. 0)
          h
          (release_all free_timer_config
            (decode_from_buf ⦃c = c⦄ wants (dec_timer_config ⦃c = c⦄) buf no_timer_config h))
  timer_config-Balances =
      freed-Balances ⦃c = c⦄ owned_timer_config no_timer_config _ free_timer_config
        (dec_timer_config-Sound ⦃c = c⦄) (λ a. refl) free_timer_config-Frees

  -- For every byte buffer, every reader and every heap: `nimffi_decode_from_buf` with the decoder of
  -- `EchoRequest` into a zeroed struct, with or without an error text, followed by freeing the error text
  -- and by the free function of `EchoRequest`, leaves exactly the blocks that were allocated before, and
  -- frees none twice; also where the decoding stops half way.
  pub echo_request-Balances :
      (wants : Bool) (buf : List ℕ) (h : Heap)
      → Gains
          (λ _. 0)
          h
          (release_all free_echo_request
            (decode_from_buf ⦃c = c⦄ wants (dec_echo_request ⦃c = c⦄) buf no_echo_request h))
  echo_request-Balances =
      freed-Balances ⦃c = c⦄ owned_echo_request no_echo_request _ free_echo_request
        (dec_echo_request-Sound ⦃c = c⦄) (λ a. refl) free_echo_request-Frees

  -- For every byte buffer, every reader and every heap: `nimffi_decode_from_buf` with the decoder of
  -- `ComplexRequest` into a zeroed struct, with or without an error text, followed by freeing the error text
  -- and by the free function of `ComplexRequest`, leaves exactly the blocks that were allocated before, and
  -- frees none twice; also where the decoding stops half way.
  pub complex_request-Balances :
      (wants : Bool) (buf : List ℕ) (h : Heap)
      → Gains
          (λ _. 0)
          h
          (release_all free_complex_request
            (decode_from_buf ⦃c = c⦄ wants (dec_complex_request ⦃c = c⦄) buf no_complex_request h))
  complex_request-Balances =
      freed-Balances ⦃c = c⦄ owned_complex_request no_complex_request _ free_complex_request
        (dec_complex_request-Sound ⦃c = c⦄) (λ a. refl) free_complex_request-Frees

  -- For every byte buffer, every reader and every heap: `nimffi_decode_from_buf` with the decoder of
  -- `JobSpec` into a zeroed struct, with or without an error text, followed by freeing the error text
  -- and by the free function of `JobSpec`, leaves exactly the blocks that were allocated before, and
  -- frees none twice; also where the decoding stops half way.
  pub job_spec-Balances :
      (wants : Bool) (buf : List ℕ) (h : Heap)
      → Gains
          (λ _. 0)
          h
          (release_all free_job_spec
            (decode_from_buf ⦃c = c⦄ wants (dec_job_spec ⦃c = c⦄) buf no_job_spec h))
  job_spec-Balances =
      freed-Balances ⦃c = c⦄ owned_job_spec no_job_spec _ free_job_spec (dec_job_spec-Sound ⦃c = c⦄)
        (λ a. refl) free_job_spec-Frees

  -- For every byte buffer, every reader and every heap: `nimffi_decode_from_buf` with the decoder of
  -- `RetryPolicy` into a zeroed struct, with or without an error text, followed by freeing the error text
  -- and by the free function of `RetryPolicy`, leaves exactly the blocks that were allocated before, and
  -- frees none twice; also where the decoding stops half way.
  pub retry_policy-Balances :
      (wants : Bool) (buf : List ℕ) (h : Heap)
      → Gains
          (λ _. 0)
          h
          (release_all free_retry_policy
            (decode_from_buf ⦃c = c⦄ wants (dec_retry_policy ⦃c = c⦄) buf no_retry_policy h))
  retry_policy-Balances =
      freed-Balances ⦃c = c⦄ owned_retry_policy no_retry_policy _ free_retry_policy
        (dec_retry_policy-Sound ⦃c = c⦄) (λ a. refl) free_retry_policy-Frees

  -- For every byte buffer, every reader and every heap: `nimffi_decode_from_buf` with the decoder of
  -- `EchoResponse` into a zeroed struct, with or without an error text, followed by freeing the error text
  -- and by the free function of `EchoResponse`, leaves exactly the blocks that were allocated before, and
  -- frees none twice; also where the decoding stops half way.
  pub echo_response-Balances :
      (wants : Bool) (buf : List ℕ) (h : Heap)
      → Gains
          (λ _. 0)
          h
          (release_all free_echo_response
            (decode_from_buf ⦃c = c⦄ wants (dec_echo_response ⦃c = c⦄) buf no_echo_response h))
  echo_response-Balances =
      freed-Balances ⦃c = c⦄ owned_echo_response no_echo_response _ free_echo_response
        (dec_echo_response-Sound ⦃c = c⦄) (λ a. refl) free_echo_response-Frees

  -- For every byte buffer, every reader and every heap: `nimffi_decode_from_buf` with the decoder of
  -- `ComplexResponse` into a zeroed struct, with or without an error text, followed by freeing the error text
  -- and by the free function of `ComplexResponse`, leaves exactly the blocks that were allocated before, and
  -- frees none twice; also where the decoding stops half way.
  pub complex_response-Balances :
      (wants : Bool) (buf : List ℕ) (h : Heap)
      → Gains
          (λ _. 0)
          h
          (release_all free_complex_response (
            decode_from_buf ⦃c = c⦄ wants (dec_complex_response ⦃c = c⦄) buf no_complex_response h))
  complex_response-Balances =
      freed-Balances ⦃c = c⦄ owned_complex_response no_complex_response _ free_complex_response
        (dec_complex_response-Sound ⦃c = c⦄) (λ a. refl) free_complex_response-Frees

  -- For every byte buffer, every reader and every heap: `nimffi_decode_from_buf` with the decoder of
  -- `ScheduleResult` into a zeroed struct, with or without an error text, followed by freeing the error text
  -- and by the free function of `ScheduleResult`, leaves exactly the blocks that were allocated before, and
  -- frees none twice; also where the decoding stops half way.
  pub schedule_result-Balances :
      (wants : Bool) (buf : List ℕ) (h : Heap)
      → Gains
          (λ _. 0)
          h
          (release_all free_schedule_result
            (decode_from_buf ⦃c = c⦄ wants (dec_schedule_result ⦃c = c⦄) buf no_schedule_result h))
  schedule_result-Balances =
      freed-Balances ⦃c = c⦄ owned_schedule_result no_schedule_result _ free_schedule_result
        (dec_schedule_result-Sound ⦃c = c⦄) (λ a. refl) free_schedule_result-Frees

  -- For every byte buffer, every reader and every heap: `nimffi_decode_from_buf` with the decoder of
  -- `MyTimerCreateCtorReq` into a zeroed struct, with or without an error text, followed by freeing the error text
  -- and by the free function of `MyTimerCreateCtorReq`, leaves exactly the blocks that were allocated before, and
  -- frees none twice; also where the decoding stops half way.
  pub my_timer_create_ctor_req-Balances :
      (wants : Bool) (buf : List ℕ) (h : Heap)
      → Gains
          (λ _. 0)
          h
          (release_all free_my_timer_create_ctor_req (
            decode_from_buf ⦃c = c⦄ wants
              (dec_my_timer_create_ctor_req ⦃c = c⦄)
              buf
              no_my_timer_create_ctor_req
              h))
  my_timer_create_ctor_req-Balances =
      freed-Balances ⦃c = c⦄ owned_my_timer_create_ctor_req no_my_timer_create_ctor_req _
        free_my_timer_create_ctor_req (dec_my_timer_create_ctor_req-Sound ⦃c = c⦄) (λ a. refl)
        free_my_timer_create_ctor_req-Frees

  -- For every byte buffer, every reader and every heap: `nimffi_decode_from_buf` with the decoder of
  -- `MyTimerEchoReq` into a zeroed struct, with or without an error text, followed by freeing the error text
  -- and by the free function of `MyTimerEchoReq`, leaves exactly the blocks that were allocated before, and
  -- frees none twice; also where the decoding stops half way.
  pub my_timer_echo_req-Balances :
      (wants : Bool) (buf : List ℕ) (h : Heap)
      → Gains
          (λ _. 0)
          h
          (release_all free_my_timer_echo_req (
            decode_from_buf ⦃c = c⦄ wants
              (dec_my_timer_echo_req ⦃c = c⦄)
              buf
              no_my_timer_echo_req
              h))
  my_timer_echo_req-Balances =
      freed-Balances ⦃c = c⦄ owned_my_timer_echo_req no_my_timer_echo_req _ free_my_timer_echo_req
        (dec_my_timer_echo_req-Sound ⦃c = c⦄) (λ a. refl) free_my_timer_echo_req-Frees

  -- For every byte buffer, every reader and every heap: `nimffi_decode_from_buf` with the decoder of
  -- `MyTimerComplexReq` into a zeroed struct, with or without an error text, followed by freeing the error text
  -- and by the free function of `MyTimerComplexReq`, leaves exactly the blocks that were allocated before, and
  -- frees none twice; also where the decoding stops half way.
  pub my_timer_complex_req-Balances :
      (wants : Bool) (buf : List ℕ) (h : Heap)
      → Gains
          (λ _. 0)
          h
          (release_all free_my_timer_complex_req (
            decode_from_buf ⦃c = c⦄ wants
              (dec_my_timer_complex_req ⦃c = c⦄)
              buf
              no_my_timer_complex_req
              h))
  my_timer_complex_req-Balances =
      freed-Balances ⦃c = c⦄ owned_my_timer_complex_req no_my_timer_complex_req _
        free_my_timer_complex_req (dec_my_timer_complex_req-Sound ⦃c = c⦄) (λ a. refl)
        free_my_timer_complex_req-Frees

  -- For every byte buffer, every reader and every heap: `nimffi_decode_from_buf` with the decoder of
  -- `MyTimerScheduleReq` into a zeroed struct, with or without an error text, followed by freeing the error text
  -- and by the free function of `MyTimerScheduleReq`, leaves exactly the blocks that were allocated before, and
  -- frees none twice; also where the decoding stops half way.
  pub my_timer_schedule_req-Balances :
      (wants : Bool) (buf : List ℕ) (h : Heap)
      → Gains
          (λ _. 0)
          h
          (release_all free_my_timer_schedule_req (
            decode_from_buf ⦃c = c⦄ wants
              (dec_my_timer_schedule_req ⦃c = c⦄)
              buf
              no_my_timer_schedule_req
              h))
  my_timer_schedule_req-Balances =
      freed-Balances ⦃c = c⦄ owned_my_timer_schedule_req no_my_timer_schedule_req _
        free_my_timer_schedule_req (dec_my_timer_schedule_req-Sound ⦃c = c⦄) (λ a. refl)
        free_my_timer_schedule_req-Frees

  -- For every byte buffer, every reader and every heap: `nimffi_decode_from_buf` with the decoder of
  -- `EchoEvent` into a zeroed struct, with or without an error text, followed by freeing the error text
  -- and by the free function of `EchoEvent`, leaves exactly the blocks that were allocated before, and
  -- frees none twice; also where the decoding stops half way.
  pub echo_event-Balances :
      (wants : Bool) (buf : List ℕ) (h : Heap)
      → Gains
          (λ _. 0)
          h
          (release_all free_echo_event
            (decode_from_buf ⦃c = c⦄ wants (dec_echo_event ⦃c = c⦄) buf no_echo_event h))
  echo_event-Balances =
      freed-Balances ⦃c = c⦄ owned_echo_event no_echo_event _ free_echo_event
        (dec_echo_event-Sound ⦃c = c⦄) (λ a. refl) free_echo_event-Frees

  -- For every byte buffer, every reader and every heap: `nimffi_decode_from_buf` with the decoder of
  -- `OnJobScheduledPayload` into a zeroed struct, with or without an error text, followed by freeing the error text
  -- and by the free function of `OnJobScheduledPayload`, leaves exactly the blocks that were allocated before, and
  -- frees none twice; also where the decoding stops half way.
  pub on_job_scheduled_payload-Balances :
      (wants : Bool) (buf : List ℕ) (h : Heap)
      → Gains
          (λ _. 0)
          h
          (release_all free_on_job_scheduled_payload (
            decode_from_buf ⦃c = c⦄ wants
              (dec_on_job_scheduled_payload ⦃c = c⦄)
              buf
              no_on_job_scheduled_payload
              h))
  on_job_scheduled_payload-Balances =
      freed-Balances ⦃c = c⦄ owned_on_job_scheduled_payload no_on_job_scheduled_payload _
        free_on_job_scheduled_payload (dec_on_job_scheduled_payload-Sound ⦃c = c⦄) (λ a. refl)
        free_on_job_scheduled_payload-Frees
