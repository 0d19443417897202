-- ===== src/Timer/RoundTrip/Trips.antt =====
-- Each message of the header: encoded into a buffer and decoded from it.
use nim_ffi.Base.{ℕ, ◌<◌, Bool}
use nim_ffi.Heap.{Heap}
use nim_ffi.Tinycbor.{Writer, Reader}
use nim_ffi.Tinycbor.Laws.{Writes, Reads, Parses}
use nim_ffi.Cbor.Buf.{encode_to_buf}
use nim_ffi.Cbor.Reading.{Plenty}
use nim_ffi.Cbor.Trip.{Carried, Wants, trip-Carried}
use nim_ffi.Timer.Types.{
  MyTimerCreateCtorReq, MyTimerEchoReq, MyTimerComplexReq, MyTimerScheduleReq, EchoEvent,
  OnJobScheduledPayload, EchoResponse, ComplexResponse, ScheduleResult, no_my_timer_create_ctor_req,
  no_my_timer_echo_req, no_my_timer_complex_req, no_my_timer_schedule_req, no_echo_event,
  no_on_job_scheduled_payload, no_echo_response, no_complex_response, no_schedule_result,
}
use nim_ffi.Timer.Enc.{
  enc_my_timer_create_ctor_req, enc_my_timer_echo_req, enc_my_timer_complex_req,
  enc_my_timer_schedule_req, enc_echo_event, enc_on_job_scheduled_payload, enc_echo_response,
  enc_complex_response, enc_schedule_result,
}
use nim_ffi.Timer.Dec.{
  dec_my_timer_create_ctor_req, dec_my_timer_echo_req, dec_my_timer_complex_req,
  dec_my_timer_schedule_req, dec_echo_event, dec_on_job_scheduled_payload, dec_echo_response,
  dec_complex_response, dec_schedule_result,
}
use nim_ffi.Timer.Items.{
  item_my_timer_create_ctor_req, item_my_timer_echo_req, item_my_timer_complex_req,
  item_my_timer_schedule_req, item_echo_event, item_on_job_scheduled_payload, item_echo_response,
  item_complex_response, item_schedule_result, FitsMyTimerCreateCtorReq, FitsMyTimerEchoReq,
  FitsMyTimerComplexReq, FitsMyTimerScheduleReq, FitsEchoEvent, FitsOnJobScheduledPayload,
  FitsEchoResponse, FitsComplexResponse, FitsScheduleResult,
}
use nim_ffi.Timer.RoundTrip.Emitted.{
  enc_my_timer_create_ctor_req-Emits, enc_my_timer_echo_req-Emits, enc_my_timer_complex_req-Emits,
  enc_my_timer_schedule_req-Emits, enc_echo_event-Emits, enc_on_job_scheduled_payload-Emits,
  enc_echo_response-Emits, enc_complex_response-Emits, enc_schedule_result-Emits,
}
use nim_ffi.Timer.RoundTrip.ReadBack.{
  dec_echo_event-Denotes, dec_on_job_scheduled_payload-Denotes, dec_echo_response-Denotes,
  dec_complex_response-Denotes,
}
use nim_ffi.Timer.RoundTrip.Requests.{
  dec_my_timer_create_ctor_req-Denotes, dec_my_timer_echo_req-Denotes,
  dec_my_timer_complex_req-Denotes, dec_my_timer_schedule_req-Denotes, dec_schedule_result-Denotes,
}

module _ {E V : Type 0} (w : Writer E) (c : Reader V) (ws : Writes w) (rs : Reads c) (n fuel : ℕ)
    (enough : n < fuel) (wants : Bool) (g : Heap) (lasts : Plenty g) (h : Heap)
    (full : Plenty h) where
  -- For a lawful TinyCBOR that parses a buffer with just this item, a `MyTimerCreateCtorReq` whose integers have 64 bits, whose strings are shorter than
  -- the address space and whose enums are in range, an encoder that needs at most `n` bytes and
  -- fails only for lack of room, more than `n` rounds of fuel, and memory that lasts:
  -- `nimffi_encode_to_buf` returns a buffer, and `nimffi_decode_from_buf` on it, in any heap where
  -- memory lasts, succeeds with a value that denotes the same data item.
  pub my_timer_create_ctor_req-trip :
      (v : MyTimerCreateCtorReq)
      → FitsMyTimerCreateCtorReq v
      → Parses ws rs (item_my_timer_create_ctor_req v)
      → Wants ⦃w = w⦄ (enc_my_timer_create_ctor_req ⦃w = w⦄ v) n
      → Carried ⦃c = c⦄ item_my_timer_create_ctor_req
          (item_my_timer_create_ctor_req v)
          no_my_timer_create_ctor_req
          (dec_my_timer_create_ctor_req ⦃c = c⦄)
          h
          (encode_to_buf ⦃w = w⦄ fuel wants (enc_my_timer_create_ctor_req ⦃w = w⦄ v) g)
  my_timer_create_ctor_req-trip v fits parses need =
      trip-Carried ⦃w = w⦄ ⦃c = c⦄ ws rs item_my_timer_create_ctor_req
        (item_my_timer_create_ctor_req v) parses no_my_timer_create_ctor_req _ _
        (enc_my_timer_create_ctor_req-Emits ⦃w = w⦄ ws v)
        (dec_my_timer_create_ctor_req-Denotes ⦃c = c⦄ rs v fits) h full n fuel wants g need enough
        lasts

  -- For a lawful TinyCBOR that parses a buffer with just this item, a `MyTimerEchoReq` whose integers have 64 bits, whose strings are shorter than
  -- the address space and whose enums are in range, an encoder that needs at most `n` bytes and
  -- fails only for lack of room, more than `n` rounds of fuel, and memory that lasts:
  -- `nimffi_encode_to_buf` returns a buffer, and `nimffi_decode_from_buf` on it, in any heap where
  -- memory lasts, succeeds with a value that denotes the same data item.
  pub my_timer_echo_req-trip :
      (v : MyTimerEchoReq)
      → FitsMyTimerEchoReq v
      → Parses ws rs (item_my_timer_echo_req v)
      → Wants ⦃w = w⦄ (enc_my_timer_echo_req ⦃w = w⦄ v) n
      → Carried ⦃c = c⦄ item_my_timer_echo_req
          (item_my_timer_echo_req v)
          no_my_timer_echo_req
          (dec_my_timer_echo_req ⦃c = c⦄)
          h
          (encode_to_buf ⦃w = w⦄ fuel wants (enc_my_timer_echo_req ⦃w = w⦄ v) g)
  my_timer_echo_req-trip v fits parses need =
      trip-Carried ⦃w = w⦄ ⦃c = c⦄ ws rs item_my_timer_echo_req (item_my_timer_echo_req v) parses
        no_my_timer_echo_req _ _ (enc_my_timer_echo_req-Emits ⦃w = w⦄ ws v)
        (dec_my_timer_echo_req-Denotes ⦃c = c⦄ rs v fits) h full n fuel wants g need enough lasts

  -- For a lawful TinyCBOR that parses a buffer with just this item, a `MyTimerComplexReq` whose integers have 64 bits, whose strings are shorter than
  -- the address space and whose enums are in range, an encoder that needs at most `n` bytes and
  -- fails only for lack of room, more than `n` rounds of fuel, and memory that lasts:
  -- `nimffi_encode_to_buf` returns a buffer, and `nimffi_decode_from_buf` on it, in any heap where
  -- memory lasts, succeeds with a value that denotes the same data item.
  pub my_timer_complex_req-trip :
      (v : MyTimerComplexReq)
      → FitsMyTimerComplexReq v
      → Parses ws rs (item_my_timer_complex_req v)
      → Wants ⦃w = w⦄ (enc_my_timer_complex_req ⦃w = w⦄ v) n
      → Carried ⦃c = c⦄ item_my_timer_complex_req
          (item_my_timer_complex_req v)
          no_my_timer_complex_req
          (dec_my_timer_complex_req ⦃c = c⦄)
          h
          (encode_to_buf ⦃w = w⦄ fuel wants (enc_my_timer_complex_req ⦃w = w⦄ v) g)
  my_timer_complex_req-trip v fits parses need =
      trip-Carried ⦃w = w⦄ ⦃c = c⦄ ws rs item_my_timer_complex_req (item_my_timer_complex_req v)
        parses no_my_timer_complex_req _ _ (enc_my_timer_complex_req-Emits ⦃w = w⦄ ws v)
        (dec_my_timer_complex_req-Denotes ⦃c = c⦄ rs v fits) h full n fuel wants g need enough lasts

  -- For a lawful TinyCBOR that parses a buffer with just this item, a `MyTimerScheduleReq` whose integers have 64 bits, whose strings are shorter than
  -- the address space and whose enums are in range, an encoder that needs at most `n` bytes and
  -- fails only for lack of room, more than `n` rounds of fuel, and memory that lasts:
  -- `nimffi_encode_to_buf` returns a buffer, and `nimffi_decode_from_buf` on it, in any heap where
  -- memory lasts, succeeds with a value that denotes the same data item.
  pub my_timer_schedule_req-trip :
      (v : MyTimerScheduleReq)
      → FitsMyTimerScheduleReq v
      → Parses ws rs (item_my_timer_schedule_req v)
      → Wants ⦃w = w⦄ (enc_my_timer_schedule_req ⦃w = w⦄ v) n
      → Carried ⦃c = c⦄ item_my_timer_schedule_req
          (item_my_timer_schedule_req v)
          no_my_timer_schedule_req
          (dec_my_timer_schedule_req ⦃c = c⦄)
          h
          (encode_to_buf ⦃w = w⦄ fuel wants (enc_my_timer_schedule_req ⦃w = w⦄ v) g)
  my_timer_schedule_req-trip v fits parses need =
      trip-Carried ⦃w = w⦄ ⦃c = c⦄ ws rs item_my_timer_schedule_req (item_my_timer_schedule_req v)
        parses no_my_timer_schedule_req _ _ (enc_my_timer_schedule_req-Emits ⦃w = w⦄ ws v)
        (dec_my_timer_schedule_req-Denotes ⦃c = c⦄ rs v fits) h full n fuel wants g need enough
        lasts

  -- For a lawful TinyCBOR that parses a buffer with just this item, a `EchoEvent` whose integers have 64 bits, whose strings are shorter than
  -- the address space and whose enums are in range, an encoder that needs at most `n` bytes and
  -- fails only for lack of room, more than `n` rounds of fuel, and memory that lasts:
  -- `nimffi_encode_to_buf` returns a buffer, and `nimffi_decode_from_buf` on it, in any heap where
  -- memory lasts, succeeds with a value that denotes the same data item.
  pub echo_event-trip :
      (v : EchoEvent)
      → FitsEchoEvent v
      → Parses ws rs (item_echo_event v)
      → Wants ⦃w = w⦄ (enc_echo_event ⦃w = w⦄ v) n
      → Carried ⦃c = c⦄ item_echo_event
          (item_echo_event v)
          no_echo_event
          (dec_echo_event ⦃c = c⦄)
          h
          (encode_to_buf ⦃w = w⦄ fuel wants (enc_echo_event ⦃w = w⦄ v) g)
  echo_event-trip v fits parses need =
      trip-Carried ⦃w = w⦄ ⦃c = c⦄ ws rs item_echo_event (item_echo_event v) parses no_echo_event _
        _ (enc_echo_event-Emits ⦃w = w⦄ ws v) (dec_echo_event-Denotes ⦃c = c⦄ rs v fits) h full n
        fuel wants g need enough lasts

  -- For a lawful TinyCBOR that parses a buffer with just this item, a `OnJobScheduledPayload` whose integers have 64 bits, whose strings are shorter than
  -- the address space and whose enums are in range, an encoder that needs at most `n` bytes and
  -- fails only for lack of room, more than `n` rounds of fuel, and memory that lasts:
  -- `nimffi_encode_to_buf` returns a buffer, and `nimffi_decode_from_buf` on it, in any heap where
  -- memory lasts, succeeds with a value that denotes the same data item.
  pub on_job_scheduled_payload-trip :
      (v : OnJobScheduledPayload)
      → FitsOnJobScheduledPayload v
      → Parses ws rs (item_on_job_scheduled_payload v)
      → Wants ⦃w = w⦄ (enc_on_job_scheduled_payload ⦃w = w⦄ v) n
      → Carried ⦃c = c⦄ item_on_job_scheduled_payload
          (item_on_job_scheduled_payload v)
          no_on_job_scheduled_payload
          (dec_on_job_scheduled_payload ⦃c = c⦄)
          h
          (encode_to_buf ⦃w = w⦄ fuel wants (enc_on_job_scheduled_payload ⦃w = w⦄ v) g)
  on_job_scheduled_payload-trip v fits parses need =
      trip-Carried ⦃w = w⦄ ⦃c = c⦄ ws rs item_on_job_scheduled_payload
        (item_on_job_scheduled_payload v) parses no_on_job_scheduled_payload _ _
        (enc_on_job_scheduled_payload-Emits ⦃w = w⦄ ws v)
        (dec_on_job_scheduled_payload-Denotes ⦃c = c⦄ rs v fits) h full n fuel wants g need enough
        lasts

  -- For a lawful TinyCBOR that parses a buffer with just this item, a `EchoResponse` whose integers have 64 bits, whose strings are shorter than
  -- the address space and whose enums are in range, an encoder that needs at most `n` bytes and
  -- fails only for lack of room, more than `n` rounds of fuel, and memory that lasts:
  -- `nimffi_encode_to_buf` returns a buffer, and `nimffi_decode_from_buf` on it, in any heap where
  -- memory lasts, succeeds with a value that denotes the same data item.
  pub echo_response-trip :
      (v : EchoResponse)
      → FitsEchoResponse v
      → Parses ws rs (item_echo_response v)
      → Wants ⦃w = w⦄ (enc_echo_response ⦃w = w⦄ v) n
      → Carried ⦃c = c⦄ item_echo_response
          (item_echo_response v)
          no_echo_response
          (dec_echo_response ⦃c = c⦄)
          h
          (encode_to_buf ⦃w = w⦄ fuel wants (enc_echo_response ⦃w = w⦄ v) g)
  echo_response-trip v fits parses need =
      trip-Carried ⦃w = w⦄ ⦃c = c⦄ ws rs item_echo_response (item_echo_response v) parses
        no_echo_response _ _ (enc_echo_response-Emits ⦃w = w⦄ ws v)
        (dec_echo_response-Denotes ⦃c = c⦄ rs v fits) h full n fuel wants g need enough lasts

  -- For a lawful TinyCBOR that parses a buffer with just this item, a `ComplexResponse` whose integers have 64 bits, whose strings are shorter than
  -- the address space and whose enums are in range, an encoder that needs at most `n` bytes and
  -- fails only for lack of room, more than `n` rounds of fuel, and memory that lasts:
  -- `nimffi_encode_to_buf` returns a buffer, and `nimffi_decode_from_buf` on it, in any heap where
  -- memory lasts, succeeds with a value that denotes the same data item.
  pub complex_response-trip :
      (v : ComplexResponse)
      → FitsComplexResponse v
      → Parses ws rs (item_complex_response v)
      → Wants ⦃w = w⦄ (enc_complex_response ⦃w = w⦄ v) n
      → Carried ⦃c = c⦄ item_complex_response
          (item_complex_response v)
          no_complex_response
          (dec_complex_response ⦃c = c⦄)
          h
          (encode_to_buf ⦃w = w⦄ fuel wants (enc_complex_response ⦃w = w⦄ v) g)
  complex_response-trip v fits parses need =
      trip-Carried ⦃w = w⦄ ⦃c = c⦄ ws rs item_complex_response (item_complex_response v) parses
        no_complex_response _ _ (enc_complex_response-Emits ⦃w = w⦄ ws v)
        (dec_complex_response-Denotes ⦃c = c⦄ rs v fits) h full n fuel wants g need enough lasts

  -- For a lawful TinyCBOR that parses a buffer with just this item, a `ScheduleResult` whose integers have 64 bits, whose strings are shorter than
  -- the address space and whose enums are in range, an encoder that needs at most `n` bytes and
  -- fails only for lack of room, more than `n` rounds of fuel, and memory that lasts:
  -- `nimffi_encode_to_buf` returns a buffer, and `nimffi_decode_from_buf` on it, in any heap where
  -- memory lasts, succeeds with a value that denotes the same data item.
  pub schedule_result-trip :
      (v : ScheduleResult)
      → FitsScheduleResult v
      → Parses ws rs (item_schedule_result v)
      → Wants ⦃w = w⦄ (enc_schedule_result ⦃w = w⦄ v) n
      → Carried ⦃c = c⦄ item_schedule_result
          (item_schedule_result v)
          no_schedule_result
          (dec_schedule_result ⦃c = c⦄)
          h
          (encode_to_buf ⦃w = w⦄ fuel wants (enc_schedule_result ⦃w = w⦄ v) g)
  schedule_result-trip v fits parses need =
      trip-Carried ⦃w = w⦄ ⦃c = c⦄ ws rs item_schedule_result (item_schedule_result v) parses
        no_schedule_result _ _ (enc_schedule_result-Emits ⦃w = w⦄ ws v)
        (dec_schedule_result-Denotes ⦃c = c⦄ rs v fits) h full n fuel wants g need enough lasts
