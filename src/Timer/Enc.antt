-- ===== src/Timer/Enc.antt =====
-- The encoders of the header: a map with an entry for each field, in the order of the struct.
use nim_ffi.Base.{ℤ, codes, ◌==◌, if◌then◌else◌}
use nim_ffi.Tinycbor.{no_error, improper_value, Writer}
use nim_ffi.Cbor.Values.{CStr, Encoder, ◌>>◌}
use nim_ffi.Cbor.Enc.{enc_bool, enc_i64, enc_str}
use nim_ffi.Cbor.Struct.{Seq, Opt, enc_map, enc_field, enc_seq, enc_opt}
use nim_ffi.Timer.Types.{
  JobPriority, jp_low, jp_normal, jp_high, TimerConfig, EchoRequest, EchoResponse, ComplexRequest,
  ComplexResponse, EchoEvent, OnJobScheduledPayload, JobSpec, RetryPolicy, ScheduleConfig,
  ScheduleResult, MyTimerCreateCtorReq, MyTimerEchoReq, MyTimerVersionReq, MyTimerLibVersionReq,
  MyTimerComplexReq, MyTimerScheduleReq,
}

module _ {E : Type 0} ⦃w : Writer E⦄ where
  unfoldable pub enc_seq_str : Seq CStr → Encoder E
  enc_seq_str = enc_seq enc_str

  unfoldable pub enc_opt_str : Opt CStr → Encoder E
  enc_opt_str = enc_opt enc_str

  unfoldable pub enc_opt_i64 : Opt ℤ → Encoder E
  enc_opt_i64 = enc_opt enc_i64

  unfoldable pub enc_job_priority : JobPriority → Encoder E
  enc_job_priority v e =
      if v == jp_low
      then w.encode_text e (codes "low")
      else if v == jp_normal
      then w.encode_text e (codes "normal")
      else if v == jp_high
      then w.encode_text e (codes "high")
      else (improper_value, e)

  unfoldable pub enc_timer_config : TimerConfig → Encoder E
  enc_timer_config v = enc_map 1 (enc_field "name" (enc_str v.name))

  unfoldable pub enc_echo_request : EchoRequest → Encoder E
  enc_echo_request v =
      enc_map 2
        (enc_field "message" (enc_str v.message) >> enc_field "delayMs" (enc_i64 v.delay_ms))

  unfoldable pub enc_seq_echo_request : Seq EchoRequest → Encoder E
  enc_seq_echo_request = enc_seq enc_echo_request

  unfoldable pub enc_echo_response : EchoResponse → Encoder E
  enc_echo_response v =
      enc_map 2
        (enc_field "echoed" (enc_str v.echoed) >> enc_field "timerName" (enc_str v.timer_name))

  unfoldable pub enc_complex_request : ComplexRequest → Encoder E
  enc_complex_request v = enc_map 4 (
      enc_field "messages" (enc_seq_echo_request v.messages)
      >> enc_field "tags" (enc_seq_str v.tags)
      >> enc_field "note" (enc_opt_str v.note)
      >> enc_field "retries" (enc_opt_i64 v.retries))

  unfoldable pub enc_complex_response : ComplexResponse → Encoder E
  enc_complex_response v = enc_map 3 (
      enc_field "summary" (enc_str v.summary)
      >> enc_field "itemCount" (enc_i64 v.item_count)
      >> enc_field "hasNote" (enc_bool v.has_note))

  unfoldable pub enc_echo_event : EchoEvent → Encoder E
  enc_echo_event v =
      enc_map 2
        (enc_field "message" (enc_str v.message) >> enc_field "echoCount" (enc_i64 v.echo_count))

  unfoldable pub enc_on_job_scheduled_payload : OnJobScheduledPayload → Encoder E
  enc_on_job_scheduled_payload v =
      enc_map 2 (
        enc_field "jobId" (enc_str v.job_id) >> enc_field "willRunCount" (enc_i64 v.will_run_count))

  unfoldable pub enc_job_spec : JobSpec → Encoder E
  enc_job_spec v = enc_map 3 (
      enc_field "name" (enc_str v.name)
      >> enc_field "payload" (enc_seq_str v.payload)
      >> enc_field "priority" (enc_job_priority v.priority))

  unfoldable pub enc_retry_policy : RetryPolicy → Encoder E
  enc_retry_policy v = enc_map 3 (
      enc_field "maxAttempts" (enc_i64 v.max_attempts)
      >> enc_field "backoffMs" (enc_i64 v.backoff_ms)
      >> enc_field "retryOn" (enc_seq_str v.retry_on))

  unfoldable pub enc_schedule_config : ScheduleConfig → Encoder E
  enc_schedule_config v = enc_map 3 (
      enc_field "startAtMs" (enc_i64 v.start_at_ms)
      >> enc_field "intervalMs" (enc_i64 v.interval_ms)
      >> enc_field "jitter" (enc_opt_i64 v.jitter))

  unfoldable pub enc_schedule_result : ScheduleResult → Encoder E
  enc_schedule_result v = enc_map 5 (
      enc_field "jobId" (enc_str v.job_id)
      >> enc_field "willRunCount" (enc_i64 v.will_run_count)
      >> enc_field "firstRunAtMs" (enc_i64 v.first_run_at_ms)
      >> enc_field "effectiveBackoffMs" (enc_i64 v.effective_backoff_ms)
      >> enc_field "priority" (enc_job_priority v.priority))

  unfoldable pub enc_my_timer_create_ctor_req : MyTimerCreateCtorReq → Encoder E
  enc_my_timer_create_ctor_req v = enc_map 1 (enc_field "config" (enc_timer_config v.config))

  unfoldable pub enc_my_timer_echo_req : MyTimerEchoReq → Encoder E
  enc_my_timer_echo_req v = enc_map 1 (enc_field "req" (enc_echo_request v.req))

  unfoldable pub enc_my_timer_version_req : MyTimerVersionReq → Encoder E
  enc_my_timer_version_req v = enc_map 0 (λ m. (no_error, m))

  unfoldable pub enc_my_timer_lib_version_req : MyTimerLibVersionReq → Encoder E
  enc_my_timer_lib_version_req v = enc_map 0 (λ m. (no_error, m))

  unfoldable pub enc_my_timer_complex_req : MyTimerComplexReq → Encoder E
  enc_my_timer_complex_req v = enc_map 1 (enc_field "req" (enc_complex_request v.req))

  unfoldable pub enc_my_timer_schedule_req : MyTimerScheduleReq → Encoder E
  enc_my_timer_schedule_req v = enc_map 3 (
      enc_field "job" (enc_job_spec v.job)
      >> enc_field "retry" (enc_retry_policy v.retry)
      >> enc_field "schedule" (enc_schedule_config v.schedule))
