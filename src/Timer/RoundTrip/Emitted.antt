-- ===== src/Timer/RoundTrip/Emitted.antt =====
-- Each encoder of the header writes the item that its struct denotes.
use nim_ffi.Base.{ℤ, codes, Bool, ◌==◌, if◌then◌else◌, true, false}
use nim_ffi.Tinycbor.{improper_value, Writer}
use nim_ffi.Tinycbor.Items.{int, bool, text}
use nim_ffi.Tinycbor.Laws.{Wrote, Writes}
use nim_ffi.Cbor.Values.{CStr}
use nim_ffi.Cbor.Enc.{enc_str, enc_i64}
use nim_ffi.Cbor.Struct.{Seq, Opt}
use nim_ffi.Cbor.Emits.{
  one, item_str, item_seq, item_opt, Emits, then-Emits, enc_str-Emits, enc_i64-Emits,
  enc_bool-Emits, enc_field-Emits, enc_map-Emits, empty_map-Emits, enc_seq-Emits, enc_opt-Emits,
}
use nim_ffi.Timer.Types.{
  JobPriority, jp_low, jp_normal, jp_high, TimerConfig, EchoRequest, EchoResponse, ComplexRequest,
  ComplexResponse, EchoEvent, OnJobScheduledPayload, JobSpec, RetryPolicy, ScheduleConfig,
  ScheduleResult, MyTimerCreateCtorReq, MyTimerEchoReq, MyTimerVersionReq, MyTimerLibVersionReq,
  MyTimerComplexReq, MyTimerScheduleReq,
}
use nim_ffi.Timer.Enc.{
  enc_seq_str, enc_opt_str, enc_opt_i64, enc_job_priority, enc_seq_echo_request, enc_timer_config,
  enc_echo_request, enc_echo_response, enc_complex_request, enc_complex_response, enc_echo_event,
  enc_on_job_scheduled_payload, enc_job_spec, enc_retry_policy, enc_schedule_config,
  enc_schedule_result, enc_my_timer_create_ctor_req, enc_my_timer_echo_req,
  enc_my_timer_version_req, enc_my_timer_lib_version_req, enc_my_timer_complex_req,
  enc_my_timer_schedule_req,
}
use nim_ffi.Timer.Items.{
  item_job_priority, item_timer_config, item_echo_request, item_echo_response, item_complex_request,
  item_complex_response, item_echo_event, item_on_job_scheduled_payload, item_job_spec,
  item_retry_policy, item_schedule_config, item_schedule_result, item_my_timer_create_ctor_req,
  item_my_timer_echo_req, item_my_timer_version_req, item_my_timer_lib_version_req,
  item_my_timer_complex_req, item_my_timer_schedule_req,
}

module _ {E : Type 0} ⦃w : Writer E⦄ (ws : Writes w) where
  pub enc_seq_str-Emits : (v : Seq CStr) → Emits ws (one (item_seq item_str v)) (enc_seq_str v)
  unfolding enc_seq_str
  enc_seq_str-Emits = enc_seq-Emits ws item_str enc_str (enc_str-Emits ws)

  pub enc_opt_str-Emits : (v : Opt CStr) → Emits ws (one (item_opt item_str v)) (enc_opt_str v)
  unfolding enc_opt_str
  enc_opt_str-Emits = enc_opt-Emits ws item_str enc_str (enc_str-Emits ws)

  enc_opt_i64-Emits : (v : Opt ℤ) → Emits ws (one (item_opt int v)) (enc_opt_i64 v)
  unfolding enc_opt_i64
  enc_opt_i64-Emits = enc_opt-Emits ws int enc_i64 (enc_i64-Emits ws)

  pub enc_job_priority-Emits :
      (v : JobPriority) → Emits ws (one (item_job_priority v)) (enc_job_priority v)
  unfolding enc_job_priority
  enc_job_priority-Emits v = record {
    emits = λ e. priority e (v == jp_low) (v == jp_normal) (v == jp_high);
  }
    where
      priority :
          (e : E) (low normal high : Bool)
          → Wrote ws.items ws.kind
              (one (
                text
                  (if low then codes "low" else if normal then codes "normal" else codes "high")))
              e
              (if low
                then w.encode_text e (codes "low")
                else if normal
                then w.encode_text e (codes "normal")
                else if high
                then w.encode_text e (codes "high")
                else (improper_value, e))
      priority e true normal high = ws.wrote_text e (codes "low")
      priority e false true high = ws.wrote_text e (codes "normal")
      priority e false false true = ws.wrote_text e (codes "high")
      priority e false false false = λ h. cc

  pub enc_timer_config-Emits :
      (v : TimerConfig) → Emits ws (one (item_timer_config v)) (enc_timer_config v)
  unfolding enc_timer_config
  enc_timer_config-Emits v =
      enc_map-Emits ws 1 _ _
        (enc_field-Emits ws "name" (item_str v.name) _ (enc_str-Emits ws v.name))

  pub enc_echo_request-Emits :
      (v : EchoRequest) → Emits ws (one (item_echo_request v)) (enc_echo_request v)
  unfolding enc_echo_request
  enc_echo_request-Emits v = enc_map-Emits ws 2 _ _ (
      then-Emits ws _ _ _ _
        (enc_field-Emits ws "message" (item_str v.message) _ (enc_str-Emits ws v.message))
        (enc_field-Emits ws "delayMs" (int v.delay_ms) _ (enc_i64-Emits ws v.delay_ms)))

  pub enc_seq_echo_request-Emits :
      (v : Seq EchoRequest) → Emits ws (one (item_seq item_echo_request v)) (enc_seq_echo_request v)
  unfolding enc_seq_echo_request
  enc_seq_echo_request-Emits =
      enc_seq-Emits ws item_echo_request enc_echo_request enc_echo_request-Emits

  pub enc_echo_response-Emits :
      (v : EchoResponse) → Emits ws (one (item_echo_response v)) (enc_echo_response v)
  unfolding enc_echo_response
  enc_echo_response-Emits v = enc_map-Emits ws 2 _ _ (
      then-Emits ws _ _ _ _
        (enc_field-Emits ws "echoed" (item_str v.echoed) _ (enc_str-Emits ws v.echoed))
        (enc_field-Emits ws "timerName" (item_str v.timer_name) _ (enc_str-Emits ws v.timer_name)))

  pub enc_complex_request-Emits :
      (v : ComplexRequest) → Emits ws (one (item_complex_request v)) (enc_complex_request v)
  unfolding enc_complex_request
  enc_complex_request-Emits v = enc_map-Emits ws 4 _ _ (
      then-Emits ws _ _ _ _
        (enc_field-Emits ws "messages" (item_seq item_echo_request v.messages) _
          (enc_seq_echo_request-Emits v.messages))
        (then-Emits ws _ _ _ _
          (enc_field-Emits ws "tags" (item_seq item_str v.tags) _ (enc_seq_str-Emits v.tags))
          (then-Emits ws _ _ _ _
            (enc_field-Emits ws "note" (item_opt item_str v.note) _ (enc_opt_str-Emits v.note))
            (enc_field-Emits ws "retries" (item_opt int v.retries) _
              (enc_opt_i64-Emits v.retries)))))

  pub enc_complex_response-Emits :
      (v : ComplexResponse) → Emits ws (one (item_complex_response v)) (enc_complex_response v)
  unfolding enc_complex_response
  enc_complex_response-Emits v = enc_map-Emits ws 3 _ _ (
      then-Emits ws _ _ _ _
        (enc_field-Emits ws "summary" (item_str v.summary) _ (enc_str-Emits ws v.summary))
        (then-Emits ws _ _ _ _
          (enc_field-Emits ws "itemCount" (int v.item_count) _ (enc_i64-Emits ws v.item_count))
          (enc_field-Emits ws "hasNote" (bool v.has_note) _ (enc_bool-Emits ws v.has_note))))

  pub enc_echo_event-Emits : (v : EchoEvent) → Emits ws (one (item_echo_event v)) (enc_echo_event v)
  unfolding enc_echo_event
  enc_echo_event-Emits v = enc_map-Emits ws 2 _ _ (
      then-Emits ws _ _ _ _
        (enc_field-Emits ws "message" (item_str v.message) _ (enc_str-Emits ws v.message))
        (enc_field-Emits ws "echoCount" (int v.echo_count) _ (enc_i64-Emits ws v.echo_count)))

  pub enc_on_job_scheduled_payload-Emits :
      (v : OnJobScheduledPayload)
      → Emits ws (one (item_on_job_scheduled_payload v)) (enc_on_job_scheduled_payload v)
  unfolding enc_on_job_scheduled_payload
  enc_on_job_scheduled_payload-Emits v = enc_map-Emits ws 2 _ _ (
      then-Emits ws _ _ _ _
        (enc_field-Emits ws "jobId" (item_str v.job_id) _ (enc_str-Emits ws v.job_id))
        (enc_field-Emits ws "willRunCount" (int v.will_run_count) _
          (enc_i64-Emits ws v.will_run_count)))

  pub enc_job_spec-Emits : (v : JobSpec) → Emits ws (one (item_job_spec v)) (enc_job_spec v)
  unfolding enc_job_spec
  enc_job_spec-Emits v = enc_map-Emits ws 3 _ _ (
      then-Emits ws _ _ _ _
        (enc_field-Emits ws "name" (item_str v.name) _ (enc_str-Emits ws v.name))
        (then-Emits ws _ _ _ _
          (enc_field-Emits ws "payload" (item_seq item_str v.payload) _
            (enc_seq_str-Emits v.payload))
          (enc_field-Emits ws "priority" (item_job_priority v.priority) _
            (enc_job_priority-Emits v.priority))))

  pub enc_retry_policy-Emits :
      (v : RetryPolicy) → Emits ws (one (item_retry_policy v)) (enc_retry_policy v)
  unfolding enc_retry_policy
  enc_retry_policy-Emits v = enc_map-Emits ws 3 _ _ (
      then-Emits ws _ _ _ _
        (enc_field-Emits ws "maxAttempts" (int v.max_attempts) _ (enc_i64-Emits ws v.max_attempts))
        (then-Emits ws _ _ _ _
          (enc_field-Emits ws "backoffMs" (int v.backoff_ms) _ (enc_i64-Emits ws v.backoff_ms))
          (enc_field-Emits ws "retryOn" (item_seq item_str v.retry_on) _
            (enc_seq_str-Emits v.retry_on))))

  pub enc_schedule_config-Emits :
      (v : ScheduleConfig) → Emits ws (one (item_schedule_config v)) (enc_schedule_config v)
  unfolding enc_schedule_config
  enc_schedule_config-Emits v = enc_map-Emits ws 3 _ _ (
      then-Emits ws _ _ _ _
        (enc_field-Emits ws "startAtMs" (int v.start_at_ms) _ (enc_i64-Emits ws v.start_at_ms))
        (then-Emits ws _ _ _ _
          (enc_field-Emits ws "intervalMs" (int v.interval_ms) _ (enc_i64-Emits ws v.interval_ms))
          (enc_field-Emits ws "jitter" (item_opt int v.jitter) _ (enc_opt_i64-Emits v.jitter))))

  pub enc_schedule_result-Emits :
      (v : ScheduleResult) → Emits ws (one (item_schedule_result v)) (enc_schedule_result v)
  unfolding enc_schedule_result
  enc_schedule_result-Emits v = enc_map-Emits ws 5 _ _ (
      then-Emits ws _ _ _ _
        (enc_field-Emits ws "jobId" (item_str v.job_id) _ (enc_str-Emits ws v.job_id))
        (then-Emits ws _ _ _ _
          (enc_field-Emits ws "willRunCount" (int v.will_run_count) _
            (enc_i64-Emits ws v.will_run_count))
          (then-Emits ws _ _ _ _
            (enc_field-Emits ws "firstRunAtMs" (int v.first_run_at_ms) _
              (enc_i64-Emits ws v.first_run_at_ms))
            (then-Emits ws _ _ _ _
              (enc_field-Emits ws "effectiveBackoffMs" (int v.effective_backoff_ms) _
                (enc_i64-Emits ws v.effective_backoff_ms))
              (enc_field-Emits ws "priority" (item_job_priority v.priority) _
                (enc_job_priority-Emits v.priority))))))

  pub enc_my_timer_create_ctor_req-Emits :
      (v : MyTimerCreateCtorReq)
      → Emits ws (one (item_my_timer_create_ctor_req v)) (enc_my_timer_create_ctor_req v)
  unfolding enc_my_timer_create_ctor_req
  enc_my_timer_create_ctor_req-Emits v =
      enc_map-Emits ws 1 _ _ (
        enc_field-Emits ws "config" (item_timer_config v.config) _
          (enc_timer_config-Emits v.config))

  pub enc_my_timer_echo_req-Emits :
      (v : MyTimerEchoReq) → Emits ws (one (item_my_timer_echo_req v)) (enc_my_timer_echo_req v)
  unfolding enc_my_timer_echo_req
  enc_my_timer_echo_req-Emits v =
      enc_map-Emits ws 1 _ _
        (enc_field-Emits ws "req" (item_echo_request v.req) _ (enc_echo_request-Emits v.req))

  pub enc_my_timer_version_req-Emits :
      (v : MyTimerVersionReq)
      → Emits ws (one (item_my_timer_version_req v)) (enc_my_timer_version_req v)
  unfolding enc_my_timer_version_req
  enc_my_timer_version_req-Emits v = empty_map-Emits ws 0

  pub enc_my_timer_lib_version_req-Emits :
      (v : MyTimerLibVersionReq)
      → Emits ws (one (item_my_timer_lib_version_req v)) (enc_my_timer_lib_version_req v)
  unfolding enc_my_timer_lib_version_req
  enc_my_timer_lib_version_req-Emits v = empty_map-Emits ws 0

  pub enc_my_timer_complex_req-Emits :
      (v : MyTimerComplexReq)
      → Emits ws (one (item_my_timer_complex_req v)) (enc_my_timer_complex_req v)
  unfolding enc_my_timer_complex_req
  enc_my_timer_complex_req-Emits v =
      enc_map-Emits ws 1 _ _
        (enc_field-Emits ws "req" (item_complex_request v.req) _ (enc_complex_request-Emits v.req))

  pub enc_my_timer_schedule_req-Emits :
      (v : MyTimerScheduleReq)
      → Emits ws (one (item_my_timer_schedule_req v)) (enc_my_timer_schedule_req v)
  unfolding enc_my_timer_schedule_req
  enc_my_timer_schedule_req-Emits v = enc_map-Emits ws 3 _ _ (
      then-Emits ws _ _ _ _
        (enc_field-Emits ws "job" (item_job_spec v.job) _ (enc_job_spec-Emits v.job))
        (then-Emits ws _ _ _ _
          (enc_field-Emits ws "retry" (item_retry_policy v.retry) _
            (enc_retry_policy-Emits v.retry))
          (enc_field-Emits ws "schedule" (item_schedule_config v.schedule) _
            (enc_schedule_config-Emits v.schedule))))
