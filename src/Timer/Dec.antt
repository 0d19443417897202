-- ===== src/Timer/Dec.antt =====
-- The decoders of the header: the test for a map, each field by its key, and the step over it.
use nim_ffi.Base.{ℕ, ℤ, pos, codes, leb, not, list_eq, List, Option, none, some, if◌then◌else◌}
use nim_ffi.Tinycbor.{improper_value, Reader}
use nim_ffi.Cbor.Values.{CStr, null, until_nul, Decoder, ◌>>◌}
use nim_ffi.Cbor.Dec.{fetch, advance_it, dec_bool, dec_i64, dec_str}
use nim_ffi.Cbor.Struct.{Seq, Opt, dec_map, dec_field, dec_seq, dec_opt}
use nim_ffi.Timer.Types.{
  JobPriority, jp_low, jp_normal, jp_high, no_echo_request, TimerConfig, EchoRequest, EchoResponse,
  ComplexRequest, ComplexResponse, EchoEvent, OnJobScheduledPayload, JobSpec, RetryPolicy,
  ScheduleConfig, ScheduleResult, MyTimerCreateCtorReq, MyTimerEchoReq, MyTimerVersionReq,
  MyTimerLibVersionReq, MyTimerComplexReq, MyTimerScheduleReq,
}

-- The three calls of `strcmp` on the buffer, which ends at the first NUL.
unfoldable pub match_job_priority : List ℕ → Option JobPriority
match_job_priority text =
    if list_eq text (codes "low")
    then some jp_low
    else if list_eq text (codes "normal")
    then some jp_normal
    else if list_eq text (codes "high")
    then some jp_high
    else none

module _ {V : Type 0} ⦃c : Reader V⦄ where
  unfoldable pub dec_seq_str : Decoder V (Seq CStr)
  dec_seq_str = dec_seq null dec_str

  unfoldable pub dec_opt_str : Decoder V (Opt CStr)
  dec_opt_str = dec_opt null dec_str

  unfoldable pub dec_opt_i64 : Decoder V (Opt ℤ)
  dec_opt_i64 = dec_opt (pos 0) dec_i64

  unfoldable pub store_job_priority : Option JobPriority → Decoder V JobPriority
  store_job_priority none s = (improper_value, s)
  store_job_priority (some p) s = advance_it (record s { out = p })

  -- The text is copied into a buffer of seven bytes.
  unfoldable pub dec_job_priority : Decoder V JobPriority
  unfolding match_job_priority store_job_priority
  dec_job_priority s =
      if not (c.is_text_string s.it)
      then (improper_value, s)
      else fetch (c.get_string_length s.it) s λ len.
        if leb 7 len
        then (improper_value, s)
        else fetch (c.copy_text_string s.it 7) s
            λ buf. store_job_priority (match_job_priority (until_nul buf)) s

  unfoldable pub dec_timer_config : Decoder V TimerConfig
  dec_timer_config =
      dec_map (dec_field "name" (λ v. v.name) (λ v x. record v { name = x }) dec_str >> advance_it)

  unfoldable pub dec_echo_request : Decoder V EchoRequest
  dec_echo_request = dec_map (
      dec_field "message" (λ v. v.message) (λ v x. record v { message = x }) dec_str
      >> dec_field "delayMs" (λ v. v.delay_ms) (λ v x. record v { delay_ms = x }) dec_i64
      >> advance_it)

  unfoldable pub dec_seq_echo_request : Decoder V (Seq EchoRequest)
  dec_seq_echo_request = dec_seq no_echo_request dec_echo_request

  unfoldable pub dec_echo_response : Decoder V EchoResponse
  dec_echo_response = dec_map (
      dec_field "echoed" (λ v. v.echoed) (λ v x. record v { echoed = x }) dec_str
      >> dec_field "timerName" (λ v. v.timer_name) (λ v x. record v { timer_name = x }) dec_str
      >> advance_it)

  unfoldable pub dec_complex_request : Decoder V ComplexRequest
  dec_complex_request = dec_map (
      dec_field "messages" (λ v. v.messages) (λ v x. record v { messages = x }) dec_seq_echo_request
      >> dec_field "tags" (λ v. v.tags) (λ v x. record v { tags = x }) dec_seq_str
      >> dec_field "note" (λ v. v.note) (λ v x. record v { note = x }) dec_opt_str
      >> dec_field "retries" (λ v. v.retries) (λ v x. record v { retries = x }) dec_opt_i64
      >> advance_it)

  unfoldable pub dec_complex_response : Decoder V ComplexResponse
  dec_complex_response = dec_map (
      dec_field "summary" (λ v. v.summary) (λ v x. record v { summary = x }) dec_str
      >> dec_field "itemCount" (λ v. v.item_count) (λ v x. record v { item_count = x }) dec_i64
      >> dec_field "hasNote" (λ v. v.has_note) (λ v x. record v { has_note = x }) dec_bool
      >> advance_it)

  unfoldable pub dec_echo_event : Decoder V EchoEvent
  dec_echo_event = dec_map (
      dec_field "message" (λ v. v.message) (λ v x. record v { message = x }) dec_str
      >> dec_field "echoCount" (λ v. v.echo_count) (λ v x. record v { echo_count = x }) dec_i64
      >> advance_it)

  unfoldable pub dec_on_job_scheduled_payload : Decoder V OnJobScheduledPayload
  dec_on_job_scheduled_payload = dec_map (
      dec_field "jobId" (λ v. v.job_id) (λ v x. record v { job_id = x }) dec_str
      >> dec_field "willRunCount" (λ v. v.will_run_count) (λ v x. record v { will_run_count = x })
          dec_i64
      >> advance_it)

  unfoldable pub dec_job_spec : Decoder V JobSpec
  dec_job_spec = dec_map (
      dec_field "name" (λ v. v.name) (λ v x. record v { name = x }) dec_str
      >> dec_field "payload" (λ v. v.payload) (λ v x. record v { payload = x }) dec_seq_str
      >> dec_field "priority" (λ v. v.priority) (λ v x. record v { priority = x }) dec_job_priority
      >> advance_it)

  unfoldable pub dec_retry_policy : Decoder V RetryPolicy
  dec_retry_policy = dec_map (
      dec_field "maxAttempts" (λ v. v.max_attempts) (λ v x. record v { max_attempts = x }) dec_i64
      >> dec_field "backoffMs" (λ v. v.backoff_ms) (λ v x. record v { backoff_ms = x }) dec_i64
      >> dec_field "retryOn" (λ v. v.retry_on) (λ v x. record v { retry_on = x }) dec_seq_str
      >> advance_it)

  unfoldable pub dec_schedule_config : Decoder V ScheduleConfig
  dec_schedule_config = dec_map (
      dec_field "startAtMs" (λ v. v.start_at_ms) (λ v x. record v { start_at_ms = x }) dec_i64
      >> dec_field "intervalMs" (λ v. v.interval_ms) (λ v x. record v { interval_ms = x }) dec_i64
      >> dec_field "jitter" (λ v. v.jitter) (λ v x. record v { jitter = x }) dec_opt_i64
      >> advance_it)

  unfoldable pub dec_schedule_result : Decoder V ScheduleResult
  dec_schedule_result = dec_map (
      dec_field "jobId" (λ v. v.job_id) (λ v x. record v { job_id = x }) dec_str
      >> dec_field "willRunCount" (λ v. v.will_run_count) (λ v x. record v { will_run_count = x })
          dec_i64
      >> dec_field "firstRunAtMs" (λ v. v.first_run_at_ms) (λ v x. record v { first_run_at_ms = x })
          dec_i64
      >> dec_field "effectiveBackoffMs" (λ v. v.effective_backoff_ms)
          (λ v x. record v { effective_backoff_ms = x }) dec_i64
      >> dec_field "priority" (λ v. v.priority) (λ v x. record v { priority = x }) dec_job_priority
      >> advance_it)

  unfoldable pub dec_my_timer_create_ctor_req : Decoder V MyTimerCreateCtorReq
  dec_my_timer_create_ctor_req = dec_map (
      dec_field "config" (λ v. v.config) (λ v x. record v { config = x }) dec_timer_config
      >> advance_it)

  unfoldable pub dec_my_timer_echo_req : Decoder V MyTimerEchoReq
  dec_my_timer_echo_req =
      dec_map
        (dec_field "req" (λ v. v.req) (λ v x. record v { req = x }) dec_echo_request >> advance_it)

  unfoldable pub dec_my_timer_version_req : Decoder V MyTimerVersionReq
  dec_my_timer_version_req = dec_map (advance_it)

  unfoldable pub dec_my_timer_lib_version_req : Decoder V MyTimerLibVersionReq
  dec_my_timer_lib_version_req = dec_map (advance_it)

  unfoldable pub dec_my_timer_complex_req : Decoder V MyTimerComplexReq
  dec_my_timer_complex_req =
      dec_map (
        dec_field "req" (λ v. v.req) (λ v x. record v { req = x }) dec_complex_request
        >> advance_it)

  unfoldable pub dec_my_timer_schedule_req : Decoder V MyTimerScheduleReq
  dec_my_timer_schedule_req = dec_map (
      dec_field "job" (λ v. v.job) (λ v x. record v { job = x }) dec_job_spec
      >> dec_field "retry" (λ v. v.retry) (λ v x. record v { retry = x }) dec_retry_policy
      >> dec_field "schedule" (λ v. v.schedule) (λ v x. record v { schedule = x })
          dec_schedule_config
      >> advance_it)
