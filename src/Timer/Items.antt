-- ===== src/Timer/Items.antt =====
-- The item that each struct of the header denotes, and the structs that the binding carries whole.
use nim_ffi.Base.{◌<◌, ◌==◌, codes, if◌then◌else◌}
use nim_ffi.Tinycbor.Items.{Item, int, text, bool, map, nil, cons}
use nim_ffi.Tinycbor.Laws.{IsInt64}
use nim_ffi.Cbor.Emits.{item_str, item_seq, item_opt}
use nim_ffi.Cbor.Fits.{FitsStr, FitsSeq, FitsOpt}
use nim_ffi.Timer.Types.{
  JobPriority, jp_low, jp_normal, TimerConfig, EchoRequest, EchoResponse, ComplexRequest,
  ComplexResponse, EchoEvent, OnJobScheduledPayload, JobSpec, RetryPolicy, ScheduleConfig,
  ScheduleResult, MyTimerCreateCtorReq, MyTimerEchoReq, MyTimerVersionReq, MyTimerLibVersionReq,
  MyTimerComplexReq, MyTimerScheduleReq,
}

-- The text of a priority in range.
abbrev pub item_job_priority : JobPriority → Item
item_job_priority p =
    text
      (if p == jp_low then codes "low" else if p == jp_normal then codes "normal" else codes "high")

abbrev pub FitsJobPriority : JobPriority → Type 0
FitsJobPriority p = p < 3

abbrev pub item_timer_config : TimerConfig → Item
item_timer_config v = map (cons (text (codes "name")) (cons (item_str v.name) nil))

abbrev pub FitsTimerConfig : TimerConfig → Type 0
FitsTimerConfig v = FitsStr v.name

abbrev pub item_echo_request : EchoRequest → Item
item_echo_request v = map (
    cons (text (codes "message"))
      (cons (item_str v.message) (cons (text (codes "delayMs")) (cons (int v.delay_ms) nil))))

abbrev pub FitsEchoRequest : EchoRequest → Type 0
FitsEchoRequest v = FitsStr v.message × IsInt64 v.delay_ms

abbrev pub item_echo_response : EchoResponse → Item
item_echo_response v = map (
    cons (text (codes "echoed")) (
      cons (item_str v.echoed)
        (cons (text (codes "timerName")) (cons (item_str v.timer_name) nil))))

abbrev pub FitsEchoResponse : EchoResponse → Type 0
FitsEchoResponse v = FitsStr v.echoed × FitsStr v.timer_name

abbrev pub item_complex_request : ComplexRequest → Item
item_complex_request v = map (
    cons (text (codes "messages")) (
      cons (item_seq item_echo_request v.messages) (
        cons (text (codes "tags")) (
          cons (item_seq item_str v.tags) (
            cons (text (codes "note")) (
              cons (item_opt item_str v.note)
                (cons (text (codes "retries")) (cons (item_opt int v.retries) nil))))))))

abbrev pub FitsComplexRequest : ComplexRequest → Type 0
FitsComplexRequest v =
    FitsSeq FitsEchoRequest v.messages
    × FitsSeq FitsStr v.tags
    × FitsOpt FitsStr v.note
    × FitsOpt IsInt64 v.retries

abbrev pub item_complex_response : ComplexResponse → Item
item_complex_response v = map (
    cons (text (codes "summary")) (
      cons (item_str v.summary) (
        cons (text (codes "itemCount"))
          (cons (int v.item_count) (cons (text (codes "hasNote")) (cons (bool v.has_note) nil))))))

abbrev pub FitsComplexResponse : ComplexResponse → Type 0
FitsComplexResponse v = FitsStr v.summary × IsInt64 v.item_count

abbrev pub item_echo_event : EchoEvent → Item
item_echo_event v = map (
    cons (text (codes "message"))
      (cons (item_str v.message) (cons (text (codes "echoCount")) (cons (int v.echo_count) nil))))

abbrev pub FitsEchoEvent : EchoEvent → Type 0
FitsEchoEvent v = FitsStr v.message × IsInt64 v.echo_count

abbrev pub item_on_job_scheduled_payload : OnJobScheduledPayload → Item
item_on_job_scheduled_payload v = map (
    cons (text (codes "jobId")) (
      cons (item_str v.job_id)
        (cons (text (codes "willRunCount")) (cons (int v.will_run_count) nil))))

abbrev pub FitsOnJobScheduledPayload : OnJobScheduledPayload → Type 0
FitsOnJobScheduledPayload v = FitsStr v.job_id × IsInt64 v.will_run_count

abbrev pub item_job_spec : JobSpec → Item
item_job_spec v = map (
    cons (text (codes "name")) (
      cons (item_str v.name) (
        cons (text (codes "payload")) (
          cons (item_seq item_str v.payload)
            (cons (text (codes "priority")) (cons (item_job_priority v.priority) nil))))))

abbrev pub FitsJobSpec : JobSpec → Type 0
FitsJobSpec v = FitsStr v.name × FitsSeq FitsStr v.payload × FitsJobPriority v.priority

abbrev pub item_retry_policy : RetryPolicy → Item
item_retry_policy v = map (
    cons (text (codes "maxAttempts")) (
      cons (int v.max_attempts) (
        cons (text (codes "backoffMs")) (
          cons (int v.backoff_ms)
            (cons (text (codes "retryOn")) (cons (item_seq item_str v.retry_on) nil))))))

abbrev pub FitsRetryPolicy : RetryPolicy → Type 0
FitsRetryPolicy v = IsInt64 v.max_attempts × IsInt64 v.backoff_ms × FitsSeq FitsStr v.retry_on

abbrev pub item_schedule_config : ScheduleConfig → Item
item_schedule_config v = map (
    cons (text (codes "startAtMs")) (
      cons (int v.start_at_ms) (
        cons (text (codes "intervalMs")) (
          cons (int v.interval_ms)
            (cons (text (codes "jitter")) (cons (item_opt int v.jitter) nil))))))

abbrev pub FitsScheduleConfig : ScheduleConfig → Type 0
FitsScheduleConfig v = IsInt64 v.start_at_ms × IsInt64 v.interval_ms × FitsOpt IsInt64 v.jitter

abbrev pub item_schedule_result : ScheduleResult → Item
item_schedule_result v = map (
    cons (text (codes "jobId")) (
      cons (item_str v.job_id) (
        cons (text (codes "willRunCount")) (
          cons (int v.will_run_count) (
            cons (text (codes "firstRunAtMs")) (
              cons (int v.first_run_at_ms) (
                cons (text (codes "effectiveBackoffMs")) (
                  cons (int v.effective_backoff_ms) (
                    cons (text (codes "priority"))
                      (cons (item_job_priority v.priority) nil))))))))))

abbrev pub FitsScheduleResult : ScheduleResult → Type 0
FitsScheduleResult v =
    FitsStr v.job_id
    × IsInt64 v.will_run_count
    × IsInt64 v.first_run_at_ms
    × IsInt64 v.effective_backoff_ms
    × FitsJobPriority v.priority

abbrev pub item_my_timer_create_ctor_req : MyTimerCreateCtorReq → Item
item_my_timer_create_ctor_req v =
    map (cons (text (codes "config")) (cons (item_timer_config v.config) nil))

abbrev pub FitsMyTimerCreateCtorReq : MyTimerCreateCtorReq → Type 0
FitsMyTimerCreateCtorReq v = FitsTimerConfig v.config

abbrev pub item_my_timer_echo_req : MyTimerEchoReq → Item
item_my_timer_echo_req v = map (cons (text (codes "req")) (cons (item_echo_request v.req) nil))

abbrev pub FitsMyTimerEchoReq : MyTimerEchoReq → Type 0
FitsMyTimerEchoReq v = FitsEchoRequest v.req

abbrev pub item_my_timer_version_req : MyTimerVersionReq → Item
item_my_timer_version_req v = map (nil)

abbrev pub FitsMyTimerVersionReq : MyTimerVersionReq → Type 0
FitsMyTimerVersionReq v = Unit {0}

abbrev pub item_my_timer_lib_version_req : MyTimerLibVersionReq → Item
item_my_timer_lib_version_req v = map (nil)

abbrev pub FitsMyTimerLibVersionReq : MyTimerLibVersionReq → Type 0
FitsMyTimerLibVersionReq v = Unit {0}

abbrev pub item_my_timer_complex_req : MyTimerComplexReq → Item
item_my_timer_complex_req v =
    map (cons (text (codes "req")) (cons (item_complex_request v.req) nil))

abbrev pub FitsMyTimerComplexReq : MyTimerComplexReq → Type 0
FitsMyTimerComplexReq v = FitsComplexRequest v.req

abbrev pub item_my_timer_schedule_req : MyTimerScheduleReq → Item
item_my_timer_schedule_req v = map (
    cons (text (codes "job")) (
      cons (item_job_spec v.job) (
        cons (text (codes "retry")) (
          cons (item_retry_policy v.retry)
            (cons (text (codes "schedule")) (cons (item_schedule_config v.schedule) nil))))))

abbrev pub FitsMyTimerScheduleReq : MyTimerScheduleReq → Type 0
FitsMyTimerScheduleReq v =
    FitsJobSpec v.job × FitsRetryPolicy v.retry × FitsScheduleConfig v.schedule
