-- ===== src/Timer/Types.antt =====
-- The structs of the header, and the zeroed value of each.
use nim_ffi.Base.{ℕ, ℤ, pos, Bool, false}
use nim_ffi.Cbor.Values.{CStr, null}
use nim_ffi.Cbor.Struct.{Seq, Opt, no_items, no_value}

-- A C enum: `jp_low` to `jp_high`, and any other value is out of range.
abbrev pub JobPriority : Type 0
JobPriority = ℕ

abbrev pub jp_low : JobPriority
jp_low = 0

abbrev pub jp_normal : JobPriority
jp_normal = 1

abbrev pub jp_high : JobPriority
jp_high = 2

pub record TimerConfig : Type 0 where
  pub name : CStr

abbrev pub no_timer_config : TimerConfig
no_timer_config = record { name = null }

pub record EchoRequest : Type 0 where
  pub message : CStr
  pub delay_ms : ℤ

abbrev pub no_echo_request : EchoRequest
no_echo_request = record { message = null; delay_ms = pos 0 }

pub record EchoResponse : Type 0 where
  pub echoed : CStr
  pub timer_name : CStr

abbrev pub no_echo_response : EchoResponse
no_echo_response = record { echoed = null; timer_name = null }

pub record ComplexRequest : Type 0 where
  pub messages : Seq EchoRequest
  pub tags : Seq CStr
  pub note : Opt CStr
  pub retries : Opt ℤ

abbrev pub no_complex_request : ComplexRequest
no_complex_request = record {
  messages = no_items;
  tags = no_items;
  note = no_value null;
  retries = no_value (pos 0);
}

pub record ComplexResponse : Type 0 where
  pub summary : CStr
  pub item_count : ℤ
  pub has_note : Bool

abbrev pub no_complex_response : ComplexResponse
no_complex_response = record { summary = null; item_count = pos 0; has_note = false }

pub record EchoEvent : Type 0 where
  pub message : CStr
  pub echo_count : ℤ

abbrev pub no_echo_event : EchoEvent
no_echo_event = record { message = null; echo_count = pos 0 }

pub record OnJobScheduledPayload : Type 0 where
  pub job_id : CStr
  pub will_run_count : ℤ

abbrev pub no_on_job_scheduled_payload : OnJobScheduledPayload
no_on_job_scheduled_payload = record { job_id = null; will_run_count = pos 0 }

pub record JobSpec : Type 0 where
  pub name : CStr
  pub payload : Seq CStr
  pub priority : JobPriority

abbrev pub no_job_spec : JobSpec
no_job_spec = record { name = null; payload = no_items; priority = 0 }

pub record RetryPolicy : Type 0 where
  pub max_attempts : ℤ
  pub backoff_ms : ℤ
  pub retry_on : Seq CStr

abbrev pub no_retry_policy : RetryPolicy
no_retry_policy = record { max_attempts = pos 0; backoff_ms = pos 0; retry_on = no_items }

pub record ScheduleConfig : Type 0 where
  pub start_at_ms : ℤ
  pub interval_ms : ℤ
  pub jitter : Opt ℤ

abbrev pub no_schedule_config : ScheduleConfig
no_schedule_config = record { start_at_ms = pos 0; interval_ms = pos 0; jitter = no_value (pos 0) }

pub record ScheduleResult : Type 0 where
  pub job_id : CStr
  pub will_run_count : ℤ
  pub first_run_at_ms : ℤ
  pub effective_backoff_ms : ℤ
  pub priority : JobPriority

abbrev pub no_schedule_result : ScheduleResult
no_schedule_result = record {
  job_id = null;
  will_run_count = pos 0;
  first_run_at_ms = pos 0;
  effective_backoff_ms = pos 0;
  priority = 0;
}

pub record MyTimerCreateCtorReq : Type 0 where
  pub config : TimerConfig

abbrev pub no_my_timer_create_ctor_req : MyTimerCreateCtorReq
no_my_timer_create_ctor_req = record { config = no_timer_config }

pub record MyTimerEchoReq : Type 0 where
  pub req : EchoRequest

abbrev pub no_my_timer_echo_req : MyTimerEchoReq
no_my_timer_echo_req = record { req = no_echo_request }

-- C forbids empty structs; the placeholder byte is never read.
pub record MyTimerVersionReq : Type 0 where
  pub nimffi_empty : ℕ

abbrev pub no_my_timer_version_req : MyTimerVersionReq
no_my_timer_version_req = record { nimffi_empty = 0 }

-- C forbids empty structs; the placeholder byte is never read.
pub record MyTimerLibVersionReq : Type 0 where
  pub nimffi_empty : ℕ

abbrev pub no_my_timer_lib_version_req : MyTimerLibVersionReq
no_my_timer_lib_version_req = record { nimffi_empty = 0 }

pub record MyTimerComplexReq : Type 0 where
  pub req : ComplexRequest

abbrev pub no_my_timer_complex_req : MyTimerComplexReq
no_my_timer_complex_req = record { req = no_complex_request }

pub record MyTimerScheduleReq : Type 0 where
  pub job : JobSpec
  pub retry : RetryPolicy
  pub schedule : ScheduleConfig

abbrev pub no_my_timer_schedule_req : MyTimerScheduleReq
no_my_timer_schedule_req = record {
  job = no_job_spec;
  retry = no_retry_policy;
  schedule = no_schedule_config;
}
