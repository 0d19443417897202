-- ===== src/Timer/Memory/Owned.antt =====
-- What each struct of the header owns.
use nim_ffi.Base.{◌+◌}
use nim_ffi.Heap.Laws.{Owned}
use nim_ffi.Cbor.Values.{owned_str}
use nim_ffi.Cbor.Memory.{owned_seq, owned_opt}
use nim_ffi.Timer.Types.{
  TimerConfig, EchoRequest, EchoResponse, ComplexRequest, ComplexResponse, EchoEvent,
  OnJobScheduledPayload, JobSpec, RetryPolicy, ScheduleConfig, ScheduleResult, MyTimerCreateCtorReq,
  MyTimerEchoReq, MyTimerVersionReq, MyTimerLibVersionReq, MyTimerComplexReq, MyTimerScheduleReq,
}

abbrev pub owned_timer_config : TimerConfig → Owned
owned_timer_config v a = owned_str v.name a

abbrev pub owned_echo_request : EchoRequest → Owned
owned_echo_request v a = owned_str v.message a

abbrev pub owned_echo_response : EchoResponse → Owned
owned_echo_response v a = owned_str v.echoed a + owned_str v.timer_name a

abbrev pub owned_complex_request : ComplexRequest → Owned
owned_complex_request v a =
    owned_seq owned_echo_request v.messages a
    + (owned_seq owned_str v.tags a + owned_opt owned_str v.note a)

abbrev pub owned_complex_response : ComplexResponse → Owned
owned_complex_response v a = owned_str v.summary a

abbrev pub owned_echo_event : EchoEvent → Owned
owned_echo_event v a = owned_str v.message a

abbrev pub owned_on_job_scheduled_payload : OnJobScheduledPayload → Owned
owned_on_job_scheduled_payload v a = owned_str v.job_id a

abbrev pub owned_job_spec : JobSpec → Owned
owned_job_spec v a = owned_str v.name a + owned_seq owned_str v.payload a

abbrev pub owned_retry_policy : RetryPolicy → Owned
owned_retry_policy v a = owned_seq owned_str v.retry_on a

abbrev pub owned_schedule_config : ScheduleConfig → Owned
owned_schedule_config v a = 0

abbrev pub owned_schedule_result : ScheduleResult → Owned
owned_schedule_result v a = owned_str v.job_id a

abbrev pub owned_my_timer_create_ctor_req : MyTimerCreateCtorReq → Owned
owned_my_timer_create_ctor_req v a = owned_timer_config v.config a

abbrev pub owned_my_timer_echo_req : MyTimerEchoReq → Owned
owned_my_timer_echo_req v a = owned_echo_request v.req a

abbrev pub owned_my_timer_version_req : MyTimerVersionReq → Owned
owned_my_timer_version_req v a = 0

abbrev pub owned_my_timer_lib_version_req : MyTimerLibVersionReq → Owned
owned_my_timer_lib_version_req v a = 0

abbrev pub owned_my_timer_complex_req : MyTimerComplexReq → Owned
owned_my_timer_complex_req v a = owned_complex_request v.req a

abbrev pub owned_my_timer_schedule_req : MyTimerScheduleReq → Owned
owned_my_timer_schedule_req v a = owned_job_spec v.job a + owned_retry_policy v.retry a
