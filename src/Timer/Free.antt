-- ===== src/Timer/Free.antt =====
-- The free functions of the header, for the structs that own memory.
use nim_ffi.Heap.{Heap}
use nim_ffi.Cbor.Values.{CStr, free_str}
use nim_ffi.Cbor.Struct.{Seq, Opt, free_seq, free_opt}
use nim_ffi.Timer.Types.{
  TimerConfig, EchoRequest, EchoResponse, ComplexRequest, ComplexResponse, EchoEvent,
  OnJobScheduledPayload, JobSpec, RetryPolicy, ScheduleResult, MyTimerCreateCtorReq, MyTimerEchoReq,
  MyTimerComplexReq, MyTimerScheduleReq,
}

unfoldable pub free_seq_str : Seq CStr → Heap → Seq CStr × Heap
free_seq_str = free_seq free_str

unfoldable pub free_opt_str : Opt CStr → Heap → Opt CStr × Heap
free_opt_str = free_opt free_str

unfoldable pub free_timer_config : TimerConfig → Heap → TimerConfig × Heap
free_timer_config v h = let (name', h1) = free_str v.name h in (record v { name = name' }, h1)

unfoldable pub free_echo_request : EchoRequest → Heap → EchoRequest × Heap
free_echo_request v h =
    let (message', h1) = free_str v.message h in (record v { message = message' }, h1)

unfoldable pub free_seq_echo_request : Seq EchoRequest → Heap → Seq EchoRequest × Heap
free_seq_echo_request = free_seq free_echo_request

unfoldable pub free_echo_response : EchoResponse → Heap → EchoResponse × Heap
free_echo_response v h =
    let (echoed', h1) = free_str v.echoed h in
    let (timer_name', h2) = free_str v.timer_name h1 in
    (record v { echoed = echoed'; timer_name = timer_name' }, h2)

unfoldable pub free_complex_request : ComplexRequest → Heap → ComplexRequest × Heap
free_complex_request v h =
    let (messages', h1) = free_seq_echo_request v.messages h in
    let (tags', h2) = free_seq_str v.tags h1 in
    let (note', h3) = free_opt_str v.note h2 in
    (record v { messages = messages'; tags = tags'; note = note' }, h3)

unfoldable pub free_complex_response : ComplexResponse → Heap → ComplexResponse × Heap
free_complex_response v h =
    let (summary', h1) = free_str v.summary h in (record v { summary = summary' }, h1)

unfoldable pub free_echo_event : EchoEvent → Heap → EchoEvent × Heap
free_echo_event v h =
    let (message', h1) = free_str v.message h in (record v { message = message' }, h1)

unfoldable pub free_on_job_scheduled_payload :
    OnJobScheduledPayload → Heap → OnJobScheduledPayload × Heap
free_on_job_scheduled_payload v h =
    let (job_id', h1) = free_str v.job_id h in (record v { job_id = job_id' }, h1)

unfoldable pub free_job_spec : JobSpec → Heap → JobSpec × Heap
free_job_spec v h =
    let (name', h1) = free_str v.name h in
    let (payload', h2) = free_seq_str v.payload h1 in
    (record v { name = name'; payload = payload' }, h2)

unfoldable pub free_retry_policy : RetryPolicy → Heap → RetryPolicy × Heap
free_retry_policy v h =
    let (retry_on', h1) = free_seq_str v.retry_on h in (record v { retry_on = retry_on' }, h1)

unfoldable pub free_schedule_result : ScheduleResult → Heap → ScheduleResult × Heap
free_schedule_result v h =
    let (job_id', h1) = free_str v.job_id h in (record v { job_id = job_id' }, h1)

unfoldable pub free_my_timer_create_ctor_req :
    MyTimerCreateCtorReq → Heap → MyTimerCreateCtorReq × Heap
free_my_timer_create_ctor_req v h =
    let (config', h1) = free_timer_config v.config h in (record v { config = config' }, h1)

unfoldable pub free_my_timer_echo_req : MyTimerEchoReq → Heap → MyTimerEchoReq × Heap
free_my_timer_echo_req v h =
    let (req', h1) = free_echo_request v.req h in (record v { req = req' }, h1)

unfoldable pub free_my_timer_complex_req : MyTimerComplexReq → Heap → MyTimerComplexReq × Heap
free_my_timer_complex_req v h =
    let (req', h1) = free_complex_request v.req h in (record v { req = req' }, h1)

unfoldable pub free_my_timer_schedule_req : MyTimerScheduleReq → Heap → MyTimerScheduleReq × Heap
free_my_timer_schedule_req v h =
    let (job', h1) = free_job_spec v.job h in
    let (retry', h2) = free_retry_policy v.retry h1 in (record v { job = job'; retry = retry' }, h2)
