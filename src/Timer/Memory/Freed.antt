-- ===== src/Timer/Memory/Freed.antt =====
-- Each free function of the header gives back exactly what the struct owns.
use nim_ffi.Heap.Laws.{frees-both}
use nim_ffi.Cbor.Values.{owned_str}
use nim_ffi.Cbor.Memory.{owned_seq, owned_opt}
use nim_ffi.Cbor.Values.{free_str}
use nim_ffi.Cbor.Release.{Frees, free_str-Frees, free_seq-Frees, free_opt-Frees}
use nim_ffi.Timer.Free.{
  free_seq_str, free_opt_str, free_seq_echo_request, free_timer_config, free_echo_request,
  free_echo_response, free_complex_request, free_complex_response, free_echo_event,
  free_on_job_scheduled_payload, free_job_spec, free_retry_policy, free_schedule_result,
  free_my_timer_create_ctor_req, free_my_timer_echo_req, free_my_timer_complex_req,
  free_my_timer_schedule_req,
}
use nim_ffi.Timer.Memory.Owned.{
  owned_timer_config, owned_echo_request, owned_echo_response, owned_complex_request,
  owned_complex_response, owned_echo_event, owned_on_job_scheduled_payload, owned_job_spec,
  owned_retry_policy, owned_schedule_result, owned_my_timer_create_ctor_req,
  owned_my_timer_echo_req, owned_my_timer_complex_req, owned_my_timer_schedule_req,
}

pub free_seq_str-Frees : Frees (owned_seq owned_str) free_seq_str
unfolding free_seq_str
free_seq_str-Frees = free_seq-Frees owned_str free_str free_str-Frees

pub free_opt_str-Frees : Frees (owned_opt owned_str) free_opt_str
unfolding free_opt_str
free_opt_str-Frees = free_opt-Frees owned_str free_str free_str-Frees

pub free_timer_config-Frees : Frees owned_timer_config free_timer_config
unfolding free_timer_config
free_timer_config-Frees v h = free_str-Frees v.name _

pub free_echo_request-Frees : Frees owned_echo_request free_echo_request
unfolding free_echo_request
free_echo_request-Frees v h = free_str-Frees v.message _

pub free_seq_echo_request-Frees : Frees (owned_seq owned_echo_request) free_seq_echo_request
unfolding free_seq_echo_request
free_seq_echo_request-Frees =
    free_seq-Frees owned_echo_request free_echo_request free_echo_request-Frees

pub free_echo_response-Frees : Frees owned_echo_response free_echo_response
unfolding free_echo_response
free_echo_response-Frees v h =
    frees-both (free_str-Frees v.echoed _) (free_str-Frees v.timer_name _)

pub free_complex_request-Frees : Frees owned_complex_request free_complex_request
unfolding free_complex_request
free_complex_request-Frees v h =
    frees-both (free_seq_echo_request-Frees v.messages _)
      (frees-both (free_seq_str-Frees v.tags _) (free_opt_str-Frees v.note _))

pub free_complex_response-Frees : Frees owned_complex_response free_complex_response
unfolding free_complex_response
free_complex_response-Frees v h = free_str-Frees v.summary _

pub free_echo_event-Frees : Frees owned_echo_event free_echo_event
unfolding free_echo_event
free_echo_event-Frees v h = free_str-Frees v.message _

pub free_on_job_scheduled_payload-Frees :
    Frees owned_on_job_scheduled_payload free_on_job_scheduled_payload
unfolding free_on_job_scheduled_payload
free_on_job_scheduled_payload-Frees v h = free_str-Frees v.job_id _

pub free_job_spec-Frees : Frees owned_job_spec free_job_spec
unfolding free_job_spec
free_job_spec-Frees v h = frees-both (free_str-Frees v.name _) (free_seq_str-Frees v.payload _)

pub free_retry_policy-Frees : Frees owned_retry_policy free_retry_policy
unfolding free_retry_policy
free_retry_policy-Frees v h = free_seq_str-Frees v.retry_on _

pub free_schedule_result-Frees : Frees owned_schedule_result free_schedule_result
unfolding free_schedule_result
free_schedule_result-Frees v h = free_str-Frees v.job_id _

pub free_my_timer_create_ctor_req-Frees :
    Frees owned_my_timer_create_ctor_req free_my_timer_create_ctor_req
unfolding free_my_timer_create_ctor_req
free_my_timer_create_ctor_req-Frees v h = free_timer_config-Frees v.config _

pub free_my_timer_echo_req-Frees : Frees owned_my_timer_echo_req free_my_timer_echo_req
unfolding free_my_timer_echo_req
free_my_timer_echo_req-Frees v h = free_echo_request-Frees v.req _

pub free_my_timer_complex_req-Frees : Frees owned_my_timer_complex_req free_my_timer_complex_req
unfolding free_my_timer_complex_req
free_my_timer_complex_req-Frees v h = free_complex_request-Frees v.req _

pub free_my_timer_schedule_req-Frees : Frees owned_my_timer_schedule_req free_my_timer_schedule_req
unfolding free_my_timer_schedule_req
free_my_timer_schedule_req-Frees v h =
    frees-both (free_job_spec-Frees v.job _) (free_retry_policy-Frees v.retry _)
