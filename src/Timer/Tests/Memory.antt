-- ===== src/Timer/Tests/Memory.antt =====
-- Values that are decoded, in part where an allocation fails, and freed.
use nim_ffi.Base.{ℕ, true, List}
use nim_ffi.Heap.Laws.{Gains}
use nim_ffi.Tinycbor.Items.{nil, cons}
use nim_ffi.Tinycbor.Model.{print_all}
use nim_ffi.Tinycbor.Model.Source.{item_reader}
use nim_ffi.Cbor.Buf.{decode_from_buf}
use nim_ffi.Cbor.Balance.{release_all}
use nim_ffi.Timer.Types.{no_complex_request, no_my_timer_schedule_req}
use nim_ffi.Timer.Dec.{dec_complex_request, dec_my_timer_schedule_req}
use nim_ffi.Timer.Free.{free_complex_request, free_my_timer_schedule_req}
use nim_ffi.Timer.Items.{
  item_timer_config, item_echo_request, item_complex_request, item_job_spec, item_retry_policy,
  item_echo_response, item_complex_response, item_schedule_result, item_my_timer_create_ctor_req,
  item_my_timer_echo_req, item_my_timer_complex_req, item_my_timer_schedule_req, item_echo_event,
  item_on_job_scheduled_payload,
}
use nim_ffi.Timer.Memory.Balance.{complex_request-Balances, my_timer_schedule_req-Balances}
use nim_ffi.Timer.Tests.Data.{
  tight_heap, create_req, complex_req, complex_request, complex_response, echo_event, echo_req,
  echo_request, echo_response, job, job_event, retry, schedule_req, schedule_result,
}

abbrev timer_config_bytes : List ℕ
timer_config_bytes = print_all (cons (item_timer_config (create_req.config)) nil)

abbrev echo_request_bytes : List ℕ
echo_request_bytes = print_all (cons (item_echo_request echo_request) nil)

abbrev complex_request_bytes : List ℕ
complex_request_bytes = print_all (cons (item_complex_request complex_request) nil)

complex_request-Balances_example :
    Gains
      (λ _. 0)
      tight_heap
      (release_all free_complex_request (
        decode_from_buf ⦃c = item_reader⦄ true
          (dec_complex_request ⦃c = item_reader⦄)
          complex_request_bytes
          no_complex_request
          tight_heap))
complex_request-Balances_example =
    complex_request-Balances item_reader true complex_request_bytes tight_heap

abbrev job_spec_bytes : List ℕ
job_spec_bytes = print_all (cons (item_job_spec job) nil)

abbrev retry_policy_bytes : List ℕ
retry_policy_bytes = print_all (cons (item_retry_policy retry) nil)

abbrev echo_response_bytes : List ℕ
echo_response_bytes = print_all (cons (item_echo_response echo_response) nil)

abbrev complex_response_bytes : List ℕ
complex_response_bytes = print_all (cons (item_complex_response complex_response) nil)

abbrev schedule_result_bytes : List ℕ
schedule_result_bytes = print_all (cons (item_schedule_result schedule_result) nil)

abbrev my_timer_create_ctor_req_bytes : List ℕ
my_timer_create_ctor_req_bytes = print_all (cons (item_my_timer_create_ctor_req create_req) nil)

abbrev my_timer_echo_req_bytes : List ℕ
my_timer_echo_req_bytes = print_all (cons (item_my_timer_echo_req echo_req) nil)

abbrev my_timer_complex_req_bytes : List ℕ
my_timer_complex_req_bytes = print_all (cons (item_my_timer_complex_req complex_req) nil)

abbrev my_timer_schedule_req_bytes : List ℕ
my_timer_schedule_req_bytes = print_all (cons (item_my_timer_schedule_req schedule_req) nil)

my_timer_schedule_req-Balances_example :
    Gains
      (λ _. 0)
      tight_heap
      (release_all free_my_timer_schedule_req (
        decode_from_buf ⦃c = item_reader⦄ true
          (dec_my_timer_schedule_req ⦃c = item_reader⦄)
          my_timer_schedule_req_bytes
          no_my_timer_schedule_req
          tight_heap))
my_timer_schedule_req-Balances_example =
    my_timer_schedule_req-Balances item_reader true my_timer_schedule_req_bytes tight_heap

abbrev echo_event_bytes : List ℕ
echo_event_bytes = print_all (cons (item_echo_event echo_event) nil)

abbrev on_job_scheduled_payload_bytes : List ℕ
on_job_scheduled_payload_bytes = print_all (cons (item_on_job_scheduled_payload job_event) nil)
