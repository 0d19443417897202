-- ===== src/Timer/Tests/Data.antt =====
-- A writer whose buffers have room, heaps, and values to run on.
use nim_ffi.Base.{pos, ◌^◌, ◌==◌, true, false, none, some, [], ◌∷◌, codes}
use nim_ffi.Heap.{Heap}
use nim_ffi.Tinycbor.{Writer}
use nim_ffi.Tinycbor.Items.{Item, nil, cons}
use nim_ffi.Tinycbor.Model.{Sink, sink, print_all}
use nim_ffi.Cbor.Values.{CStr, chars}
use nim_ffi.Timer.Types.{
  jp_high, MyTimerScheduleReq, MyTimerComplexReq, MyTimerEchoReq, MyTimerCreateCtorReq,
  MyTimerVersionReq, MyTimerLibVersionReq, EchoEvent, OnJobScheduledPayload, EchoRequest,
  EchoResponse, ComplexRequest, ComplexResponse, JobSpec, RetryPolicy, ScheduleConfig,
  ScheduleResult,
}
use nim_ffi.Binding.Reply.{World, Delivery, CallBox}
use nim_ffi.Binding.Call.{Host}

unfoldable pub roomy : Writer Sink
unfolding sink
roomy = sink (λ capacity. 2 ^ 40)

abbrev pub empty_heap : Heap
empty_heap = record { next = 0; live = []; bad = false; fails = λ n. false }

-- The third allocation fails.
abbrev pub tight_heap : Heap
tight_heap = record { next = 0; live = []; bad = false; fails = λ n. n == 2 }

abbrev pub host : Host
host = record { has_fn = true; user_data = 77 }

abbrev pub hello : CStr
hello = chars 900 (codes "hello")

abbrev pub echo_request : EchoRequest
echo_request = record { message = hello; delay_ms = pos 20 }

abbrev pub echo_response : EchoResponse
echo_response = record { echoed = hello; timer_name = hello }

abbrev pub complex_request : ComplexRequest
complex_request = record {
  messages = record { block = some 901; items = echo_request ∷ [] };
  tags = record { block = some 902; items = hello ∷ hello ∷ [] };
  note = record { has_value = true; value = hello };
  retries = record { has_value = false; value = pos 0 };
}

abbrev pub complex_response : ComplexResponse
complex_response = record { summary = hello; item_count = pos 3; has_note = true }

abbrev pub job : JobSpec
job = record {
  name = hello;
  payload = record { block = some 903; items = hello ∷ [] };
  priority = jp_high;
}

abbrev pub retry : RetryPolicy
retry = record {
  max_attempts = pos 3;
  backoff_ms = pos 100;
  retry_on = record { block = none; items = [] };
}

abbrev pub schedule : ScheduleConfig
schedule = record {
  start_at_ms = pos 5;
  interval_ms = pos 10;
  jitter = record { has_value = true; value = pos 2 };
}

abbrev pub schedule_result : ScheduleResult
schedule_result = record {
  job_id = hello;
  will_run_count = pos 1;
  first_run_at_ms = pos 5;
  effective_backoff_ms = pos 100;
  priority = jp_high;
}

abbrev pub world : {X : Type 0} → Heap → World X
world h = record { heap = h; replies = [] }

abbrev pub ping : Delivery
ping = record { ret = 3; msg = none }

abbrev pub reply_of : Item → Delivery
reply_of x = record { ret = 0; msg = some (print_all (cons x nil)) }

abbrev pub box : CallBox
box = record { block = 40; has_fn = true; user_data = 77 }

abbrev pub schedule_req : MyTimerScheduleReq
schedule_req = record { job = job; retry = retry; schedule = schedule }

abbrev pub complex_req : MyTimerComplexReq
complex_req = record { req = complex_request }

abbrev pub echo_req : MyTimerEchoReq
echo_req = record { req = echo_request }

abbrev pub create_req : MyTimerCreateCtorReq
create_req = record { config = record { name = hello } }

abbrev pub version_req : MyTimerVersionReq
version_req = record { nimffi_empty = 0 }

abbrev pub lib_version_req : MyTimerLibVersionReq
lib_version_req = record { nimffi_empty = 0 }

abbrev pub echo_event : EchoEvent
echo_event = record { message = hello; echo_count = pos 2 }

abbrev pub job_event : OnJobScheduledPayload
job_event = record { job_id = hello; will_run_count = pos 1 }
