-- ===== src/Ffi/Tests.antt =====
-- Runs of the ingress, the pool and a request.
use nim_ffi.Base.{
  ℕ, ◌≡◌, ◌↔◌, refl, true, false, none, some, List, [], ◌∷◌, arith, ◌==◌, replicate, if◌then◌else◌,
}
use nim_ffi.Heap.{Heap}
use nim_ffi.Heap.Laws.{Gains}
use nim_ffi.Ffi.Request.Payload.{
  Adopts, init_from_owned, set_reply, ReplySet, init_from_owned-Adopts, set_reply-ReplySet,
}
use nim_ffi.Ffi.Queue.{
  Links, RequestQueue, RequestQueueBank, Spliced, empty_queue, request_queue_count,
  init_request_queue, merge_queues,
}
use nim_ffi.Ffi.Queue.Refine.{
  Step, enter, splice, Ingress, Waiting, run_steps, spec_steps, Agrees, steps-Agrees,
  init-Represents,
}
use nim_ffi.Ffi.Queue.Conserve.{Conserved, steps-Conserved}
use nim_ffi.Ffi.Queue.Merge.{Drained, merge-Drained}
use nim_ffi.Ffi.Queue.Deinit.{deinit_all, Torn, deinit-Torn}
use nim_ffi.Ffi.Token.{make_token, Names, make_token-Names}
use nim_ffi.Ffi.Pool.{
  Slot, active, recycle_failed, no_failure, drain_timeout, FfiContextPool, resolve_ctx,
}
use nim_ffi.Ffi.Pool.Steps.{PoolStep, create, ask, recycle, reap, destroy, pool_steps}
use nim_ffi.Ffi.Pool.Resolve.{Found, resolve_ctx-Found, stale_token-Refused}
use nim_ffi.Ffi.Pool.Quarantine.{Kept, spared-Kept}
use nim_ffi.Ffi.Pool.Race.{
  Move, load, exchange, release, Claims, outside, moves, Sound, nobody, moves-Sound,
}
use nim_ffi.Ffi.Request.{FfiThreadRequest, value, error, init_from_ptr, handle_res}
use nim_ffi.Ffi.Request.Answered.{
  Report, warn, answer, run_reports, owned_opt_request, Ended, init_from_ptr-Gains,
  handle_res-Ended,
}

abbrev no_links : Links
no_links a = none

abbrev new_ingress : Ingress
new_ingress = record {
  bank = init_request_queue no_links;
  spliced = record { head = none; tail = none };
}

abbrev nothing_waits : Waiting
nothing_waits = record { fifos = replicate request_queue_count []; merged = [] }

-- Threads 0 and 16 share a queue; the consumer takes it over; thread 1 has another one.
abbrev some_steps : List Step
some_steps = enter 0 7 ∷ enter 16 8 ∷ splice 0 ∷ enter 1 9 ∷ []

steps-Agrees_example :
    Agrees (run_steps some_steps new_ingress) (spec_steps some_steps nothing_waits)
unfolding nim_ffi.Ffi.Queue.Refine.spec_step
steps-Agrees_example =
    steps-Agrees some_steps new_ingress nothing_waits (init-Represents no_links)
      (refl, (refl, (refl, tt)))

steps-Conserved_example : Conserved nothing_waits some_steps (run_steps some_steps new_ingress)
unfolding nim_ffi.Ffi.Queue.Refine.spec_step
steps-Conserved_example =
    steps-Conserved some_steps new_ingress nothing_waits refl (init-Represents no_links)
      (refl, (refl, (refl, tt)))

-- Two requests in one queue and one in the next.
abbrev links : Links
links a = if a == 5 then some 6 else none

abbrev two_queues : RequestQueueBank
two_queues = record {
  queues =
      record { head = some 5; tail = some 6; count = 2 }
      ∷ record { head = some 9; tail = some 9; count = 1 }
      ∷ [];
  next = links;
}

abbrev two_fifos : List (List ℕ)
two_fifos = (5 ∷ 6 ∷ []) ∷ (9 ∷ []) ∷ []

merge-Drained_example : Drained two_fifos (merge_queues two_queues)
merge-Drained_example =
    merge-Drained two_queues two_fifos
      (
        record { chain = (refl, (refl, refl)); tail = refl; size = refl; bounded = omega arith },
        (record { chain = (refl, refl); tail = refl; size = refl; bounded = omega arith }, tt),
      )
      (λ a. ground arith)

abbrev bare_request : ℕ → FfiThreadRequest
bare_request a = record {
  block = a;
  user_data = 77;
  req_id = none;
  buffer = none;
  payload = [];
  responded = false;
}

abbrev waiting_heap : Heap
waiting_heap = record { next = 10; live = 9 ∷ 6 ∷ 5 ∷ []; bad = false; fails = λ n. false }

deinit-Torn_example :
    Torn
      (λ a. some 99)
      bare_request
      two_fifos
      waiting_heap
      (deinit_all (λ a. some 99) bare_request two_queues.queues links waiting_heap)
deinit-Torn_example =
    deinit-Torn (λ a. some 99) bare_request two_queues.queues two_fifos links waiting_heap
      (
        record { chain = (refl, (refl, refl)); tail = refl; size = refl; bounded = omega arith },
        (record { chain = (refl, refl); tail = refl; size = refl; bounded = omega arith }, tt),
      )
      (λ a. ground arith) (λ a. omega arith)

make_token-Names_example : Names 3 7 (make_token 3 7)
make_token-Names_example = make_token-Names 3 7 (omega arith) (omega arith)

-- A slot that was claimed and recycled once, and one that is claimed.
abbrev free_slot : Slot
free_slot = record {
  generation = 2;
  token = 4128;
  lifecycle = active;
  recycle_failure = no_failure;
  initialized = true;
  threads_up = true;
}

abbrev used_slot : Slot
used_slot = record free_slot { generation = 5; token = 4257 }

abbrev two_slots : List Slot
two_slots = free_slot ∷ used_slot ∷ []

resolve_ctx-Found_example : (resolve_ctx two_slots 4257 ≡ some 1) ↔ Found two_slots 4257 1
resolve_ctx-Found_example = resolve_ctx-Found two_slots 4257 1

abbrev pool : FfiContextPool
pool = record { slots = two_slots; static_ctx = none }

abbrev some_pool_steps : List PoolStep
some_pool_steps =
    ask false 1
    ∷ recycle no_failure false 1
    ∷ reap false (λ i. true)
    ∷ create true
    ∷ create false
    ∷ []

-- The token of the first claim of slot 0, in a pool where it has been recycled.
stale_token-Refused_example :
    resolve_ctx (pool_steps some_pool_steps pool).slots (make_token 0 1) ≡ none
stale_token-Refused_example =
    stale_token-Refused some_pool_steps pool 0 1 free_slot (omega arith) refl (omega arith)
      (omega arith, (omega arith, tt))

abbrev lost_slot : Slot
lost_slot = record used_slot { lifecycle = recycle_failed; recycle_failure = drain_timeout }

abbrev losing_pool : FfiContextPool
losing_pool = record { slots = free_slot ∷ lost_slot ∷ []; static_ctx = none }

spared-Kept_example :
    Kept 1 lost_slot
      (pool_steps (recycle no_failure false 1 ∷ destroy true 0 ∷ create true ∷ []) losing_pool)
unfolding nim_ffi.Ffi.Pool.is_in_use
spared-Kept_example =
    spared-Kept (recycle no_failure false 1 ∷ destroy true 0 ∷ create true ∷ []) 1 lost_slot
      losing_pool (record { claimed = refl; failed = refl }) ((λ e. omega (arith, e)), tt)
      (record { at = refl; owned = λ e. cc e })

-- Both threads read the generation before one of them gets the slot.
abbrev two_threads : List (Move × ℕ)
two_threads = (load, 0) ∷ (load, 1) ∷ (exchange, 1) ∷ (exchange, 0) ∷ (release, 1) ∷ []

abbrev unclaimed : Claims
unclaimed = record { generation = 2; phase = λ t. outside }

moves-Sound_example : Sound (moves two_threads unclaimed)
moves-Sound_example =
    moves-Sound two_threads unclaimed
      (record { exclusive = nobody refl (λ u e. cc e); even = λ u seen e. cc e })

-- The third allocation, of the payload, fails.
abbrev tight_heap : Heap
tight_heap = record { next = 0; live = []; bad = false; fails = λ n. n == 2 }

init_from_ptr-Gains_example :
    Gains
      (owned_opt_request (init_from_ptr 77 (some (1 ∷ 2 ∷ [])) tight_heap).0)
      tight_heap
      (init_from_ptr 77 (some (1 ∷ 2 ∷ [])) tight_heap).1
init_from_ptr-Gains_example = init_from_ptr-Gains 77 (some (1 ∷ 2 ∷ [])) tight_heap

abbrev request : FfiThreadRequest
request = record {
  block = 40;
  user_data = 77;
  req_id = some 41;
  buffer = none;
  payload = [];
  responded = false;
}

abbrev held_heap : Heap
held_heap = record { next = 42; live = 41 ∷ 40 ∷ []; bad = false; fails = λ n. false }

-- In place of the decimal digits.
abbrev unary : ℕ → List ℕ
unary n = replicate n 49

-- A report, the answer of a timeout, a report that comes too late; then the completion.
abbrev some_reports : List Report
some_reports = warn 5 ∷ answer (error []) ∷ warn 6 ∷ []

handle_res-Ended_example :
    Ended unary some_reports
      (value (1 ∷ []))
      request
      []
      held_heap
      (handle_res (value (1 ∷ [])) (run_reports unary some_reports (request, [])) held_heap)
handle_res-Ended_example =
    handle_res-Ended unary some_reports (value (1 ∷ [])) request [] held_heap refl
      (λ a. omega arith)

-- The second allocation, of the request's name, fails, and the host's buffer is block 4.
abbrev lent_heap : Heap
lent_heap = record { next = 5; live = 4 ∷ []; bad = false; fails = λ n. n == 6 }

init_from_owned-Adopts_example :
    Adopts 77 (some 4) (1 ∷ 2 ∷ []) lent_heap (init_from_owned 77 (some 4) (1 ∷ 2 ∷ []) lent_heap)
init_from_owned-Adopts_example =
    init_from_owned-Adopts 77 (some 4) (1 ∷ 2 ∷ []) lent_heap (λ a. omega arith)

set_reply-ReplySet_example :
    ReplySet (value (1 ∷ [])) request held_heap (set_reply (value (1 ∷ [])) request held_heap)
set_reply-ReplySet_example =
    set_reply-ReplySet (value (1 ∷ [])) request held_heap (λ a. omega arith)
