-- ===== src/Ffi/Queue.antt =====
-- The ingress of a context, ffi/ffi_request_queue.nim: FIFOs of requests that are linked through
-- the requests themselves, one for each of `RequestQueueCount` groups of producers. A request is
-- the number of its block; the store has the field `next` of every request. One `withLock` section
-- is one function, so that a list of them is one interleaving of producers and the consumer.
pub mod Chains
pub mod Stores
pub mod Locked
pub mod Refine
pub mod Merge
pub mod Conserve
pub mod Deinit
use nim_ffi.Base.{
  ℕ, zero, suc, ◌+◌, ◌%◌, ◌^◌, Bool, true, false, none, some, Option, List, [], ◌∷◌, ◌==◌, leb,
  replicate, if◌then◌else◌,
}

abbrev pub request_queue_count : ℕ
request_queue_count = 16

abbrev pub request_queue_depth : ℕ
request_queue_depth = 1024

abbrev pub Ptr : Type 0
Ptr = Option ℕ

abbrev pub is_nil : Ptr → Bool
is_nil none = true
is_nil (some a) = false

-- The field `next` of each request.
abbrev pub Links : Type 0
Links = ℕ → Ptr

unfoldable pub link : ℕ → Ptr → Links → Links
link a p next = λ b. if b == a then p else next b

pub data PushOutcome : Type 0 where
  queue_full : PushOutcome
  queued : PushOutcome
  queued_wake : PushOutcome

pub record RequestQueue : Type 0 where
  pub head : Ptr
  pub tail : Ptr
  pub count : ℕ

abbrev pub empty_queue : RequestQueue
empty_queue = record { head = none; tail = none; count = 0 }

-- The queues of the bank, and the links of all requests.
pub record RequestQueueBank : Type 0 where
  pub queues : List RequestQueue
  pub next : Links

unfoldable pub init_request_queue : Links → RequestQueueBank
init_request_queue next = record { queues = replicate request_queue_count empty_queue; next = next }

abbrev pub queue_at : ℕ → List RequestQueue → RequestQueue
queue_at i [] = empty_queue
queue_at zero (q ∷ qs) = q
queue_at (suc i) (q ∷ qs) = queue_at i qs

abbrev pub set_queue : ℕ → RequestQueue → List RequestQueue → List RequestQueue
set_queue i q [] = []
set_queue zero q (old ∷ qs) = q ∷ qs
set_queue (suc i) q (old ∷ qs) = old ∷ set_queue i q qs

-- `gRequestQueue and (RequestQueueCount - 1)`, for a thread to which the counter gave `assigned`.
unfoldable pub my_queue_index : (assigned : ℕ) → ℕ
my_queue_index assigned = assigned % request_queue_count

-- The critical section of `pushRequest`.
unfoldable pub push_locked : ℕ → RequestQueue → Links → PushOutcome × RequestQueue × Links
unfolding link
push_locked request q next =
    if leb request_queue_depth q.count
    then (queue_full, q, next)
    else (elim q.tail as (λ _. PushOutcome × RequestQueue × Links) [
      | none ↦ (
        queued_wake,
        record { head = some request; tail = some request; count = suc q.count },
        next,
      )
      | some t ↦ (
        queued,
        record { head = q.head; tail = some request; count = suc q.count },
        link t (some request) next,
      )
    ])

unfoldable pub push_request :
    (assigned request : ℕ) → RequestQueueBank → PushOutcome × RequestQueueBank
unfolding push_locked my_queue_index link
push_request assigned request bank =
    let idx = my_queue_index assigned in
    let (outcome, q, next) =
      push_locked request (queue_at idx bank.queues) (link request none bank.next) in
    (outcome, record { queues = set_queue idx q bank.queues; next = next })

-- The chain that `mergeQueues` has spliced so far.
pub record Spliced : Type 0 where
  pub head : Ptr
  pub tail : Ptr

-- The body of the loop of `mergeQueues`: the critical section of one queue.
unfoldable pub splice_locked : RequestQueue → Links → Spliced → RequestQueue × Links × Spliced
unfolding link
splice_locked q next s =
    if is_nil q.head
    then (q, next, s)
    else (let joined = elim s.tail as (λ _. Links) [ none ↦ next | some t ↦ link t q.head next ] in
        if is_nil s.head
        then (empty_queue, next, record { head = q.head; tail = q.tail })
        else (empty_queue, joined, record { head = s.head; tail = q.tail }))

-- The loop, over the queues that are left.
unfoldable pub splice_all :
    List RequestQueue → Links → Spliced → List RequestQueue × Links × Spliced
unfolding splice_locked
splice_all [] next s = ([], next, s)
splice_all (q ∷ qs) next s =
    let (q', next', s') = splice_locked q next s in
    let (qs', next'', s'') = splice_all qs next' s' in (q' ∷ qs', next'', s'')

unfoldable pub merge_queues : RequestQueueBank → Ptr × RequestQueueBank
unfolding splice_all
merge_queues bank =
    let (qs, next, s) = splice_all bank.queues bank.next (record { head = none; tail = none }) in
    (s.head, record { queues = qs; next = next })
