-- ===== src/Ffi/Queue/Refine.antt =====
-- Producers and the consumer, one critical section at a time in any order, against a bank of
-- bounded FIFOs.
use nim_ffi.Base.{
  zero, suc, ℕ, ◌+◌, ◌≤◌, ◌≡◌, refl, none, List, [], ◌∷◌, ◌++◌, count, length, arith, one_if, ap,
  ap₂, ℕ_discrete, leb, replicate, Bool-cases, inl, inr,
}
use nim_ffi.Ffi.Queue.{
  init_request_queue, request_queue_count, Links, empty_queue, RequestQueueBank, PushOutcome,
  Spliced, link, queue_at, set_queue, push_locked, request_queue_depth, push_request,
  my_queue_index, splice_locked,
}
use nim_ffi.Ffi.Queue.Chains.{Chain, last, Distinct, link-Chain, link-same, count-append}
use nim_ffi.Ffi.Queue.Stores.{
  nothing-Stores, AllStore, fifo_at, set_fifo, held, at-Stores, fifo-held, held-set, link-Stores,
  keep-AllStore, set-AllStore,
}
use nim_ffi.Ffi.Queue.Locked.{enqueue, Keeps-Stores, push_locked-Pushed, splice_locked-Moved}

-- A producer that pushes a request, with the number that the counter gave to its thread; or the
-- consumer, which splices one queue into its chain.
pub data Step : Type 0 where
  enter : (assigned request : ℕ) → Step
  splice : (i : ℕ) → Step

pub record Ingress : Type 0 where
  pub bank : RequestQueueBank
  pub spliced : Spliced

unfoldable pub run_step : Step → Ingress → List PushOutcome × Ingress
unfolding push_request splice_locked
run_step (enter k r) s =
    let (outcome, bank) = push_request k r s.bank in (outcome ∷ [], record s { bank = bank })
run_step (splice i) s =
    let (q, next, spliced) = splice_locked (queue_at i s.bank.queues) s.bank.next s.spliced in
    (
      [],
      record {
        bank = record { queues = set_queue i q s.bank.queues; next = next };
        spliced = spliced;
      },
    )

unfoldable pub run_steps : List Step → Ingress → List PushOutcome × Ingress
unfolding run_step
run_steps [] s = ([], s)
run_steps (x ∷ xs) s =
    let (os, s') = run_step x s in let (ps, s'') = run_steps xs s' in (os ++ ps, s'')

-- The specification: FIFOs, and the list that the consumer has taken over.
pub record Waiting : Type 0 where
  pub fifos : List (List ℕ)
  pub merged : List ℕ

unfoldable pub spec_step : Step → Waiting → List PushOutcome × Waiting
unfolding enqueue my_queue_index
spec_step (enter k r) w =
    let i = my_queue_index k in
    let (outcome, f) = enqueue r (fifo_at i w.fifos) in
    (outcome ∷ [], record w { fifos = set_fifo i f w.fifos })
spec_step (splice i) w =
    ([], record { fifos = set_fifo i [] w.fifos; merged = w.merged ++ fifo_at i w.fifos })

unfoldable pub spec_steps : List Step → Waiting → List PushOutcome × Waiting
unfolding spec_step
spec_steps [] w = ([], w)
spec_steps (x ∷ xs) w =
    let (os, w') = spec_step x w in let (ps, w'') = spec_steps xs w' in (os ++ ps, w'')

-- The blocks of the pushed requests are not those of requests that still wait.
abbrev pub Fresh : List Step → Waiting → Type 0
Fresh [] w = Unit {0}
Fresh (enter k r ∷ xs) w =
    (count r (held w.fifos) + count r w.merged ≡ 0) × Fresh xs (spec_step (enter k r) w).1
Fresh (splice i ∷ xs) w = Fresh xs (spec_step (splice i) w).1

pub record Represents (s : Ingress) (w : Waiting) : Type 0 where
  pub queues : AllStore s.bank.next s.bank.queues w.fifos
  pub chain : Chain s.bank.next s.spliced.head w.merged
  pub tail : s.spliced.tail ≡ last w.merged
  pub distinct : (a : ℕ) → count a (held w.fifos) + count a w.merged ≤ 1

-- The same outcomes, and states that correspond.
pub record Agrees (got : List PushOutcome × Ingress) (want : List PushOutcome × Waiting)
    : Type 0 where
  pub outcomes : got.0 ≡ want.0
  pub state : Represents got.1 want.1

-- A request that does not occur yet occurs once.
fresh_once : (a r : ℕ) (xs : List ℕ) → count r xs ≡ 0 → count a xs ≤ 1 → count a xs + one_if a r ≤ 1
fresh_once a r xs e few = elim (ℕ_discrete a r) [
  | yes same ↦ let none_yet : count a xs ≡ 0 = rw same e in ground (arith, none_yet)
  | no other ↦ ground (arith, few, other)
]

enqueue-count : (a r : ℕ) (f : List ℕ) → count a (enqueue r f).1 ≤ count a f + one_if a r
unfolding enqueue
enqueue-count a r f = elim (Bool-cases (leb request_queue_depth (length f))) [
  | inl full ↦ rw full (omega arith)
  | inr room ↦ rw room (omega (arith, count-append a f (r ∷ [])))
]

enter-Agrees :
    (k r : ℕ) (s : Ingress) (w : Waiting)
    → Represents s w
    → count r (held w.fifos) + count r w.merged ≡ 0
    → Agrees (run_step (enter k r) s) (spec_step (enter k r) w)
unfolding run_step spec_step push_request
enter-Agrees k r s w rep fresh =
    let i = my_queue_index k in
    let next0 = s.bank.next in
    let next1 = link r none next0 in
    let qs = s.bank.queues in
    let fs = w.fifos in
    let f = fifo_at i fs in
    let all1 : AllStore next1 qs fs =
      keep-AllStore next0 next1 qs fs
        (λ g few q st. link-Stores r none next0 q g (omega (arith, few r, fresh)) st) rep.queues in
    let once : Distinct (f ++ r ∷ []) = λ a. omega (
      arith,
      count-append a f (r ∷ []),
      fresh_once a r f (omega (arith, fifo-held r i fs, fresh))
          (omega (arith, fifo-held a i fs, rep.distinct a)),
    ) in
    let pushed =
      push_locked-Pushed next1 r (link-same r none next0) (queue_at i qs) f once
        (at-Stores next1 i qs fs all1) in
    let got = push_locked r (queue_at i qs) next1 in
    record {
      outcomes = ap (λ o. o ∷ []) pushed.outcome;
      state = record {
        queues =
            set-AllStore next1 got.2 i got.1 (enqueue r f).1 qs fs
              (λ g few. Keeps-Stores pushed.keeps g (λ a. omega (arith, few a, rep.distinct a)))
              pushed.stores all1;
        chain =
            pushed.keeps.chains s.spliced.head w.merged
              (λ a. omega (arith, rep.distinct a, fifo-held a i fs))
              (link-Chain r none next0 s.spliced.head w.merged (omega (arith, fresh)) rep.chain);
        tail = rep.tail;
        distinct = λ a. omega (
          arith,
          held-set a i (enqueue r f).1 fs,
          enqueue-count a r f,
          count-append a (held fs) w.merged,
          count-append r (held fs) w.merged,
          fresh_once a r (held fs ++ w.merged)
              (omega (arith, fresh, count-append r (held fs) w.merged))
              (omega (arith, rep.distinct a, count-append a (held fs) w.merged)),
        );
      };
    }

splice-Agrees :
    (i : ℕ) (s : Ingress) (w : Waiting)
    → Represents s w
    → Agrees (run_step (splice i) s) (spec_step (splice i) w)
unfolding run_step spec_step
splice-Agrees i s w rep =
    let next = s.bank.next in
    let qs = s.bank.queues in
    let fs = w.fifos in
    let f = fifo_at i fs in
    let moved =
      splice_locked-Moved next (queue_at i qs) s.spliced f w.merged
        (at-Stores next i qs fs rep.queues)
        (λ a. omega (arith, count-append a w.merged f, fifo-held a i fs, rep.distinct a)) rep.chain
        rep.tail in
    let got = splice_locked (queue_at i qs) next s.spliced in
    record {
      outcomes = refl;
      state = record {
        queues =
            set-AllStore next got.1 i got.0 [] qs fs
              (λ g few. Keeps-Stores moved.keeps g (λ a. omega (arith, few a, rep.distinct a)))
              moved.stores rep.queues;
        chain = moved.chain;
        tail = moved.tail;
        distinct =
            λ a. omega (arith, held-set a i [] fs, count-append a w.merged f, rep.distinct a);
      };
    }

step-Agrees :
    (x : Step) (xs : List Step) (s : Ingress) (w : Waiting)
    → Represents s w
    → Fresh (x ∷ xs) w
    → Agrees (run_step x s) (spec_step x w) × Fresh xs (spec_step x w).1
step-Agrees (enter k r) xs s w rep fresh = (enter-Agrees k r s w rep fresh.0, fresh.1)
step-Agrees (splice i) xs s w rep fresh = (splice-Agrees i s w rep, fresh)

-- Any interleaving of critical sections of producers and of the consumer, on a bank and a chain
-- that represent FIFOs and a list, where no request is pushed while it still waits: every push
-- has the outcome of a bounded FIFO (`queue_full` at 1024 requests, `queued_wake` exactly for the
-- first request of an empty queue), and the links between the requests represent the FIFOs and the
-- list of the specification afterwards, with no request in two places.
pub steps-Agrees :
    (xs : List Step) (s : Ingress) (w : Waiting)
    → Represents s w
    → Fresh xs w
    → Agrees (run_steps xs s) (spec_steps xs w)
unfolding run_steps spec_steps
steps-Agrees [] s w rep fresh = record { outcomes = refl; state = rep }
steps-Agrees (x ∷ xs) s w rep fresh =
    let (one, others) = step-Agrees x xs s w rep fresh in
    let rest = steps-Agrees xs (run_step x s).1 (spec_step x w).1 one.state others in
    record { outcomes = ap₂ (λ a b. a ++ b) one.outcomes rest.outcomes; state = rest.state }

empty-AllStore : (next : Links) (n : ℕ) → AllStore next (replicate n empty_queue) (replicate n [])
empty-AllStore next zero = tt
empty-AllStore next (suc n) = (nothing-Stores next, empty-AllStore next n)

empty-held : (a n : ℕ) → count a (held (replicate n [])) ≡ 0
empty-held a zero = refl
empty-held a (suc n) = empty-held a n

-- A new bank and an empty chain represent 16 empty FIFOs and the empty list.
pub init-Represents :
    (next : Links)
    → Represents
        (record { bank = init_request_queue next; spliced = record { head = none; tail = none } })
        (record { fifos = replicate request_queue_count []; merged = [] })
unfolding init_request_queue
init-Represents next = record {
  queues = empty-AllStore next request_queue_count;
  chain = refl;
  tail = refl;
  distinct = λ a. omega (arith, empty-held a request_queue_count);
}
