-- ===== src/Ffi/Queue/Deinit.antt =====
-- `deinitRequestQueue`: every request that still waits is freed. A freed request's link is whatever
-- `junk` makes of it, and `request_at` has the blocks of each request. The walk runs on fuel, of
-- which the depth of a queue is enough.
use nim_ffi.Base.{
  ℕ, zero, suc, ◌+◌, ◌≤◌, ◌≡◌, refl, ◌∙◌, none, some, Option, List, [], ◌∷◌, ◌++◌, count, length,
  arith,
}
use nim_ffi.Heap.{Heap}
use nim_ffi.Heap.Laws.{Owned, Loses, Holds}
use nim_ffi.Ffi.Request.{FfiThreadRequest, free_request}
use nim_ffi.Ffi.Request.Answered.{owned_request, free_request-Loses}
use nim_ffi.Ffi.Queue.{Ptr, Links, RequestQueue, link, request_queue_depth}
use nim_ffi.Ffi.Queue.Chains.{Chain, Distinct, link-Chain, count-append, one_if_same}
use nim_ffi.Ffi.Queue.Stores.{AllStore, held, keep-AllStore}
use nim_ffi.Ffi.Queue.Locked.{Keeps, Keeps-Stores}

module _ (junk : Links) (request_at : ℕ → FfiThreadRequest) where
  -- The `while` loop of one queue.
  unfoldable pub free_chain : (fuel : ℕ) → Ptr → Links → Heap → Option (Links × Heap)
  unfolding link free_request
  free_chain fuel none next h = some (next, h)
  free_chain zero (some r) next h = none
  free_chain (suc fuel) (some r) next h =
      free_chain fuel (next r) (link r (junk r) next) (free_request (request_at r) h)

  -- The loop over the queues that are left; `count` is not reset.
  unfoldable pub deinit_all :
      List RequestQueue → Links → Heap → Option (List RequestQueue × Links × Heap)
  unfolding free_chain
  deinit_all [] next h = some ([], next, h)
  deinit_all (q ∷ qs) next h =
      elim (free_chain request_queue_depth q.head next h)
        as (λ _. Option (List RequestQueue × Links × Heap)) [
          | none ↦ none
          | some s ↦
              elim (deinit_all qs s.0 s.1) as (λ _. Option (List RequestQueue × Links × Heap)) [
                | none ↦ none
                | some t ↦ some (record q { head = none; tail = none } ∷ t.0, t.1, t.2)
              ]
        ]

  abbrev pub owned_all : List ℕ → Owned
  owned_all [] a = 0
  owned_all (r ∷ rs) a = owned_request (request_at r) a + owned_all rs a

  -- The walk ends, the requests' blocks are freed, and only their links have changed.
  record Walked (next : Links) (f : List ℕ) (h : Heap) (got : Option (Links × Heap)) : Type 0 where
    links : Links
    heap : Heap
    ends : got ≡ some (links, heap)
    loses : Loses (owned_all f) h heap
    keeps : Keeps next links f

  free_chain-Walked :
      (f : List ℕ) (fuel : ℕ) (p : Ptr) (next : Links) (h : Heap)
      → length f ≤ fuel
      → Chain next p f
      → Distinct f
      → Holds (owned_all f) h
      → Walked next f h (free_chain fuel p next h)
  unfolding free_chain
  free_chain-Walked [] fuel p next h enough c d o = rw c (record {
    links = next;
    heap = h;
    ends = refl;
    loses = record { live = λ a. omega arith; bad = refl };
    keeps = record { chains = λ q xs apart k. k };
  })
  free_chain-Walked (x ∷ f) zero p next h enough c d o = absurd (omega (arith, enough))
  free_chain-Walked (x ∷ f) (suc fuel) p next h enough (start, c) d o =
      let gone : count x f ≡ 0 = omega (arith, d x, one_if_same x) in
      let first = free_request-Loses (request_at x) h (λ a. omega (arith, o a)) in
      let rest =
        free_chain-Walked f fuel (next x) (link x (junk x) next) (free_request (request_at x) h)
          (omega (arith, enough)) (link-Chain x (junk x) next (next x) f gone c)
          (λ a. omega (arith, d a)) (λ a. omega (arith, o a, first.live a)) in
      rw start (record {
        links = rest.links;
        heap = rest.heap;
        ends = rest.ends;
        loses = record {
          live = λ a. omega (arith, first.live a, rest.loses.live a);
          bad = rest.loses.bad ∙ first.bad;
        };
        keeps = record {
          chains = λ q xs apart k.
              rest.keeps.chains q xs (λ a. omega (arith, apart a))
                (link-Chain x (junk x) next q xs (omega (arith, apart x, one_if_same x)) k);
        };
      })

  abbrev AllNil : List RequestQueue → Type 0
  AllNil [] = Unit {0}
  AllNil (q ∷ qs) = (q.head ≡ none) × (q.tail ≡ none) × AllNil qs

  -- The teardown ends, every queue is empty, and exactly the requests' blocks are freed.
  pub record Torn (fs : List (List ℕ)) (h : Heap) (got : Option (List RequestQueue × Links × Heap))
      : Type 0 where
    pub queues : List RequestQueue
    pub links : Links
    pub heap : Heap
    pub ends : got ≡ some (queues, links, heap)
    pub empty : AllNil queues
    pub loses : Loses (owned_all (held fs)) h heap

  walk_then :
      (q : RequestQueue) (qs : List RequestQueue) (next links links' : Links) (h g k : Heap)
      (rest : List RequestQueue)
      → free_chain request_queue_depth q.head next h ≡ some (links, g)
      → deinit_all qs links g ≡ some (rest, links', k)
      → deinit_all (q ∷ qs) next h ≡ some (record q { head = none; tail = none } ∷ rest, links', k)
  unfolding deinit_all
  walk_then q qs next links links' h g k rest e d = rw (deinit_all, e) (rw d refl)

  owned-append : (xs ys : List ℕ) (a : ℕ) → owned_all (xs ++ ys) a ≡ owned_all xs a + owned_all ys a
  owned-append [] ys a = omega arith
  owned-append (x ∷ xs) ys a = omega (arith, owned-append xs ys a)

  -- `deinitRequestQueue` of a bank whose queues represent FIFOs with no request in two places, and
  -- whose requests' blocks are allocated: the walks end, no freed request's link is followed,
  -- every queue is empty, and exactly the blocks of the requests are freed, each once.
  pub deinit-Torn :
      (qs : List RequestQueue) (fs : List (List ℕ)) (next : Links) (h : Heap)
      → AllStore next qs fs
      → Distinct (held fs)
      → Holds (owned_all (held fs)) h
      → Torn fs h (deinit_all qs next h)
  unfolding deinit_all
  deinit-Torn [] [] next h all d o = record {
    queues = [];
    links = next;
    heap = h;
    ends = refl;
    empty = tt;
    loses = record { live = λ a. omega arith; bad = refl };
  }
  deinit-Torn [] (f ∷ fs) next h all d o = elim all [ ]
  deinit-Torn (q ∷ qs) [] next h all d o = elim all [ ]
  deinit-Torn (q ∷ qs) (f ∷ fs) next h (first, all) d o =
      let sizes : (a : ℕ) → count a f + count a (held fs) ≤ 1 =
        λ a. omega (arith, d a, count-append a f (held fs)) in
      let owns : (a : ℕ) → owned_all f a + owned_all (held fs) a ≤ count a h.live =
        λ a. omega (arith, o a, owned-append f (held fs) a) in
      let walked =
        free_chain-Walked f request_queue_depth q.head next h first.bounded first.chain
          (λ a. omega (arith, sizes a)) (λ a. omega (arith, owns a)) in
      let rest =
        deinit-Torn qs fs walked.links walked.heap
          (keep-AllStore next walked.links qs fs
            (λ g few. Keeps-Stores walked.keeps g (λ a. omega (arith, few a, sizes a))) all)
          (λ a. omega (arith, sizes a)) (λ a. omega (arith, owns a, walked.loses.live a)) in
      record {
        queues = record q { head = none; tail = none } ∷ rest.queues;
        links = rest.links;
        heap = rest.heap;
        ends =
            walk_then q qs next walked.links rest.links h walked.heap rest.heap rest.queues
              walked.ends rest.ends;
        empty = (refl, refl, rest.empty);
        loses = record {
          live = λ a.
              omega (arith, walked.loses.live a, rest.loses.live a, owned-append f (held fs) a);
          bad = rest.loses.bad ∙ walked.loses.bad;
        };
      }
