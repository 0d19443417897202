-- ===== src/Ffi/Queue/Stores.antt =====
-- What the queues of a bank store, as lists of requests.
use nim_ffi.Base.{ℕ, zero, suc, ◌+◌, ◌≤◌, ◌≡◌, refl, List, [], ◌∷◌, ◌++◌, count, length, arith}
use nim_ffi.Ffi.Queue.{
  Ptr, Links, RequestQueue, link, request_queue_depth, empty_queue, queue_at, set_queue,
}
use nim_ffi.Ffi.Queue.Chains.{Chain, last, link-Chain, count-append}

pub record Stores (next : Links) (q : RequestQueue) (f : List ℕ) : Type 0 where
  pub chain : Chain next q.head f
  pub tail : q.tail ≡ last f
  pub size : q.count ≡ length f
  pub bounded : length f ≤ request_queue_depth

abbrev pub AllStore : Links → List RequestQueue → List (List ℕ) → Type 0
AllStore next [] [] = Unit {0}
AllStore next (q ∷ qs) (f ∷ fs) = Stores next q f × AllStore next qs fs
AllStore next _ _ = ⊥

abbrev pub fifo_at : ℕ → List (List ℕ) → List ℕ
fifo_at i [] = []
fifo_at zero (f ∷ fs) = f
fifo_at (suc i) (f ∷ fs) = fifo_at i fs

abbrev pub set_fifo : ℕ → List ℕ → List (List ℕ) → List (List ℕ)
set_fifo i f [] = []
set_fifo zero f (old ∷ fs) = f ∷ fs
set_fifo (suc i) f (old ∷ fs) = old ∷ set_fifo i f fs

-- All requests, queue by queue.
abbrev pub held : List (List ℕ) → List ℕ
held [] = []
held (f ∷ fs) = f ++ held fs

pub nothing-Stores : (next : Links) → Stores next empty_queue []
nothing-Stores next = record { chain = refl; tail = refl; size = refl; bounded = omega arith }

pub at-Stores :
    (next : Links) (i : ℕ) (qs : List RequestQueue) (fs : List (List ℕ))
    → AllStore next qs fs
    → Stores next (queue_at i qs) (fifo_at i fs)
at-Stores next i [] [] s = nothing-Stores next
at-Stores next i [] (f ∷ fs) s = elim s [ ]
at-Stores next zero (q ∷ qs) [] s = elim s [ ]
at-Stores next (suc i) (q ∷ qs) [] s = elim s [ ]
at-Stores next zero (q ∷ qs) (f ∷ fs) s = s.0
at-Stores next (suc i) (q ∷ qs) (f ∷ fs) s = at-Stores next i qs fs s.1

pub fifo-held : (a i : ℕ) (fs : List (List ℕ)) → count a (fifo_at i fs) ≤ count a (held fs)
fifo-held a i [] = omega arith
fifo-held a zero (f ∷ fs) = omega (arith, count-append a f (held fs))
fifo-held a (suc i) (f ∷ fs) = omega (arith, count-append a f (held fs), fifo-held a i fs)

-- A queue is replaced, and with it what is held.
pub held-set :
    (a i : ℕ) (f : List ℕ) (fs : List (List ℕ))
    → count a (held (set_fifo i f fs)) + count a (fifo_at i fs) ≤ count a (held fs) + count a f
held-set a i f [] = omega arith
held-set a zero f (g ∷ fs) = omega (arith, count-append a f (held fs), count-append a g (held fs))
held-set a (suc i) f (g ∷ fs) = omega (
  arith,
  count-append a g (held fs),
  count-append a g (held (set_fifo i f fs)),
  held-set a i f fs,
)

pub link-Stores :
    (a : ℕ) (p : Ptr) (next : Links) (q : RequestQueue) (f : List ℕ)
    → count a f ≡ 0
    → Stores next q f
    → Stores (link a p next) q f
link-Stores a p next q f e s = record {
  chain = link-Chain a p next q.head f e s.chain;
  tail = s.tail;
  size = s.size;
  bounded = s.bounded;
}

module _ (next next' : Links) where
  -- Other links that keep each queue that holds no more than all of them keep them all.
  pub keep-AllStore :
      (qs : List RequestQueue) (fs : List (List ℕ))
      → ((f : List ℕ)
          → ((a : ℕ) → count a f ≤ count a (held fs))
          → (q : RequestQueue) → Stores next q f
          → Stores next' q f)
      → AllStore next qs fs
      → AllStore next' qs fs
  keep-AllStore [] [] keeps s = tt
  keep-AllStore [] (f ∷ fs) keeps s = elim s [ ]
  keep-AllStore (q ∷ qs) [] keeps s = elim s [ ]
  keep-AllStore (q ∷ qs) (f ∷ fs) keeps (s, all) = (
    keeps f (λ a. omega (arith, count-append a f (held fs))) q s,
    keep-AllStore qs fs (λ g few. keeps g (λ a. omega (arith, few a, count-append a f (held fs))))
        all,
  )

  -- One queue is replaced, and the links keep the others, which share no request with it.
  pub set-AllStore :
      (i : ℕ) (q : RequestQueue) (f : List ℕ) (qs : List RequestQueue) (fs : List (List ℕ))
      → ((g : List ℕ)
          → ((a : ℕ) → count a g + count a (fifo_at i fs) ≤ count a (held fs))
          → (r : RequestQueue) → Stores next r g
          → Stores next' r g)
      → Stores next' q f
      → AllStore next qs fs
      → AllStore next' (set_queue i q qs) (set_fifo i f fs)
  set-AllStore i q f [] [] keeps new all = tt
  set-AllStore i q f [] (g ∷ fs) keeps new all = elim all [ ]
  set-AllStore zero q f (r ∷ qs) [] keeps new all = elim all [ ]
  set-AllStore (suc i) q f (r ∷ qs) [] keeps new all = elim all [ ]
  set-AllStore zero q f (r ∷ qs) (g ∷ fs) keeps new (s, all) = (
    new,
    keep-AllStore qs fs (λ e few. keeps e (λ a. omega (arith, few a, count-append a g (held fs))))
        all,
  )
  set-AllStore (suc i) q f (r ∷ qs) (g ∷ fs) keeps new (s, all) = (
    keeps g (λ a. omega (arith, count-append a g (held fs), fifo-held a i fs)) r s,
    set-AllStore i q f qs fs
        (λ e few. keeps e (λ a. omega (arith, few a, count-append a g (held fs)))) new all,
  )
