-- ===== src/Ffi/Queue/Conserve.antt =====
-- No request is lost, and none is taken twice.
use nim_ffi.Base.{
  ℕ, zero, suc, ◌+◌, ◌%◌, ◌<◌, ◌≡◌, refl, ◌∙◌, List, [], ◌∷◌, ◌++◌, count, length, arith, leb,
  Bool-cases, inl, inr,
}
use nim_ffi.Ffi.Queue.{
  PushOutcome, queue_full, queued, queued_wake, request_queue_count, request_queue_depth,
  my_queue_index,
}
use nim_ffi.Ffi.Queue.Chains.{count-append}
use nim_ffi.Ffi.Queue.Stores.{fifo_at, set_fifo, held}
use nim_ffi.Ffi.Queue.Locked.{enqueue}
use nim_ffi.Ffi.Queue.Refine.{
  Step, enter, splice, Ingress, run_steps, Waiting, spec_step, spec_steps, Fresh, Represents,
  steps-Agrees,
}

-- The requests of the pushes whose outcome is not `queue_full`.
abbrev pub taken : PushOutcome → ℕ → List ℕ
taken queue_full r = []
taken queued r = r ∷ []
taken queued_wake r = r ∷ []

abbrev pub accepted : List Step → List PushOutcome → List ℕ
accepted [] os = []
accepted (enter k r ∷ xs) [] = []
accepted (enter k r ∷ xs) (o ∷ os) = taken o r ++ accepted xs os
accepted (splice i ∷ xs) os = accepted xs os

abbrev waiting : ℕ → Waiting → ℕ
waiting a w = count a (held w.fifos) + count a w.merged

set-exact :
    (a i : ℕ) (f : List ℕ) (fs : List (List ℕ))
    → i < length fs
    → count a (held (set_fifo i f fs)) + count a (fifo_at i fs) ≡ count a (held fs) + count a f
set-exact a i f [] less = absurd (omega (arith, less))
set-exact a zero f (g ∷ fs) less =
    omega (arith, count-append a f (held fs), count-append a g (held fs))
set-exact a (suc i) f (g ∷ fs) less = omega (
  arith,
  count-append a g (held fs),
  count-append a g (held (set_fifo i f fs)),
  set-exact a i f fs (omega (arith, less)),
)

clear-exact :
    (a i : ℕ) (fs : List (List ℕ))
    → count a (held (set_fifo i [] fs)) + count a (fifo_at i fs) ≡ count a (held fs)
clear-exact a i [] = refl
clear-exact a zero (g ∷ fs) = omega (arith, count-append a g (held fs))
clear-exact a (suc i) (g ∷ fs) = omega (
  arith,
  count-append a g (held fs),
  count-append a g (held (set_fifo i [] fs)),
  clear-exact a i fs,
)

length-set : (i : ℕ) (f : List ℕ) (fs : List (List ℕ)) → length (set_fifo i f fs) ≡ length fs
length-set i f [] = refl
length-set zero f (g ∷ fs) = refl
length-set (suc i) f (g ∷ fs) = omega (arith, length-set i f fs)

enqueue-taken :
    (a r : ℕ) (f : List ℕ) → count a (enqueue r f).1 ≡ count a f + count a (taken (enqueue r f).0 r)
unfolding enqueue
enqueue-taken a r f = elim (Bool-cases (leb request_queue_depth (length f))) [
  | inl full ↦ rw full (omega arith)
  | inr room ↦ rw room (both f)
]
  where
    both :
        (g : List ℕ)
        → count a (g ++ r ∷ [])
          ≡ count a g
            + count a (taken (elim g as (λ _. PushOutcome) [ [] ↦ queued_wake | _ ∷ _ ↦ queued ]) r)
    both [] = omega arith
    both (x ∷ g) = omega (arith, count-append a g (r ∷ []))

enter-waiting :
    (a k r : ℕ) (w : Waiting)
    → length w.fifos ≡ request_queue_count
    → waiting a (spec_step (enter k r) w).1
      ≡ waiting a w + count a (taken (enqueue r (fifo_at (my_queue_index k) w.fifos)).0 r)
unfolding spec_step my_queue_index
enter-waiting a k r w size =
    let i = k % request_queue_count in
    let f = fifo_at i w.fifos in
    omega (arith, set-exact a i (enqueue r f).1 w.fifos (omega (arith, size)), enqueue-taken a r f)

spec-waiting :
    (a : ℕ) (xs : List Step) (w : Waiting)
    → length w.fifos ≡ request_queue_count
    → waiting a (spec_steps xs w).1 ≡ waiting a w + count a (accepted xs (spec_steps xs w).0)
unfolding spec_steps spec_step my_queue_index
spec-waiting a [] w size = omega arith
spec-waiting a (enter k r ∷ xs) w size =
    let i = k % request_queue_count in
    let o = (enqueue r (fifo_at i w.fifos)).0 in
    let w' = (spec_step (enter k r) w).1 in
    omega (
      arith,
      enter-waiting a k r w size,
      spec-waiting a xs w' (length-set i (enqueue r (fifo_at i w.fifos)).1 w.fifos ∙ size),
      count-append a (taken o r) (accepted xs (spec_steps xs w').0),
    )
spec-waiting a (splice i ∷ xs) w size = omega (
  arith,
  clear-exact a i w.fifos,
  count-append a w.merged (fifo_at i w.fifos),
  spec-waiting a xs (spec_step (splice i) w).1 (length-set i [] w.fifos ∙ size),
)

-- Where the requests wait after a run, given where they waited before.
pub record Conserved (w : Waiting) (xs : List Step) (got : List PushOutcome × Ingress)
    : Type 0 where
  pub after : Waiting
  pub represents : Represents got.1 after
  pub exact :
      (a : ℕ)
      → count a (held after.fifos) + count a after.merged
        ≡ count a (held w.fifos) + count a w.merged + count a (accepted xs got.0)

-- Any interleaving of critical sections on a bank of 16 queues, where no request is pushed while
-- it still waits: the queues and the consumer's chain have exactly the requests that were there
-- before and those whose push did not return `queue_full`, each once.
pub steps-Conserved :
    (xs : List Step) (s : Ingress) (w : Waiting)
    → length w.fifos ≡ request_queue_count
    → Represents s w
    → Fresh xs w
    → Conserved w xs (run_steps xs s)
steps-Conserved xs s w size rep fresh =
    let agrees = steps-Agrees xs s w rep fresh in
    record {
      after = (spec_steps xs w).1;
      represents = agrees.state;
      exact = λ a. rw (agrees.outcomes) (spec-waiting a xs w size);
    }
