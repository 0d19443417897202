-- ===== src/Timer/Context/Lifetime.antt =====
-- A context from its creation to its end: listeners come and go, and at the end nothing is left.
use nim_ffi.Base.{
  ℕ, zero, suc, ◌+◌, ◌*◌, ◌^◌, ◌≤◌, ◌<◌, ◌≡◌, refl, ◌∙◌, ap, inl, inr, Bool, true, none, some,
  Option, List, [], ◌∷◌, length, length-append, arith, ◌==◌, if◌then◌else◌,
}
use nim_ffi.Heap.{Heap}
use nim_ffi.Heap.Laws.{Gains, Holds}
use nim_ffi.Timer.Context.{Ctx, Added, add_listener, remove_event_listener, ctx_destroy}
use nim_ffi.Timer.Context.Account.{owned_boxes, owned_ctx, accepted, ctx_destroy-Loses}
use nim_ffi.Timer.Context.Growth.{
  Within, Extends, extended, no_box, refused, no_place, add_listener-Sums,
}
use nim_ffi.Timer.Context.Removal.{remove_event_listener-Removed}
use nim_ffi.Timer.Create.{make_ctx}

-- What a host does with a context: the library's answers stand beside the call.
pub data CtxOp : Type 0 where
  add : (register : ℕ → ℕ) → CtxOp
  remove : (rc id : ℕ) → CtxOp

unfoldable pub run_op : CtxOp → Ctx × Heap → Ctx × Heap
run_op (add register) s = let r = add_listener register s.0 s.1 in (r.ctx, r.heap)
run_op (remove rc id) s = let r = remove_event_listener rc id s.0 s.1 in (r.1, r.2)

unfoldable pub run_ops : List CtxOp → Ctx × Heap → Ctx × Heap
unfolding run_op
run_ops [] s = s
run_ops (o ∷ os) s = run_ops os (run_op o s)

-- After at most `k` operations on a new context, beside the blocks of `h`.
record Alive (k : ℕ) (h : Heap) (s : Ctx × Heap) : Type 0 where
  gains : Gains (owned_ctx s.0) h s.1
  within : Within s.0
  few : length s.0.listeners ≤ k
  capped : s.0.listeners_cap ≤ 4 + 2 * k

add-Alive :
    (register : ℕ → ℕ) (k : ℕ) (h : Heap) (s : Ctx × Heap)
    → k < 2 ^ 61
    → Alive k h s
    → Alive (suc k) h (run_op (add register) s)
unfolding run_op
add-Alive register k h (c, g) small a =
    let sums =
      add_listener-Sums register c g (λ x. omega (arith, a.gains.live x)) a.within
        (omega (arith, a.capped, small)) in
    record {
      gains = record {
        live = λ x. omega (arith, a.gains.live x, sums.keeps.live x);
        bad = sums.keeps.bad ∙ a.gains.bad;
      };
      within = sums.within;
      few = longer sums.extends;
      capped = elim sums.capped [
        | inl same ↦ omega (arith, same, a.capped)
        | inr doubled ↦ omega (arith, doubled, a.few)
      ];
    }
  where
    longer : {r : Added} → Extends c g register r → length (r.ctx.listeners) ≤ suc k
    longer (extended b box known place e xs kept) =
        rw xs (omega (arith, a.few, length-append c.listeners (record { id = _; box = b } ∷ [])))
    longer (no_box none_made none_added same kept) = rw same (omega (arith, a.few))
    longer (refused b box unknown none_added same kept) = rw same (omega (arith, a.few))
    longer (no_place b box known full short none_added same told) = rw same (omega (arith, a.few))

remove-Alive :
    (rc id k : ℕ) (h : Heap) (s : Ctx × Heap)
    → Alive k h s
    → Alive (suc k) h (run_op (remove rc id) s)
unfolding run_op remove_event_listener
remove-Alive rc zero k h (c, g) a = record {
  gains = a.gains;
  within = a.within;
  few = omega (arith, a.few);
  capped = omega (arith, a.capped);
}
remove-Alive rc (suc id) k h (c, g) a =
    let removed =
      remove_event_listener-Removed rc (suc id) c g (λ x. omega (arith, a.gains.live x)) a.within
        (λ e. absurd (omega (arith, e))) in
    record {
      gains = record {
        live = λ x. omega (arith, a.gains.live x, removed.keeps.live x);
        bad = removed.keeps.bad ∙ a.gains.bad;
      };
      within = removed.within;
      few = omega (arith, removed.fewer, a.few);
      capped = omega (arith, removed.capacity, a.capped);
    }

op-Alive :
    (o : CtxOp) (k : ℕ) (h : Heap) (s : Ctx × Heap)
    → k < 2 ^ 61
    → Alive k h s
    → Alive (suc k) h (run_op o s)
op-Alive (add register) k h s small a = add-Alive register k h s small a
op-Alive (remove rc id) k h s small a = remove-Alive rc id k h s a

ops-Alive :
    (os : List CtxOp) (k : ℕ) (h : Heap) (s : Ctx × Heap)
    → k + length os < 2 ^ 61
    → Alive k h s
    → Alive (k + length os) h (run_ops os s)
unfolding run_ops
ops-Alive [] k h s small a = record {
  gains = a.gains;
  within = a.within;
  few = omega (arith, a.few);
  capped = omega (arith, a.capped);
}
ops-Alive (o ∷ os) k h s small a =
    let all =
      ops-Alive os (suc k) h (run_op o s) (omega (arith, small))
        (op-Alive o k h s (omega (arith, small)) a) in
    record {
      gains = all.gains;
      within = all.within;
      few = omega (arith, all.few);
      capped = omega (arith, all.capped);
    }

accepted_ok : (c : Ctx) → accepted 0 c ≡ true
accepted_ok c = go c.ptr
  where
    go : (p : Option ℕ) → elim p as (λ _. Bool) [ none ↦ true | some a ↦ 0 == 0 ] ≡ true
    go none = refl
    go (some a) = refl

-- A context that `my_timer_ctx_create` has just made in block `b`, any sequence of fewer than 2^61
-- calls that add and remove listeners, with any answers of the library and any allocation
-- failures, and then `my_timer_ctx_destroy` to which the library answers `NIMFFI_RET_OK`: the heap
-- has exactly the blocks that it had before the creation, and no block was freed twice.
pub lifetime-Balances :
    (b addr : ℕ) (os : List CtxOp) (h g : Heap)
    → length os < 2 ^ 61
    → Gains (owned_ctx (make_ctx b addr)) h g
    → let s = run_ops os (make_ctx b addr, g) in Gains (λ _. 0) h (ctx_destroy 0 s.0 s.1).1
unfolding make_ctx
lifetime-Balances b addr os h g small made =
    let start : Alive 0 h (make_ctx b addr, g) = record {
      gains = made;
      within = omega arith;
      few = omega arith;
      capped = omega arith;
    } in
    let s = run_ops os (make_ctx b addr, g) in
    let alive = ops-Alive os 0 h (make_ctx b addr, g) (omega (arith, small)) start in
    let owned : Holds (owned_ctx s.0) s.1 = λ x. omega (arith, alive.gains.live x) in
    let end = (ctx_destroy-Loses 0 s.0 s.1 owned).1 in
    record {
      live = λ x. omega (
        arith,
        alive.gains.live x,
        end.live x,
        ap (λ t. if t then owned_boxes s.0.listeners x else 0) (accepted_ok s.0),
      );
      bad = end.bad ∙ alive.gains.bad;
    }
