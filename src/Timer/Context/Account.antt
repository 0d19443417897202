-- ===== src/Timer/Context/Account.antt =====
-- What a context owns, and that its operations keep the account.
use nim_ffi.Base.{
  ℕ, ◌+◌, ◌≤◌, ◌==◌, ◌≡◌, refl, ◌∙◌, Bool, true, false, none, Option, some, List, [], ◌∷◌, arith,
  one_if, if◌then◌else◌,
}
use nim_ffi.Heap.{Heap, free}
use nim_ffi.Heap.Laws.{Owned, owned_ptr, Loses, Holds, free-Loses, frees-both}
use nim_ffi.Timer.Context.{Listener, Ctx, free_boxes, ctx_destroy}

abbrev pub owned_boxes : List Listener → Owned
owned_boxes [] a = 0
owned_boxes (x ∷ xs) a = one_if a x.box + owned_boxes xs a

-- The struct, the array and the boxes.
abbrev pub owned_ctx : Ctx → Owned
owned_ctx c a = one_if a c.block + (owned_ptr c.array a + owned_boxes c.listeners a)

free_boxes-Loses :
    (xs : List Listener) (h : Heap)
    → Holds (owned_boxes xs) h
    → Loses (owned_boxes xs) h (free_boxes xs h)
unfolding free_boxes
free_boxes-Loses [] h o = record { live = λ a. omega arith; bad = refl }
free_boxes-Loses (x ∷ xs) h o = frees-both (free-Loses (some x.box) h) (free_boxes-Loses xs _) o

freed-Loses :
    (c : Ctx) (h g : Heap) (o : Owned)
    → Holds (owned_ctx c) h
    → Loses o h g
    → ((a : ℕ) → o a ≤ owned_boxes c.listeners a)
    → Loses
        (λ a. one_if a c.block + (owned_ptr c.array a + o a))
        h
        (free (some c.block) (free c.array g))
freed-Loses c h g o held l part =
    let array = free-Loses c.array g (λ a. omega (arith, held a, l.live a, part a)) in
    let struct =
      free-Loses (some c.block) (free c.array g)
        (λ a. omega (arith, held a, l.live a, array.live a, part a)) in
    record {
      live = λ a. omega (arith, l.live a, array.live a, struct.live a);
      bad = struct.bad ∙ array.bad ∙ l.bad;
    }

-- What the library answers to the end of a context: its code, or `NIMFFI_RET_OK`, without asking,
-- where the context has no pointer.
abbrev pub destroy_code : (answer : ℕ) → Ctx → ℕ
destroy_code answer c = elim c.ptr [ none ↦ 0 | some p ↦ answer ]

-- The boxes are not in use any more.
abbrev pub accepted : (answer : ℕ) → Ctx → Bool
accepted answer c = elim c.ptr [ none ↦ true | some p ↦ answer == 0 ]

accepted_lem : (answer : ℕ) (c : Ctx) → (destroy_code answer c == 0) ≡ accepted answer c
accepted_lem answer c = go c.ptr
  where
    go :
        (p : Option ℕ)
        → (elim p as (λ _. ℕ) [ none ↦ 0 | some a ↦ answer ] == 0)
          ≡ elim p as (λ _. Bool) [ none ↦ true | some a ↦ answer == 0 ]
    go none = refl
    go (some a) = refl

-- `my_timer_ctx_destroy` on a context whose blocks are all allocated: it returns the library's code, or
-- `NIMFFI_RET_OK` where the context has no pointer. Where the library answers `NIMFFI_RET_OK`, or
-- the context has no pointer, exactly the blocks of the context are freed: the struct, the array
-- and every listener's box; otherwise the struct and the array are, and the boxes stay allocated.
-- No block is freed twice.
pub ctx_destroy-Loses :
    (answer : ℕ) (c : Ctx) (h : Heap)
    → Holds (owned_ctx c) h
    → let r = ctx_destroy answer c h in
      (r.0 ≡ destroy_code answer c)
      × Loses
          (λ a.
            one_if a c.block
            + (owned_ptr c.array a + (if accepted answer c then owned_boxes c.listeners a else 0)))
          h
          r.1
unfolding ctx_destroy
ctx_destroy-Loses answer c h held =
    (refl, go (destroy_code answer c == 0) (accepted answer c) (accepted_lem answer c))
  where
    go :
        (done ok : Bool)
        → done ≡ ok
        → Loses
            (λ a.
              one_if a c.block
              + (owned_ptr c.array a + (if ok then owned_boxes c.listeners a else 0)))
            h
            (free (some c.block) (free c.array (if done then free_boxes c.listeners h else h)))
    go true true e =
        freed-Loses c h _ (owned_boxes c.listeners) held
          (free_boxes-Loses c.listeners h (λ a. omega (arith, held a))) (λ a. omega arith)
    go false false e =
        freed-Loses c h h (λ _. 0) held (record { live = λ a. omega arith; bad = refl })
          (λ a. omega arith)
    go true false e = cc e
    go false true e = cc e
