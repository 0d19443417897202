-- ===== src/Timer/Context.antt =====
-- The context wrapper of the header, `MyTimerCtx`: its listeners, and its end. The library's
-- answers are parameters: the id of a new listener, and the return codes.
pub mod Account
pub mod Growth
pub mod Removal
pub mod Lifetime
use nim_ffi.Base.{
  ℕ, suc, ◌*◌, ◌^◌, ◌%◌, ◌==◌, Bool, true, false, none, some, Option, List, [], ◌∷◌, ◌++◌, length,
  if◌then◌else◌,
}
use nim_ffi.Heap.{Heap, Ptr, malloc, realloc, free}

-- `MyTimerCtxListener`.
pub record Listener : Type 0 where
  pub id : ℕ
  pub box : ℕ

-- `MyTimerCtx`: `block` is the struct's own, `listeners` are those in `array` up to `listeners_len`.
pub record Ctx : Type 0 where
  pub block : ℕ
  pub ptr : Option ℕ
  pub array : Ptr
  pub listeners : List Listener
  pub listeners_cap : ℕ

-- What a call leaves behind, and the calls of the library to remove a listener.
pub record Added : Type 0 where
  pub id : ℕ
  pub ctx : Ctx
  pub heap : Heap
  pub removed : List ℕ

unfoldable pub push : Ctx → Listener → Ctx
push c l = record c { listeners = c.listeners ++ l ∷ [] }

-- Behind `realloc`.
unfoldable pub add_grown : Ctx → Listener → (ncap : ℕ) → Ptr × Heap → Added
unfolding push
add_grown c l ncap (none, h) = record {
  id = 0;
  ctx = c;
  heap = free (some l.box) h;
  removed = l.id ∷ [];
}
add_grown c l ncap (some p, h) = record {
  id = l.id;
  ctx = push (record c { array = some p; listeners_cap = ncap }) l;
  heap = h;
  removed = [];
}

-- Behind `malloc` of the box; `id` is what the library answers. The doubled capacity wraps as
-- `size_t` does; the number of bytes that `realloc` is asked for, `ncap * sizeof` of a listener, is
-- not modelled, as no size of an allocation is.
unfoldable pub add_boxed : Ctx → (id : ℕ) → Ptr × Heap → Added
unfolding add_grown
add_boxed c id (none, h) = record { id = 0; ctx = c; heap = h; removed = [] }
add_boxed c id (some b, h) =
    if id == 0
    then record { id = 0; ctx = c; heap = free (some b) h; removed = [] }
    else if length c.listeners == c.listeners_cap
    then (let ncap = if c.listeners_cap == 0 then 4 else (c.listeners_cap * 2) % 2 ^ 64 in
        add_grown c (record { id = id; box = b }) ncap (realloc c.array h))
    else record { id = id; ctx = push c (record { id = id; box = b }); heap = h; removed = [] }

-- `my_timer_ctx_add_on_echo_fired_listener` and `my_timer_ctx_add_on_job_scheduled_listener`, which
-- differ only in the event's name and the trampoline.
unfoldable pub add_listener : (register : ℕ → ℕ) → Ctx → Heap → Added
unfolding add_boxed
add_listener register c h =
    let r = malloc h in add_boxed c (elim r.0 [ none ↦ 0 | some b ↦ register b ]) r

-- The last listener takes the place of the removed one.
unfoldable pub last_to_front : List Listener → List Listener
last_to_front [] = []
last_to_front (x ∷ []) = x ∷ []
last_to_front (x ∷ y ∷ xs) = elim (last_to_front (y ∷ xs)) [ [] ↦ x ∷ [] | z ∷ zs ↦ z ∷ x ∷ zs ]

unfoldable pub drop_listener : ℕ → List Listener → Heap → List Listener × Heap
unfolding last_to_front
drop_listener id [] h = ([], h)
drop_listener id (x ∷ xs) h =
    let rest = drop_listener id xs h in
    if x.id == id then (last_to_front xs, free (some x.box) h) else (x ∷ rest.0, rest.1)

-- `my_timer_ctx_remove_event_listener`; `rc` is what the library answers.
unfoldable pub remove_event_listener : (rc id : ℕ) → Ctx → Heap → Bool × Ctx × Heap
unfolding drop_listener
remove_event_listener rc id c h =
    let left = drop_listener id c.listeners h in
    if id == 0 then (false, c, h) else (rc == 0, record c { listeners = left.0 }, left.1)

unfoldable pub free_boxes : List Listener → Heap → Heap
free_boxes [] h = h
free_boxes (x ∷ xs) h = free_boxes xs (free (some x.box) h)

-- `my_timer_ctx_destroy` of a context; `answer` is the library's code, asked for if there is a
-- pointer. The boxes stay if it is not `NIMFFI_RET_OK`.
unfoldable pub ctx_destroy : (answer : ℕ) → Ctx → Heap → ℕ × Heap
unfolding free_boxes
ctx_destroy answer c h =
    let rc : ℕ = elim c.ptr [ none ↦ 0 | some p ↦ answer ] in
    let h1 = if rc == 0 then free_boxes c.listeners h else h in
    (rc, free (some c.block) (free c.array h1))
