-- ===== src/Timer/Context/Growth.antt =====
-- Adding a listener keeps the context's account and the bound of its array.
use nim_ffi.Base.{
  ℕ, suc, ◌+◌, ◌*◌, ◌^◌, ◌%◌, ◌≤◌, ◌<◌, ◌==◌, ◌≡◌, ◌≢◌, refl, sym, ap, ◌∙◌, ◌⊎◌, false, inl, inr,
  none, some, List, [], ◌∷◌, ◌++◌, length, length-append, Bool-cases, ==_iff, arith, one_if, count,
  if◌then◌else◌,
}
use nim_ffi.Heap.{Heap, Ptr, malloc, realloc, free}
use nim_ffi.Heap.Laws.{
  Gains, Loses, Holds, owned_ptr, malloc-Gains, free-Loses, Regrown, stays, moves, realloc-Regrown,
}
use nim_ffi.Timer.Context.{Listener, Ctx, Added, push, add_grown, add_boxed, add_listener}
use nim_ffi.Timer.Context.Account.{owned_boxes, owned_ctx}

-- What the context gains, the heap gains.
pub record Keeps (c : Ctx) (h : Heap) (c' : Ctx) (h' : Heap) : Type 0 where
  pub live : (a : ℕ) → count a h'.live + owned_ctx c a ≡ count a h.live + owned_ctx c' a
  pub bad : h'.bad ≡ h.bad

-- The listeners fit in the array.
abbrev pub Within : Ctx → Type 0
Within c = length c.listeners ≤ c.listeners_cap

-- There is a place for one more listener, in the heap `g` where its box is allocated: the array is
-- not full, or it can be reallocated.
abbrev pub HasPlace : Ctx → Heap → Type 0
HasPlace c g = (length c.listeners ≢ c.listeners_cap) ⊎ ((realloc c.array g).0 ≢ none)

-- The listener came behind the others, in a box that the library knows by the id returned; or 0 is
-- returned and the context is as it was, since there is no box, or the library refuses, or the
-- array is full and cannot grow, and then the library is told to remove the listener again.
pub data Extends (c : Ctx) (h : Heap) (register : ℕ → ℕ) (r : Added) : Type 0 where
  extended :
      (b : ℕ)
      → (malloc h).0 ≡ some b
      → register b ≢ 0
      → HasPlace c (malloc h).1
      → r.id ≡ register b
      → r.ctx.listeners ≡ c.listeners ++ record { id = r.id; box = b } ∷ []
      → r.removed ≡ []
      → Extends c h register r
  no_box : (malloc h).0 ≡ none → r.id ≡ 0 → r.ctx ≡ c → r.removed ≡ [] → Extends c h register r
  refused :
      (b : ℕ)
      → (malloc h).0 ≡ some b
      → register b ≡ 0
      → r.id ≡ 0
      → r.ctx ≡ c
      → r.removed ≡ []
      → Extends c h register r
  no_place :
      (b : ℕ)
      → (malloc h).0 ≡ some b
      → register b ≢ 0
      → length c.listeners ≡ c.listeners_cap
      → (realloc c.array (malloc h).1).0 ≡ none
      → r.id ≡ 0
      → r.ctx ≡ c
      → r.removed ≡ register b ∷ []
      → Extends c h register r

pub record Sums (c : Ctx) (h : Heap) (register : ℕ → ℕ) (r : Added) : Type 0 where
  pub keeps : Keeps c h r.ctx r.heap
  pub within : Within r.ctx
  pub extends : Extends c h register r
  pub capped :
      (r.ctx.listeners_cap ≡ c.listeners_cap) ⊎ (r.ctx.listeners_cap ≤ 4 + 2 * length c.listeners)

owned_boxes-append :
    (xs : List Listener) (l : Listener) (a : ℕ)
    → owned_boxes (xs ++ l ∷ []) a ≡ owned_boxes xs a + one_if a l.box
owned_boxes-append [] l a = omega arith
owned_boxes-append (x ∷ xs) l a = omega (arith, owned_boxes-append xs l a)

differ : (m n : ℕ) → (m == n) ≡ false → m ≢ n
differ m n e = ground arith

room_left : (m n : ℕ) → m ≤ n → (m == n) ≡ false → suc m ≤ n
room_left m n fits e = ground arith

module _ (c : Ctx) (h : Heap) (register : ℕ → ℕ) (held : Holds (owned_ctx c) h) (within : Within c)
    (b : ℕ) (g : Heap) (box_made : malloc h ≡ (some b, g))
    (boxed : Gains (owned_ptr (some b)) h g) where
  abbrev listener : Listener
  listener = record { id = register b; box = b }

  -- The array may hold the new listener.
  push-Sums :
      register b ≢ 0
      → length c.listeners ≢ c.listeners_cap
      → suc (length c.listeners) ≤ c.listeners_cap
      → Sums c h register
          (record { id = register b; ctx = push c listener; heap = g; removed = [] })
  unfolding push
  push-Sums known not_full room = record {
    keeps = record {
      live = λ a. omega (arith, boxed.live a, owned_boxes-append c.listeners listener a);
      bad = boxed.bad;
    };
    within = omega (arith, room, length-append c.listeners (listener ∷ []));
    extends = extended b (ap (λ m. m.0) box_made) known (inl not_full) refl refl refl;
    capped = inl refl;
  }

  refused-Sums :
      (removed : List ℕ) (k : Heap)
      → Gains (owned_ptr (some b)) h k
      → let r : Added = record { id = 0; ctx = c; heap = free (some b) k; removed = removed } in
        Extends c h register r → Sums c h register r
  refused-Sums removed k e why =
      let f = free-Loses (some b) k (λ a. omega (arith, e.live a)) in
      record {
        keeps = record { live = λ a. omega (arith, e.live a, f.live a); bad = f.bad ∙ e.bad };
        within = within;
        extends = why;
        capped = inl refl;
      }

  grown-Sums :
      (ncap : ℕ) (r : Ptr × Heap)
      → register b ≢ 0
      → length c.listeners ≡ c.listeners_cap
      → realloc c.array g ≡ r
      → suc (length c.listeners) ≤ ncap
      → ncap ≤ 4 + 2 * length c.listeners
      → Loses (owned_ptr c.array) g (free c.array g)
      → Regrown c.array (free c.array g) r
      → Sums c h register (add_grown c listener ncap r)
  unfolding add_grown push
  grown-Sums ncap (none, k) known full regrown room most gone (stays e) =
      refused-Sums _ k
        (record {
          live = λ a. omega (arith, e.live a, gone.live a, boxed.live a);
          bad = e.bad ∙ gone.bad ∙ boxed.bad;
        })
        (no_place b (ap (λ m. m.0) box_made) known full
          (ap (λ m. (realloc c.array m.1).0) box_made ∙ ap (λ m. m.0) regrown) refl refl refl)
  grown-Sums ncap (some p, k) known full regrown room most gone (moves e) = record {
    keeps = record {
      live = λ a.
          omega
            (arith, e.live a, gone.live a, boxed.live a, owned_boxes-append c.listeners listener a);
      bad = e.bad ∙ gone.bad ∙ boxed.bad;
    };
    within = omega (arith, room, length-append c.listeners (listener ∷ []));
    extends =
        extended b (ap (λ m. m.0) box_made) known
          (inr (λ e. cc (e, ap (λ m. (realloc c.array m.1).0) box_made ∙ ap (λ m. m.0) regrown)))
          refl refl refl;
    capped = inr most;
  }

  boxed-Sums : c.listeners_cap < 2 ^ 63 → Sums c h register (add_boxed c (register b) (some b, g))
  unfolding add_boxed
  boxed-Sums small =
      let gone = free-Loses c.array g (λ a. omega (arith, held a, boxed.live a)) in
      let ncap = if c.listeners_cap == 0 then 4 else (c.listeners_cap * 2) % 2 ^ 64 in
      let larger : c.listeners_cap < ncap = ground (arith, small) in
      elim (Bool-cases (register b == 0)) [
        | inl zero ↦
            let unknown = (==_iff (register b) 0).0 zero in
            rw zero
              (refused-Sums [] g boxed (refused b (ap (λ m. m.0) box_made) unknown refl refl refl))
        | inr good ↦ rw good (elim (Bool-cases (length c.listeners == c.listeners_cap)) [
          | inl full ↦
              let same = (==_iff (length c.listeners) c.listeners_cap).0 full in
              rw full (
                grown-Sums ncap (realloc c.array g) (differ (register b) 0 good) same refl
                  (omega (arith, same, larger)) (ground (arith, same, small)) gone
                  (realloc-Regrown c.array
                    (record { live = λ a. omega (arith, gone.live a); bad = sym gone.bad })))
          | inr room ↦ rw room (
              push-Sums (differ (register b) 0 good) (differ _ _ room)
                (room_left (length c.listeners) c.listeners_cap within room))
        ])
      ]

-- `my_timer_ctx_add_on_echo_fired_listener` and `my_timer_ctx_add_on_job_scheduled_listener`, on a
-- context whose blocks are all allocated, whose listeners fit in the array, and whose capacity is
-- less than 2^63. If the box is allocated, the library's id is not 0, and the array is not full or
-- can be reallocated, the listener's box stands behind the others with that id, which is returned.
-- In every other case 0 is returned and the context is as it was; only where the array cannot
-- grow, the library is told to remove the listener that it has registered. The listeners fit in
-- the array afterwards, the capacity is the old one or at most four more than twice their old
-- number, what the context gains is exactly what the heap gains, and no block is freed twice.
pub add_listener-Sums :
    (register : ℕ → ℕ) (c : Ctx) (h : Heap)
    → Holds (owned_ctx c) h
    → Within c
    → c.listeners_cap < 2 ^ 63
    → Sums c h register (add_listener register c h)
unfolding add_listener add_boxed
add_listener-Sums register c h held within small = go (malloc h) refl (malloc-Gains h)
  where
    go :
        (r : Ptr × Heap)
        → malloc h ≡ r
        → Gains (owned_ptr r.0) h r.1
        → Sums c h register (add_boxed c (elim r.0 [ none ↦ 0 | some b ↦ register b ]) r)
    go (none, g) made e = record {
      keeps = record { live = λ a. omega (arith, e.live a); bad = e.bad };
      within = within;
      extends = no_box (ap (λ m. m.0) made) refl refl refl;
      capped = inl refl;
    }
    go (some b, g) made e = boxed-Sums c h register held within b g made e small
