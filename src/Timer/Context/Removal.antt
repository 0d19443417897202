-- ===== src/Timer/Context/Removal.antt =====
-- Removing a listener keeps the context's account.
use nim_ffi.Base.{
  ℕ, ◌+◌, ◌-◌, ◌==◌, ◌≡◌, ◌≢◌, refl, ◌∙◌, Bool, true, false, inl, inr, some, List, [], ◌∷◌, length,
  Bool-cases, ==_iff, ==_false, arith, one_if, count, ◌≤◌,
}
use nim_ffi.Heap.{Heap}
use nim_ffi.Heap.Laws.{Holds, free-Loses}
use nim_ffi.Timer.Context.{Listener, Ctx, last_to_front, drop_listener, remove_event_listener}
use nim_ffi.Timer.Context.Account.{owned_boxes, owned_ctx}
use nim_ffi.Timer.Context.Growth.{Keeps, Within}

-- How many listeners have an id.
abbrev pub with_id : ℕ → List Listener → ℕ
with_id id [] = 0
with_id id (x ∷ xs) = one_if id x.id + with_id id xs

-- The same listeners, in some order, as far as boxes and ids tell.
record Same (xs ys : List Listener) : Type 0 where
  boxes : (a : ℕ) → owned_boxes ys a ≡ owned_boxes xs a
  ids : (i : ℕ) → with_id i ys ≡ with_id i xs
  size : length ys ≡ length xs

swapped :
    (x : Listener) (xs ys : List Listener)
    → Same xs ys
    → Same (x ∷ xs) (elim ys [ [] ↦ x ∷ [] | z ∷ zs ↦ z ∷ x ∷ zs ])
swapped x xs [] s = record {
  boxes = λ a. omega (arith, s.boxes a);
  ids = λ i. omega (arith, s.ids i);
  size = omega (arith, s.size);
}
swapped x xs (z ∷ zs) s = record {
  boxes = λ a. omega (arith, s.boxes a);
  ids = λ i. omega (arith, s.ids i);
  size = omega (arith, s.size);
}

last_to_front-Same : (xs : List Listener) → Same xs (last_to_front xs)
unfolding last_to_front
last_to_front-Same [] = record { boxes = λ a. refl; ids = λ i. refl; size = refl }
last_to_front-Same (x ∷ []) = record { boxes = λ a. refl; ids = λ i. refl; size = refl }
last_to_front-Same (x ∷ y ∷ xs) =
    swapped x (y ∷ xs) (last_to_front (y ∷ xs)) (last_to_front-Same (y ∷ xs))

-- What a removal from a list does: the boxes that are gone are freed, one listener with the id is
-- gone if there was one, and the others stay.
record Drops (id : ℕ) (xs : List Listener) (h : Heap) (r : List Listener × Heap) : Type 0 where
  live : (a : ℕ) → count a r.1.live + owned_boxes xs a ≡ count a h.live + owned_boxes r.0 a
  bad : r.1.bad ≡ h.bad
  others : (i : ℕ) → i ≢ id → with_id i r.0 ≡ with_id i xs
  gone : with_id id r.0 ≡ with_id id xs - 1
  fewer : length r.0 ≤ length xs

one_if_is : (a b : ℕ) → (b == a) ≡ true → one_if a b ≡ 1
one_if_is a b e = ground arith

one_if_far : (a b : ℕ) → (b == a) ≡ false → one_if a b ≡ 0
one_if_far a b e = ground arith

one_if_other : (a b : ℕ) → a ≢ b → one_if a b ≡ 0
one_if_other a b e = ground (arith, e)

drop_listener-Drops :
    (id : ℕ) (xs : List Listener) (h : Heap)
    → Holds (owned_boxes xs) h
    → Drops id xs h (drop_listener id xs h)
unfolding drop_listener
drop_listener-Drops id [] h held = record {
  live = λ a. refl;
  bad = refl;
  others = λ i e. refl;
  gone = refl;
  fewer = omega arith;
}
drop_listener-Drops id (x ∷ xs) h held = elim (Bool-cases (x.id == id)) [
  | inl here ↦
      let same = (==_iff x.id id).0 here in
      let rest = last_to_front-Same xs in
      let f = free-Loses (some x.box) h (λ a. omega (arith, held a)) in
      rw here (record {
        live = λ a. omega (arith, f.live a, rest.boxes a);
        bad = f.bad;
        others = λ i e. omega (arith, rest.ids i, one_if_other i x.id (λ p. e (p ∙ same)));
        gone = omega (arith, rest.ids id, one_if_is id x.id here);
        fewer = omega (arith, rest.size);
      })
  | inr further ↦
      let rest = drop_listener-Drops id xs h (λ a. omega (arith, held a)) in
      rw further (record {
        live = λ a. omega (arith, rest.live a);
        bad = rest.bad;
        others = λ i e. omega (arith, rest.others i e);
        gone = omega (arith, rest.gone, one_if_far id x.id further);
        fewer = omega (arith, rest.fewer);
      })
]

-- The answer is whether the library's code is 0; the other fields stay.
pub record Removed (id : ℕ) (c : Ctx) (h : Heap) (rc : ℕ) (r : Bool × Ctx × Heap) : Type 0 where
  pub keeps : Keeps c h r.1 r.2
  pub within : Within r.1
  pub capacity : r.1.listeners_cap ≡ c.listeners_cap
  pub fewer : length r.1.listeners ≤ length c.listeners
  pub answer : r.0 ≡ (rc == 0)
  pub others : (i : ℕ) → i ≢ id → with_id i r.1.listeners ≡ with_id i c.listeners
  pub gone : with_id id r.1.listeners ≡ with_id id c.listeners - 1

-- `my_timer_ctx_remove_event_listener` with an id that is not 0, on a context whose blocks are all
-- allocated and whose listeners fit in the array, for any code of the library: of the listeners with that id one is
-- gone, if there was one, and those with other ids stay; its box is freed, so that what the
-- context loses is exactly what the heap loses, and no block is freed twice; the listeners still fit,
-- there are no more of them, and the capacity stays. The
-- answer is whether the library's code is 0.
pub remove_event_listener-Removed :
    (rc id : ℕ) (c : Ctx) (h : Heap)
    → Holds (owned_ctx c) h
    → Within c
    → id ≢ 0
    → Removed id c h rc (remove_event_listener rc id c h)
unfolding remove_event_listener
remove_event_listener-Removed rc id c h held within real =
    let d = drop_listener-Drops id c.listeners h (λ a. omega (arith, held a)) in
    rw (==_false id 0 real) (record {
      keeps = record { live = λ a. omega (arith, d.live a); bad = d.bad };
      within = omega (arith, d.fewer, within);
      capacity = refl;
      fewer = d.fewer;
      answer = refl;
      others = d.others;
      gone = d.gone;
    })
