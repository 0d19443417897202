-- ===== src/Heap/Laws.antt =====
-- Accounts of blocks: what an operation allocates is what its result owns.
use nim_ffi.Base.{
  ℕ, ◌+◌, ◌≤◌, ◌≡◌, refl, ◌∙◌, none, some, arith, count, one_if, has_of_count, count-erase,
}
use nim_ffi.Heap.{Heap, Ptr, malloc, free, replace, realloc}

-- How often a block stands among what a value owns.
abbrev pub Owned : Type 0
Owned = ℕ → ℕ

abbrev pub owned_ptr : Ptr → Owned
owned_ptr none a = 0
owned_ptr (some p) a = one_if a p

-- From `h` to `g` exactly the blocks of `o` were allocated, and nothing was misused.
pub record Gains (o : Owned) (h g : Heap) : Type 0 where
  pub live : (a : ℕ) → count a g.live ≡ o a + count a h.live
  pub bad : g.bad ≡ h.bad

-- From `h` to `g` exactly the blocks of `o` were freed, and nothing was misused.
pub record Loses (o : Owned) (h g : Heap) : Type 0 where
  pub live : (a : ℕ) → count a g.live + o a ≡ count a h.live
  pub bad : g.bad ≡ h.bad

abbrev pub Holds : Owned → Heap → Type 0
Holds o h = (a : ℕ) → o a ≤ count a h.live

pub Gains-refl : (h : Heap) → Gains (λ _. 0) h h
Gains-refl h = record { live = λ a. omega arith; bad = refl }

pub malloc-Gains : (h : Heap) → Gains (owned_ptr (malloc h).0) h (malloc h).1
unfolding malloc
malloc-Gains h = record { live = λ a. ground arith; bad = ground arith }

pub free-Loses : (p : Ptr) (h : Heap) → Holds (owned_ptr p) h → Loses (owned_ptr p) h (free p h)
unfolding free
free-Loses none h o = record { live = λ a. omega arith; bad = refl }
free-Loses (some p) h o = record {
  live = λ a. ground (arith, has_of_count p h.live, o p, count-erase a p h.live);
  bad = ground (arith, has_of_count p h.live, o p);
}

-- What was gained can be given back, and gains add up.
pub Gains-free : (p : Ptr) {h g : Heap} → Gains (owned_ptr p) h g → Gains (λ _. 0) h (free p g)
Gains-free p {h} {g} e =
    let back = free-Loses p g (λ a. omega (arith, e.live a)) in
    record { live = λ a. omega (arith, e.live a, back.live a); bad = back.bad ∙ e.bad }

pub Gains-add :
    {o o' : Owned} {h g k : Heap} → Gains o h g → Gains o' g k → Gains (λ a. o a + o' a) h k
Gains-add d e = record { live = λ a. omega (arith, d.live a, e.live a); bad = e.bad ∙ d.bad }

-- The same gains, counted another way.
pub Gains-as : {o o' : Owned} {h g : Heap} → Gains o h g → ((a : ℕ) → o a ≡ o' a) → Gains o' h g
Gains-as e same = record { live = λ a. omega (arith, e.live a, same a); bad = e.bad }

-- What holds two parts loses the one and then the other.
pub frees-both :
    {o o' : Owned} {h g k : Heap}
    → (Holds o h → Loses o h g)
    → (Holds o' g → Loses o' g k)
    → Holds (λ a. o a + o' a) h
    → Loses (λ a. o a + o' a) h k
frees-both f f' both =
    let d = f (λ a. omega (arith, both a)) in
    let e = f' (λ a. omega (arith, both a, d.live a)) in
    record { live = λ a. omega (arith, d.live a, e.live a); bad = e.bad ∙ d.bad }

-- To allocate what a value owns and then to free it leaves the same blocks as before.
pub Gains-Loses :
    {o : Owned} {h g k : Heap} → Gains o h g → (Holds o g → Loses o g k) → Gains (λ _. 0) h k
Gains-Loses d f =
    let e = f (λ a. omega (arith, d.live a)) in
    record { live = λ a. omega (arith, d.live a, e.live a); bad = e.bad ∙ d.bad }

-- Whichever block a `realloc` leaves, exactly that one is held.
pub data Regrown (p : Ptr) (h : Heap) : Ptr × Heap → Type 0 where
  stays : {g : Heap} → Gains (owned_ptr p) h g → Regrown p h (none, g)
  moves : {b : ℕ} {g : Heap} → Gains (owned_ptr (some b)) h g → Regrown p h (some b, g)

replace-Regrown :
    (p : Ptr) (r : Ptr × Heap) {h g : Heap}
    → Gains (owned_ptr p) h g
    → Gains (owned_ptr r.0) g r.1
    → Regrown p h (replace p r)
unfolding replace
replace-Regrown p (none, k) d e =
    stays (record { live = λ a. omega (arith, d.live a, e.live a); bad = e.bad ∙ d.bad })
replace-Regrown p (some b, k) d e =
    let f = free-Loses p k (λ a. omega (arith, d.live a, e.live a)) in
    moves (record {
      live = λ a. omega (arith, d.live a, e.live a, f.live a);
      bad = f.bad ∙ e.bad ∙ d.bad;
    })

pub realloc-Regrown : (p : Ptr) {h g : Heap} → Gains (owned_ptr p) h g → Regrown p h (realloc p g)
unfolding realloc
realloc-Regrown p {g} d = replace-Regrown p (malloc g) d (malloc-Gains g)

-- What is lost comes off what was gained.
pub Gains-minus :
    {o o' : Owned} {h g k : Heap}
    → Gains (λ a. o a + o' a) h g
    → (Holds o g → Loses o g k)
    → Gains o' h k
Gains-minus d f =
    let e = f (λ a. omega (arith, d.live a)) in
    record { live = λ a. omega (arith, d.live a, e.live a); bad = e.bad ∙ d.bad }

-- From `h` to `g` exactly the blocks of `o` were freed and those of `o'` allocated, and nothing was
-- misused.
pub record Swaps (o o' : Owned) (h g : Heap) : Type 0 where
  pub live : (a : ℕ) → count a g.live + o a ≡ count a h.live + o' a
  pub bad : g.bad ≡ h.bad

pub Loses-Swaps : {o : Owned} {h g : Heap} → Loses o h g → Swaps o (λ _. 0) h g
Loses-Swaps e = record { live = λ a. omega (arith, e.live a); bad = e.bad }

-- What was swapped for a part of the gains replaces it there.
pub Gains-Swaps :
    (p : Owned) {o o' : Owned} {h g k : Heap}
    → Gains (λ a. o a + p a) h g
    → Swaps o o' g k
    → Gains (λ a. o' a + p a) h k
Gains-Swaps p d e = record { live = λ a. omega (arith, d.live a, e.live a); bad = e.bad ∙ d.bad }
