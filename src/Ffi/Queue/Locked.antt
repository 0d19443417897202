-- ===== src/Ffi/Queue/Locked.antt =====
-- One critical section, of a producer or of the consumer, on one queue.
use nim_ffi.Base.{
  ℕ, ◌+◌, ◌≤◌, ◌≡◌, refl, sym, ◌∙◌, Bool, true, false, inl, inr, none, some, List, [], ◌∷◌, ◌++◌,
  append-nil, count, length, length-append, arith, leb, Bool-cases, if◌then◌else◌,
}
use nim_ffi.Ffi.Queue.{
  Ptr, Links, RequestQueue, PushOutcome, queue_full, queued, queued_wake, Spliced, is_nil, link,
  request_queue_depth, push_locked, splice_locked,
}
use nim_ffi.Ffi.Queue.Chains.{Chain, last, Distinct, link-Chain, join-Chain, last-count}
use nim_ffi.Ffi.Queue.Stores.{Stores, nothing-Stores}

-- What a producer is promised: a bounded FIFO, and a wake for the first request in it.
unfoldable pub enqueue : ℕ → List ℕ → PushOutcome × List ℕ
enqueue r f =
    if leb request_queue_depth (length f)
    then (queue_full, f)
    else ((elim f as (λ _. PushOutcome) [ [] ↦ queued_wake | _ ∷ _ ↦ queued ]), f ++ r ∷ [])

last-snoc : (f : List ℕ) (r : ℕ) → last (f ++ r ∷ []) ≡ some r
last-snoc [] r = refl
last-snoc (x ∷ []) r = refl
last-snoc (x ∷ (y ∷ f)) r = last-snoc (y ∷ f) r

-- The links `next'` keep every chain that shares no request with `f`.
pub record Keeps (next next' : Links) (f : List ℕ) : Type 0 where
  pub chains :
      (p : Ptr) (xs : List ℕ)
      → ((a : ℕ) → count a xs + count a f ≤ 1)
      → Chain next p xs
      → Chain next' p xs

pub Keeps-Stores :
    {next next' : Links} {f : List ℕ}
    → Keeps next next' f
    → (g : List ℕ) → ((a : ℕ) → count a g + count a f ≤ 1)
    → (q : RequestQueue) → Stores next q g
    → Stores next' q g
Keeps-Stores k g apart q s = record {
  chain = k.chains q.head g apart s.chain;
  tail = s.tail;
  size = s.size;
  bounded = s.bounded;
}

pub Keeps-all : (next : Links) (f : List ℕ) → Keeps next next f
Keeps-all next f = record { chains = λ p xs apart c. c }

-- The last request of `f` is linked on.
pub link-Keeps :
    (t : ℕ) (p : Ptr) (next : Links) (f : List ℕ) → last f ≡ some t → Keeps next (link t p next) f
link-Keeps t p next f e = record {
  chains = λ q xs apart c. link-Chain t p next q xs (omega (arith, apart t, last-count f t e)) c;
}

pub record Pushed (next : Links) (f : List ℕ) (spec : PushOutcome × List ℕ)
    (got : PushOutcome × RequestQueue × Links) : Type 0 where
  pub outcome : got.0 ≡ spec.0
  pub stores : Stores got.2 got.1 spec.1
  pub keeps : Keeps next got.2 f

last-some : (x : ℕ) (f : List ℕ) → (t : ℕ) × (last (x ∷ f) ≡ some t)
last-some x [] = (x, refl)
last-some x (y ∷ f) = last-some y f

-- The test of the counter is a test of the list.
count_test :
    {next : Links} {q : RequestQueue} {f : List ℕ} (b : Bool)
    → Stores next q f
    → leb request_queue_depth (length f) ≡ b
    → leb request_queue_depth q.count ≡ b
count_test b s e = rw (s.size) e

module _ (next : Links) (r : ℕ) (ends : next r ≡ none) (q : RequestQueue) where
  refused-Pushed :
      (f : List ℕ)
      → leb request_queue_depth (length f) ≡ true
      → Stores next q f
      → Pushed next f (enqueue r f) (push_locked r q next)
  unfolding push_locked enqueue
  refused-Pushed f full s =
      rw (full, count_test true s full)
        (record { outcome = refl; stores = s; keeps = Keeps-all next f })

  first-Pushed : Stores next q [] → Pushed next [] (enqueue r []) (push_locked r q next)
  unfolding push_locked enqueue
  first-Pushed s =
      rw (count_test false s refl, s.tail)
        (record {
          outcome = refl;
          stores = record {
            chain = (refl, ends);
            tail = refl;
            size = omega (arith, s.size);
            bounded = omega arith;
          };
          keeps = Keeps-all next [];
        })

  next-Pushed :
      (x : ℕ) (f : List ℕ) (t : ℕ)
      → leb request_queue_depth (length (x ∷ f)) ≡ false
      → last (x ∷ f) ≡ some t
      → Distinct (x ∷ f ++ r ∷ [])
      → Stores next q (x ∷ f)
      → Pushed next (x ∷ f) (enqueue r (x ∷ f)) (push_locked r q next)
  unfolding push_locked enqueue
  next-Pushed x f t room e d s =
      rw (room, count_test false s room, s.tail ∙ e)
        (record {
          outcome = refl;
          stores = record {
            chain = join-Chain next q.head (some r) t (x ∷ f) (r ∷ []) e d s.chain (refl, ends);
            tail = sym (last-snoc (x ∷ f) r);
            size = omega (arith, s.size, length-append f (r ∷ []));
            bounded = ground (arith, room, length-append f (r ∷ []));
          };
          keeps = link-Keeps t (some r) next (x ∷ f) e;
        })

  pub push_locked-Pushed :
      (f : List ℕ)
      → Distinct (f ++ r ∷ [])
      → Stores next q f
      → Pushed next f (enqueue r f) (push_locked r q next)
  push_locked-Pushed [] d s = first-Pushed s
  push_locked-Pushed (x ∷ f) d s = elim (Bool-cases (leb request_queue_depth (length (x ∷ f)))) [
    | inl full ↦ refused-Pushed (x ∷ f) full s
    | inr room ↦ next-Pushed x f (last-some x f).0 room (last-some x f).1 d s
  ]

last-append : (xs : List ℕ) (y : ℕ) (f : List ℕ) → last (xs ++ y ∷ f) ≡ last (y ∷ f)
last-append [] y f = refl
last-append (x ∷ []) y f = refl
last-append (x ∷ (z ∷ xs)) y f = last-append (z ∷ xs) y f

-- The chain so far has the requests `xs`, the queue has the requests `f`.
pub record Moved (next : Links) (f xs : List ℕ) (got : RequestQueue × Links × Spliced)
    : Type 0 where
  pub stores : Stores got.1 got.0 []
  pub chain : Chain got.1 (got.2).head (xs ++ f)
  pub tail : (got.2).tail ≡ last (xs ++ f)
  pub keeps : Keeps next got.1 xs

a_head : (p : Ptr) (x : ℕ) → p ≡ some x → is_nil p ≡ false
a_head p x e = rw e refl

module _ (next : Links) (q : RequestQueue) (s : Spliced) where
  idle-Moved :
      (xs : List ℕ)
      → Stores next q []
      → Chain next s.head xs
      → s.tail ≡ last xs
      → Moved next [] xs (splice_locked q next s)
  unfolding splice_locked
  idle-Moved xs st c e =
      let idle : is_nil q.head ≡ true = rw (st.chain) refl in
      rw idle (record {
        stores = st;
        chain = rw (append-nil xs) c;
        tail = rw (append-nil xs) e;
        keeps = Keeps-all next xs;
      })

  start-Moved :
      (y : ℕ) (f : List ℕ)
      → Stores next q (y ∷ f)
      → s.head ≡ none
      → Moved next (y ∷ f) [] (splice_locked q next s)
  unfolding splice_locked
  start-Moved y f st e =
      let at_start : is_nil s.head ≡ true = rw e refl in
      rw (a_head q.head y st.chain.0, at_start)
        (record {
          stores = nothing-Stores next;
          chain = st.chain;
          tail = st.tail;
          keeps = Keeps-all next [];
        })

  join-Moved :
      (y : ℕ) (f : List ℕ) (x t : ℕ) (xs : List ℕ)
      → Stores next q (y ∷ f)
      → Distinct ((x ∷ xs) ++ y ∷ f)
      → Chain next s.head (x ∷ xs)
      → s.tail ≡ last (x ∷ xs)
      → last (x ∷ xs) ≡ some t
      → Moved next (y ∷ f) (x ∷ xs) (splice_locked q next s)
  unfolding splice_locked
  join-Moved y f x t xs st d c e last_t =
      rw (a_head q.head y st.chain.0, a_head s.head x c.0, e ∙ last_t)
        (record {
          stores = nothing-Stores (link t q.head next);
          chain = join-Chain next s.head q.head t (x ∷ xs) (y ∷ f) last_t d c st.chain;
          tail = st.tail ∙ sym (last-append (x ∷ xs) y f);
          keeps = link-Keeps t q.head next (x ∷ xs) last_t;
        })

  pub splice_locked-Moved :
      (f xs : List ℕ)
      → Stores next q f
      → Distinct (xs ++ f)
      → Chain next s.head xs
      → s.tail ≡ last xs
      → Moved next f xs (splice_locked q next s)
  splice_locked-Moved [] xs st d c e = idle-Moved xs st c e
  splice_locked-Moved (y ∷ f) [] st d c e = start-Moved y f st c
  splice_locked-Moved (y ∷ f) (x ∷ xs) st d c e =
      join-Moved y f x (last-some x xs).0 xs st d c e (last-some x xs).1
