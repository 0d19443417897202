-- ===== src/Ffi/Request/Payload.antt =====
-- The buffer of a request: one that the host hands over, `initFromOwnedShared`, and the reply that
-- takes the place of the request's bytes for a host that polls, `setReply`.
use nim_ffi.Base.{ℕ, ◌≡◌, ◌≢◌, refl, sym, ap, ◌∙◌, false, none, some, Option, List, [], ◌∷◌, arith}
use nim_ffi.Heap.{Heap, Ptr, malloc, free}
use nim_ffi.Heap.Laws.{Owned, owned_ptr, Gains, Holds, Swaps, malloc-Gains, free-Loses}
use nim_ffi.Ffi.Request.{
  ret_err, cbor_null_byte, FfiThreadRequest, Outcome, value, error, outcome_ret, base_request,
  alloc_base_request,
}
use nim_ffi.Ffi.Request.Answered.{
  owned_request, owned_opt_request, base_request-Gains, base_request_bare,
}

-- `adoptOwnedSharedPayload`: a buffer of no bytes is freed.
unfoldable pub adopt_payload : Ptr → List ℕ → FfiThreadRequest → Heap → FfiThreadRequest × Heap
unfolding free
adopt_payload none bytes r h = (r, h)
adopt_payload (some b) [] r h = (r, free (some b) h)
adopt_payload (some b) (x ∷ xs) r h = (record r { buffer = some b; payload = x ∷ xs }, h)

-- Behind `allocBaseRequest`.
unfoldable pub adopted :
    Ptr → List ℕ → Option FfiThreadRequest × Heap → Option FfiThreadRequest × Heap
unfolding adopt_payload free
adopted p bytes (none, h) = (none, free p h)
adopted p bytes (some r, h) = let (r', h') = adopt_payload p bytes r h in (some r', h')

unfoldable pub init_from_owned :
    (user_data : ℕ) → Ptr → List ℕ → Heap → Option FfiThreadRequest × Heap
unfolding adopted alloc_base_request
init_from_owned user_data p bytes h = adopted p bytes (alloc_base_request user_data h)

-- The bytes of a reply: CBOR null for a reply without a value.
abbrev pub reply_bytes : Outcome → List ℕ
reply_bytes (value []) = cbor_null_byte ∷ []
reply_bytes (value (x ∷ xs)) = x ∷ xs
reply_bytes (error text) = text

-- Behind the `c_malloc` of the reply's buffer; the first component is `retCode`.
unfoldable pub stored_reply :
    ℕ → List ℕ → FfiThreadRequest → Ptr × Heap → ℕ × FfiThreadRequest × Heap
stored_reply ret bytes r (none, h) = (ret_err, r, h)
stored_reply ret bytes r (some b, h) = (ret, record r { buffer = some b; payload = bytes }, h)

unfoldable pub store_reply : ℕ → List ℕ → FfiThreadRequest → Heap → ℕ × FfiThreadRequest × Heap
unfolding stored_reply malloc
store_reply ret [] r h = (ret, r, h)
store_reply ret (x ∷ xs) r h = stored_reply ret (x ∷ xs) r (malloc h)

unfoldable pub set_reply : Outcome → FfiThreadRequest → Heap → ℕ × FfiThreadRequest × Heap
unfolding store_reply free
set_reply res r h =
    store_reply (outcome_ret res) (reply_bytes res) (record r { buffer = none; payload = [] })
      (free r.buffer h)

adopted-Swaps :
    (p : Ptr) (bytes : List ℕ) (got : Option FfiThreadRequest × Heap) (h : Heap)
    → ((r : FfiThreadRequest) → got.0 ≡ some r → r.buffer ≡ none)
    → Holds (owned_ptr p) h
    → Gains (owned_opt_request got.0) h got.1
    → Swaps (owned_ptr p) (owned_opt_request (adopted p bytes got).0) h (adopted p bytes got).1
unfolding adopted adopt_payload
adopted-Swaps p bytes (none, g) h bare held e =
    let freed = free-Loses p g (λ a. omega (arith, held a, e.live a)) in
    record { live = λ a. omega (arith, e.live a, freed.live a); bad = freed.bad ∙ e.bad }
adopted-Swaps none bytes (some r, g) h bare held e = record {
  live = λ a. omega (arith, e.live a);
  bad = e.bad;
}
adopted-Swaps (some b) [] (some r, g) h bare held e =
    let freed = free-Loses (some b) g (λ a. omega (arith, held a, e.live a)) in
    record { live = λ a. omega (arith, e.live a, freed.live a); bad = freed.bad ∙ e.bad }
adopted-Swaps (some b) (x ∷ xs) (some r, g) h bare held e = record {
  live = λ a.
      let nothing : owned_ptr r.buffer a ≡ 0 = rw (bare r refl) refl in
      omega (arith, e.live a, nothing);
  bad = e.bad;
}

-- What a request keeps of a buffer that the host hands over: nothing of nil or of no bytes.
abbrev pub kept_buffer : Ptr → List ℕ → Ptr
kept_buffer none bytes = none
kept_buffer (some b) [] = none
kept_buffer (some b) (x ∷ xs) = some b

abbrev pub kept_payload : Ptr → List ℕ → List ℕ
kept_payload none bytes = []
kept_payload (some b) [] = []
kept_payload (some b) (x ∷ xs) = x ∷ xs

-- Without an envelope there is no request; else the request has the envelope, the host's `user_data`,
-- the copy of `reqId`, if that could be allocated, and what it keeps of the buffer.
pub record Adopts (user : ℕ) (p : Ptr) (bytes : List ℕ) (h : Heap)
    (got : Option FfiThreadRequest × Heap) : Type 0 where
  pub swaps : Swaps (owned_ptr p) (owned_opt_request got.0) h got.1
  pub refused : (malloc h).0 ≡ none → got.0 ≡ none
  pub enveloped :
      (b : ℕ)
      → (malloc h).0 ≡ some b
      → got.0
        ≡ some (record {
          block = b;
          user_data = user;
          req_id = (malloc (malloc h).1).0;
          buffer = kept_buffer p bytes;
          payload = kept_payload p bytes;
          responded = false;
        })

adopted-refused :
    (user : ℕ) (p : Ptr) (bytes : List ℕ) (m : Ptr × Heap)
    → m.0 ≡ none
    → (adopted p bytes (base_request user m)).0 ≡ none
unfolding adopted base_request
adopted-refused user p bytes (none, g) e = refl
adopted-refused user p bytes (some b, g) e = cc

adopted-enveloped :
    (user : ℕ) (p : Ptr) (bytes : List ℕ) (m : Ptr × Heap) (b : ℕ)
    → m.0 ≡ some b
    → (adopted p bytes (base_request user m)).0
      ≡ some (record {
        block = b;
        user_data = user;
        req_id = (malloc m.1).0;
        buffer = kept_buffer p bytes;
        payload = kept_payload p bytes;
        responded = false;
      })
unfolding adopted adopt_payload base_request
adopted-enveloped user p bytes (none, g) b e = cc
adopted-enveloped user none bytes (some a, g) b e = cc
adopted-enveloped user (some p) [] (some a, g) b e = cc
adopted-enveloped user (some p) (x ∷ xs) (some a, g) b e = cc

-- `initFromOwnedShared` with a buffer that is allocated, or nil. If the envelope cannot be allocated,
-- there is no request, and the buffer is freed. Otherwise there is one with the host's
-- `user_data`, unanswered, with a copy of `reqId` if that could be allocated: a buffer with bytes is the request's with those bytes; a buffer without
-- bytes is freed, and the request has none. What the request owns is allocated, and nothing else
-- has changed.
pub init_from_owned-Adopts :
    (user : ℕ) (p : Ptr) (bytes : List ℕ) (h : Heap)
    → Holds (owned_ptr p) h
    → Adopts user p bytes h (init_from_owned user p bytes h)
unfolding init_from_owned alloc_base_request
init_from_owned-Adopts user p bytes h held = record {
  swaps =
      adopted-Swaps p bytes (base_request user (malloc h)) h (base_request_bare user (malloc h))
        held (base_request-Gains user (malloc h) h (malloc-Gains h));
  refused = adopted-refused user p bytes (malloc h);
  enveloped = adopted-enveloped user p bytes (malloc h);
}

-- What a poller finds: the code and the bytes of the reply, in a new buffer; without bytes no buffer is
-- needed; and if it cannot be allocated behind the freeing of the old one, an error without a text.
pub record ReplySet (res : Outcome) (r : FfiThreadRequest) (h : Heap)
    (got : ℕ × FfiThreadRequest × Heap) : Type 0 where
  pub swaps : Swaps (owned_request r) (owned_request got.1) h got.2
  pub textless :
      reply_bytes res ≡ []
      → (got.0 ≡ outcome_ret res) × (got.1 ≡ record r { buffer = none; payload = [] })
  pub stored :
      (b : ℕ)
      → reply_bytes res ≢ []
      → (malloc (free r.buffer h)).0 ≡ some b
      → (got.0 ≡ outcome_ret res)
        × (got.1 ≡ record r { buffer = some b; payload = reply_bytes res })
  pub lost :
      reply_bytes res ≢ []
      → (malloc (free r.buffer h)).0 ≡ none
      → (got.0 ≡ ret_err) × (got.1 ≡ record r { buffer = none; payload = [] })

stored_reply-Swaps :
    (ret : ℕ) (bytes : List ℕ) (r : FfiThreadRequest) (o : Owned) (h g : Heap) (m : Ptr × Heap)
    → r.buffer ≡ none
    → Swaps o (owned_request r) h g
    → Gains (owned_ptr m.0) g m.1
    → Swaps o (owned_request (stored_reply ret bytes r m).1) h (stored_reply ret bytes r m).2
unfolding stored_reply
stored_reply-Swaps ret bytes r o h g (none, k) bare s e = record {
  live = λ a. omega (arith, s.live a, e.live a);
  bad = e.bad ∙ s.bad;
}
stored_reply-Swaps ret bytes r o h g (some b, k) bare s e = record {
  live = λ a.
      let nothing : owned_ptr r.buffer a ≡ 0 = rw bare refl in
      omega (arith, s.live a, e.live a, nothing);
  bad = e.bad ∙ s.bad;
}

stored_reply-lost :
    (ret : ℕ) (bytes : List ℕ) (r : FfiThreadRequest) (m : Ptr × Heap)
    → m.0 ≡ none
    → ((stored_reply ret bytes r m).0 ≡ ret_err) × ((stored_reply ret bytes r m).1 ≡ r)
unfolding stored_reply
stored_reply-lost ret bytes r (none, k) e = (refl, refl)
stored_reply-lost ret bytes r (some b, k) e = cc

stored_reply-stored :
    (ret b : ℕ) (bytes : List ℕ) (r : FfiThreadRequest) (m : Ptr × Heap)
    → m.0 ≡ some b
    → ((stored_reply ret bytes r m).0 ≡ ret)
      × ((stored_reply ret bytes r m).1 ≡ record r { buffer = some b; payload = bytes })
unfolding stored_reply
stored_reply-stored ret b bytes r (none, k) e = cc
stored_reply-stored ret b bytes r (some a, k) e = (refl, cc)

store_reply-ReplySet :
    (res : Outcome) (bytes : List ℕ) (r : FfiThreadRequest) (h : Heap)
    → bytes ≡ reply_bytes res
    → let bare = record r { buffer = none; payload = [] } in
      Swaps (owned_request r) (owned_request bare) h (free r.buffer h)
      → ReplySet res r h (store_reply (outcome_ret res) bytes bare (free r.buffer h))
unfolding store_reply
store_reply-ReplySet res [] r h e s = record {
  swaps = s;
  textless = λ _. (refl, refl);
  stored = λ b some_bytes. absurd (some_bytes (sym e));
  lost = λ some_bytes. absurd (some_bytes (sym e));
}
store_reply-ReplySet res (x ∷ xs) r h e s =
    let bare = record r { buffer = none; payload = [] } in
    let m = malloc (free r.buffer h) in
    record {
      swaps =
          stored_reply-Swaps (outcome_ret res) (x ∷ xs) bare (owned_request r) h (free r.buffer h) m
            refl s (malloc-Gains (free r.buffer h));
      textless = λ no_bytes. cc (e, no_bytes);
      stored = λ b some_bytes room.
          let done = stored_reply-stored (outcome_ret res) b (x ∷ xs) bare m room in
          (done.0, done.1 ∙ ap (λ t. record r { buffer = some b; payload = t }) e);
      lost = λ some_bytes. stored_reply-lost (outcome_ret res) (x ∷ xs) bare m;
    }

-- `setReply` on a request whose blocks are allocated: the old buffer is freed once, and what the
-- request owns afterwards is allocated. A poller finds the code and the bytes of the reply (CBOR
-- null where there is no value), in a new buffer if they are not empty; if that buffer cannot be
-- allocated, it finds `RET_ERR` without a text. The request is otherwise unchanged.
pub set_reply-ReplySet :
    (res : Outcome) (r : FfiThreadRequest) (h : Heap)
    → Holds (owned_request r) h
    → ReplySet res r h (set_reply res r h)
unfolding set_reply
set_reply-ReplySet res r h held =
    let freed = free-Loses r.buffer h (λ a. omega (arith, held a)) in
    store_reply-ReplySet res (reply_bytes res) r h refl
      (record { live = λ a. omega (arith, freed.live a); bad = freed.bad })
