-- ===== src/Ffi/Request/Answered.antt =====
-- A request is answered once, and its blocks are freed once.
use nim_ffi.Base.{
  ℕ, ◌+◌, ◌≡◌, refl, sym, ◌∙◌, ap, subst, true, false, none, some, Option, List, [], ◌∷◌, ◌++◌,
  append_assoc, arith, one_if,
}
use nim_ffi.Heap.{Heap, Ptr, malloc, free}
use nim_ffi.Heap.Laws.{Owned, owned_ptr, Gains, Loses, Holds, malloc-Gains, free-Loses, Gains-Loses}
use nim_ffi.Binding.Reply.{ret_stale_warn}
use nim_ffi.Ffi.Request.{
  FfiThreadRequest, Outcome, Fire, free_request, base_request, alloc_base_request, copied_payload,
  with_payload, init_from_ptr, outcome_ret, outcome_msg, fire_callback, fire_stale_warn, handle_res,
}

-- What a host's request goes through before `handleRes`: a report that it is still under way, or
-- an answer, of a timeout or the completion.
pub data Report : Type 0 where
  warn : (elapsed : ℕ) → Report
  answer : Outcome → Report

unfoldable pub run_reports :
    (show : ℕ → List ℕ) → List Report → FfiThreadRequest × List Fire → FfiThreadRequest × List Fire
unfolding fire_callback fire_stale_warn
run_reports show [] s = s
run_reports show (warn elapsed ∷ es) s = run_reports show es (fire_stale_warn show elapsed s)
run_reports show (answer res ∷ es) s = run_reports show es (fire_callback res s)

-- The first answer, or else the one that `handleRes` is called with.
abbrev pub first_answer : List Report → Outcome → Outcome
first_answer [] res = res
first_answer (warn elapsed ∷ es) res = first_answer es res
first_answer (answer r ∷ es) res = r

-- The reports before the first answer.
abbrev pub warnings : (show : ℕ → List ℕ) → (user_data : ℕ) → List Report → List Fire
warnings show user [] = []
warnings show user (warn elapsed ∷ es) =
    record { ret = ret_stale_warn; msg = show elapsed; user_data = user } ∷ warnings show user es
warnings show user (answer r ∷ es) = []

abbrev pub owned_request : FfiThreadRequest → Owned
owned_request r a = one_if a r.block + (owned_ptr r.req_id a + owned_ptr r.buffer a)

abbrev pub owned_opt_request : Option FfiThreadRequest → Owned
owned_opt_request none a = 0
owned_opt_request (some r) a = owned_request r a

pub free_request-Loses :
    (r : FfiThreadRequest) (h : Heap)
    → Holds (owned_request r) h
    → Loses (owned_request r) h (free_request r h)
unfolding free_request
free_request-Loses r h held =
    let input = free-Loses r.buffer h (λ a. omega (arith, held a)) in
    let name = free-Loses r.req_id (free r.buffer h) (λ a. omega (arith, held a, input.live a)) in
    let block =
      free-Loses (some r.block) (free r.req_id (free r.buffer h))
        (λ a. omega (arith, held a, input.live a, name.live a)) in
    record {
      live = λ a. omega (arith, input.live a, name.live a, block.live a);
      bad = block.bad ∙ name.bad ∙ input.bad;
    }

pub base_request-Gains :
    (user : ℕ) (p : Ptr × Heap) (h : Heap)
    → Gains (owned_ptr p.0) h p.1
    → Gains (owned_opt_request (base_request user p).0) h (base_request user p).1
unfolding base_request
base_request-Gains user (none, g) h e = e
base_request-Gains user (some b, g) h e =
    let name = malloc-Gains g in
    record { live = λ a. omega (arith, e.live a, name.live a); bad = name.bad ∙ e.bad }

copied_payload-Gains :
    (r : FfiThreadRequest) (bytes : List ℕ) (p : Ptr × Heap) (h g : Heap)
    → r.buffer ≡ none
    → Gains (owned_request r) h g
    → Gains (owned_ptr p.0) g p.1
    → Gains (owned_opt_request (copied_payload r bytes p).0) h (copied_payload r bytes p).1
unfolding copied_payload
copied_payload-Gains r bytes (none, k) h g e d m =
    let here : Gains (owned_request r) h k = record {
      live = λ a. omega (arith, d.live a, m.live a);
      bad = m.bad ∙ d.bad;
    } in
    Gains-Loses here (free_request-Loses r k)
copied_payload-Gains r bytes (some b, k) h g e d m = record {
  live = λ a.
      let nothing : owned_ptr r.buffer a ≡ 0 = rw e refl in
      omega (arith, d.live a, m.live a, nothing);
  bad = m.bad ∙ d.bad;
}

pub base_request_bare :
    (user : ℕ) (p : Ptr × Heap) (r : FfiThreadRequest)
    → (base_request user p).0 ≡ some r
    → r.buffer ≡ none
unfolding base_request
base_request_bare user (none, g) r e = cc e
base_request_bare user (some b, g) r e = cc e

with_payload-Gains :
    (input : Option (List ℕ)) (got : Option FfiThreadRequest × Heap) (h : Heap)
    → ((r : FfiThreadRequest) → got.0 ≡ some r → r.buffer ≡ none)
    → Gains (owned_opt_request got.0) h got.1
    → Gains (owned_opt_request (with_payload input got).0) h (with_payload input got).1
unfolding with_payload
with_payload-Gains none (none, g) h bare e = e
with_payload-Gains (some xs) (none, g) h bare e = e
with_payload-Gains none (some r, g) h bare e = e
with_payload-Gains (some []) (some r, g) h bare e = e
with_payload-Gains (some (x ∷ xs)) (some r, g) h bare e =
    copied_payload-Gains r (x ∷ xs) (malloc g) h g (bare r refl) e (malloc-Gains g)

-- `initFromPtr`, whichever allocations fail: where it answers nil, nothing stays allocated; else
-- exactly the blocks of the request, which are those that `freeRequest` frees. Nothing is freed
-- twice.
pub init_from_ptr-Gains :
    (user : ℕ) (input : Option (List ℕ)) (h : Heap)
    → Gains (owned_opt_request (init_from_ptr user input h).0) h (init_from_ptr user input h).1
unfolding init_from_ptr alloc_base_request
init_from_ptr-Gains user input h =
    with_payload-Gains input (base_request user (malloc h)) h (base_request_bare user (malloc h))
      (base_request-Gains user (malloc h) h (malloc-Gains h))

-- How a request ends.
pub record Ended (show : ℕ → List ℕ) (es : List Report) (res : Outcome) (r : FfiThreadRequest)
    (fires : List Fire) (h : Heap) (got : List Fire × Heap) : Type 0 where
  pub told :
      got.0
      ≡ fires
        ++ (warnings show r.user_data es
            ++ record {
              ret = outcome_ret (first_answer es res);
              msg = outcome_msg (first_answer es res);
              user_data = r.user_data;
            }
              ∷ [])
  pub freed : Loses (owned_request r) h got.1

abbrev fire_of : Outcome → FfiThreadRequest → Fire
fire_of res r = record { ret = outcome_ret res; msg = outcome_msg res; user_data = r.user_data }

abbrev warn_of : (ℕ → List ℕ) → ℕ → FfiThreadRequest → Fire
warn_of show elapsed r = record {
  ret = ret_stale_warn;
  msg = show elapsed;
  user_data = r.user_data;
}

module _ (r : FfiThreadRequest) (fires : List Fire) where
  fire_callback-true :
      (res : Outcome) → r.responded ≡ true → fire_callback res (r, fires) ≡ (r, fires)
  unfolding fire_callback
  fire_callback-true res e = simp (fire_callback, e) refl

  fire_callback-false :
      (res : Outcome)
      → r.responded ≡ false
      → fire_callback res (r, fires) ≡ (record r { responded = true }, fires ++ fire_of res r ∷ [])
  unfolding fire_callback
  fire_callback-false res e = simp (fire_callback, e) refl

  fire_stale_warn-true :
      (show : ℕ → List ℕ) (elapsed : ℕ)
      → r.responded ≡ true
      → fire_stale_warn show elapsed (r, fires) ≡ (r, fires)
  unfolding fire_stale_warn
  fire_stale_warn-true show elapsed e = simp (fire_stale_warn, e) refl

  fire_stale_warn-false :
      (show : ℕ → List ℕ) (elapsed : ℕ)
      → r.responded ≡ false
      → fire_stale_warn show elapsed (r, fires) ≡ (r, fires ++ warn_of show elapsed r ∷ [])
  unfolding fire_stale_warn
  fire_stale_warn-false show elapsed e = simp (fire_stale_warn, e) refl

-- Once it was answered, nothing more is told.
answered_stays :
    (show : ℕ → List ℕ) (es : List Report) (r : FfiThreadRequest) (fires : List Fire)
    → r.responded ≡ true
    → run_reports show es (r, fires) ≡ (r, fires)
unfolding run_reports
answered_stays show [] r fires e = refl
answered_stays show (warn elapsed ∷ es) r fires e =
    ap (run_reports show es) (fire_stale_warn-true r fires show elapsed e)
    ∙ answered_stays show es r fires e
answered_stays show (answer res ∷ es) r fires e =
    ap (run_reports show es) (fire_callback-true r fires res e) ∙ answered_stays show es r fires e

again :
    (res : Outcome) (r : FfiThreadRequest) (first : Outcome) (fires : List Fire) (es : List Report)
    (show : ℕ → List ℕ) (h : Heap)
    → Holds (owned_request r) h
    → Ended show
        (answer first ∷ es)
        res
        r
        fires
        h
        (handle_res res (record r { responded = true }, fires ++ fire_of first r ∷ []) h)
unfolding handle_res fire_callback free_request
again res r first fires es show h held = record { told = refl; freed = free_request-Loses r h held }

-- Any reports and answers on the way to `handleRes`, for a request that nobody has answered and
-- whose blocks are allocated: the host's callback gets the reports before the first answer, and
-- then exactly one terminal call, with the code and the text of the first answer (of `handleRes`'s,
-- if none came before), each with the request's `userData`; the request's blocks are freed, once.
pub handle_res-Ended :
    (show : ℕ → List ℕ) (es : List Report) (res : Outcome) (r : FfiThreadRequest)
    (fires : List Fire) (h : Heap)
    → r.responded ≡ false
    → Holds (owned_request r) h
    → Ended show es res r fires h (handle_res res (run_reports show es (r, fires)) h)
unfolding handle_res run_reports
handle_res-Ended show [] res r fires h e held =
    rw (fire_callback-false r fires res e)
      (record { told = refl; freed = free_request-Loses r h held })
handle_res-Ended show (warn elapsed ∷ es) res r fires h e held =
    let rest = handle_res-Ended show es res r (fires ++ warn_of show elapsed r ∷ []) h e held in
    let reported = ap (run_reports show es) (fire_stale_warn-false r fires show elapsed e) in
    subst (λ s. Ended show (warn elapsed ∷ es) res r fires h (handle_res res s h)) (sym reported)
      (record {
        told = rest.told ∙ append_assoc fires (warn_of show elapsed r ∷ []) _;
        freed = rest.freed;
      })
handle_res-Ended show (answer first ∷ es) res r fires h e held =
    let done = record r { responded = true } in
    let all = fires ++ fire_of first r ∷ [] in
    let answered =
      ap (run_reports show es) (fire_callback-false r fires first e)
      ∙ answered_stays show es done all refl in
    subst (λ s. Ended show (answer first ∷ es) res r fires h (handle_res res s h)) (sym answered)
      (again res r first fires es show h held)
