-- ===== src/Ffi/Request.antt =====
-- A request on its way, ffi/ffi_thread_request.nim: its blocks, and the calls of the host's callback
-- for it. `show` is Nim's `$` of a number.
pub mod Answered
pub mod Payload
use nim_ffi.Base.{ℕ, Bool, true, false, none, some, Option, List, [], ◌∷◌, ◌++◌, codes}
use nim_ffi.Binding.Reply.{ret_ok, ret_stale_warn}
use nim_ffi.Heap.{Heap, Ptr, malloc, free}

abbrev pub ret_err : ℕ
ret_err = 1

abbrev pub empty_error_marker : List ℕ
empty_error_marker = codes "unknown error"

abbrev pub cbor_null_byte : ℕ
cbor_null_byte = 246

-- The fields that these procedures touch; `buffer` is the pointer `data`, and `payload` the
-- `dataLen` bytes at it.
pub record FfiThreadRequest : Type 0 where
  pub block : ℕ
  pub user_data : ℕ
  pub req_id : Ptr
  pub buffer : Ptr
  pub payload : List ℕ
  pub responded : Bool

-- `Result[seq[byte], string]`.
pub data Outcome : Type 0 where
  value : List ℕ → Outcome
  error : List ℕ → Outcome

-- One call of the host's callback.
pub record Fire : Type 0 where
  pub ret : ℕ
  pub msg : List ℕ
  pub user_data : ℕ

unfoldable pub free_request : FfiThreadRequest → Heap → Heap
unfolding free
free_request r h = free (some r.block) (free r.req_id (free r.buffer h))

-- Behind the `c_calloc` of the envelope; the copy of `reqId` may fail.
unfoldable pub base_request : (user_data : ℕ) → Ptr × Heap → Option FfiThreadRequest × Heap
unfolding malloc
base_request user_data (none, h) = (none, h)
base_request user_data (some b, h) = (
  some (record {
    block = b;
    user_data = user_data;
    req_id = (malloc h).0;
    buffer = none;
    payload = [];
    responded = false;
  }),
  (malloc h).1,
)

unfoldable pub alloc_base_request : (user_data : ℕ) → Heap → Option FfiThreadRequest × Heap
unfolding base_request malloc
alloc_base_request user_data h = base_request user_data (malloc h)

-- Behind the `c_malloc` of the payload's buffer: `none` where it failed.
unfoldable pub copied_payload :
    FfiThreadRequest → List ℕ → Ptr × Heap → Option FfiThreadRequest × Heap
unfolding free_request
copied_payload r bytes (none, h) = (none, free_request r h)
copied_payload r bytes (some b, h) = (some (record r { buffer = some b; payload = bytes }), h)

-- `copySharedPayload`, and the request freed where it fails.
unfoldable pub with_payload :
    Option (List ℕ) → Option FfiThreadRequest × Heap → Option FfiThreadRequest × Heap
unfolding copied_payload malloc
with_payload input (none, h) = (none, h)
with_payload none (some r, h) = (some r, h)
with_payload (some []) (some r, h) = (some r, h)
with_payload (some (x ∷ xs)) (some r, h) = copied_payload r (x ∷ xs) (malloc h)

-- `input` is nil, or the `dataLen` bytes at it.
unfoldable pub init_from_ptr :
    (user_data : ℕ) → Option (List ℕ) → Heap → Option FfiThreadRequest × Heap
unfolding with_payload alloc_base_request
init_from_ptr user_data input h = with_payload input (alloc_base_request user_data h)

-- `init`, of an array that Nim holds.
unfoldable pub init : (user_data : ℕ) → List ℕ → Heap → Option FfiThreadRequest × Heap
unfolding init_from_ptr
init user_data [] h = init_from_ptr user_data none h
init user_data (x ∷ xs) h = init_from_ptr user_data (some (x ∷ xs)) h

abbrev pub outcome_ret : Outcome → ℕ
outcome_ret (value bytes) = ret_ok
outcome_ret (error text) = ret_err

-- What the callback is handed: never an empty run of bytes.
abbrev pub outcome_msg : Outcome → List ℕ
outcome_msg (value []) = cbor_null_byte ∷ []
outcome_msg (value (x ∷ xs)) = x ∷ xs
outcome_msg (error []) = empty_error_marker
outcome_msg (error (x ∷ xs)) = x ∷ xs

unfoldable pub fire_callback : Outcome → FfiThreadRequest × List Fire → FfiThreadRequest × List Fire
fire_callback res (r, fires) = elim r.responded as (λ _. FfiThreadRequest × List Fire) [
  | true ↦ (r, fires)
  | false ↦ (
    record r { responded = true },
    fires ++ record { ret = outcome_ret res; msg = outcome_msg res; user_data = r.user_data } ∷ [],
  )
]

module _ (show : ℕ → List ℕ) where
  unfoldable pub fire_stale_warn :
      (elapsed : ℕ) → FfiThreadRequest × List Fire → FfiThreadRequest × List Fire
  fire_stale_warn elapsed (r, fires) = elim r.responded as (λ _. FfiThreadRequest × List Fire) [
    | true ↦ (r, fires)
    | false ↦ (
      r,
      fires ++ record { ret = ret_stale_warn; msg = show elapsed; user_data = r.user_data } ∷ [],
    )
  ]

-- `handleRes`: the callback, and the request freed behind it.
unfoldable pub handle_res : Outcome → FfiThreadRequest × List Fire → Heap → List Fire × Heap
unfolding fire_callback free_request
handle_res res (r, fires) h =
    let (told, all) = fire_callback res (r, fires) in (all, free_request told h)
