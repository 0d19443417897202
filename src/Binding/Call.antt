-- ===== src/Binding/Call.antt =====
-- A call of a generated header, but for the request's encoder and the trampoline.
use nim_ffi.Base.{
  ℕ, ℤ, pos, Bool, true, Option, none, some, List, [], ◌∷◌, codes, ◌==◌, if◌then◌else◌,
}
use nim_ffi.Heap.{Heap, Ptr, malloc}
use nim_ffi.Tinycbor.{Writer}
use nim_ffi.Cbor.Values.{address, Encoder}
use nim_ffi.Cbor.Buf.{Encoded, encoded, not_encoded, out_of_fuel, encode_to_buf}
use nim_ffi.Binding.Reply.{
  ret_missing_callback, World, CallBox, Delivery, or_text, tell_error, minus_one, free_in,
}

-- What the library answers to a submitted request: the calls of the trampoline that it makes
-- before it returns, and its return code.
pub record Answer : Type 0 where
  pub fires : List Delivery
  pub ret : ℕ

-- What a call leaves behind: its return code, and the box if the library may still use it.
pub record Called (X : Type 0) : Type 0 where
  pub ret : ℤ
  pub pending : Option CallBox
  pub world : World X

-- The host's callback: whether there is one, and its `user_data`.
pub record Host : Type 0 where
  pub has_fn : Bool
  pub user_data : ℕ

-- `if (on_reply) on_reply(-1, NULL, msg, user_data);`
unfoldable pub complain : {X : Type 0} → Host → List ℕ → World X → World X
complain host msg w = if host.has_fn then tell_error minus_one msg host.user_data w else w

module _ {X : Type 0} (tramp : CallBox → Delivery → World X → World X) where
  unfoldable pub deliver_all : CallBox → List Delivery → World X → World X
  deliver_all box [] w = w
  deliver_all box (d ∷ ds) w = deliver_all box ds (tramp box d w)

  -- The library's part of a call, and the request's buffer freed.
  unfoldable pub deliver_now : CallBox → (buf : ℕ) → List Delivery → World X → World X
  unfolding deliver_all
  deliver_now box buf fires w = free_in (some buf) (deliver_all box fires w)

  -- Behind the call of the library.
  unfoldable pub call_answered : Host → CallBox → (buf : ℕ) → Answer → World X → Called X
  unfolding deliver_now
  call_answered host box buf answer w =
      let sent = deliver_now box buf answer.fires w in
      if answer.ret == ret_missing_callback
      then record {
        ret = minus_one;
        pending = none;
        world =
            free_in (some box.block)
              (complain host (codes "RET_MISSING_CALLBACK (internal error)") sent);
      }
      else record { ret = pos answer.ret; pending = some box; world = sent }

-- A call up to the library, with what is done behind it as a parameter.
module _ {X : Type 0} (answered : CallBox → (buf : ℕ) → Answer → World X → Called X) (host : Host)
    (send : ℕ → List ℕ → Answer) where
  -- Behind `malloc` of the box.
  unfoldable pub submit_boxed : (buf : ℕ) → List ℕ → Ptr × Heap → World X → Called X
  submit_boxed buf bytes (none, h) w = record {
    ret = minus_one;
    pending = none;
    world = complain host (codes "out of memory") (free_in (some buf) (record w { heap = h }));
  }
  submit_boxed buf bytes (some b, h) w =
      let box : CallBox = record { block = b; has_fn = host.has_fn; user_data = host.user_data } in
      answered box buf (send b bytes) (record w { heap = h })

  -- Behind `nimffi_encode_to_buf`; `none` only if its fuel ran out.
  unfoldable pub submit_encoded : Encoded → World X → Option (Called X)
  unfolding submit_boxed
  submit_encoded (encoded buf bytes h) w = some (submit_boxed buf bytes (malloc h) w)
  submit_encoded (not_encoded err h) w = some (record {
    ret = minus_one;
    pending = none;
    world =
        free_in (address err)
          (complain host (or_text err (codes "encode failed")) (record w { heap = h }));
  })
  submit_encoded out_of_fuel w = none

  unfoldable pub submit : {E : Type 0} ⦃wr : Writer E⦄ → ℕ → Encoder E → World X → Option (Called X)
  unfolding submit_encoded
  submit fuel enc w = submit_encoded (encode_to_buf fuel true enc w.heap) w

unfoldable pub ctx_call :
    {E X : Type 0} ⦃wr : Writer E⦄
    → (CallBox → Delivery → World X → World X)
    → Host
    → (ℕ → List ℕ → Answer)
    → ℕ
    → Encoder E
    → World X
    → Option (Called X)
unfolding submit call_answered
ctx_call tramp host send = submit (call_answered tramp host) host send
