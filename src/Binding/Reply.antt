-- ===== src/Binding/Reply.antt =====
-- A reply trampoline: one text for every call of the generated headers, but for the reply's decoder
-- and free function.
use nim_ffi.Base.{
  ℕ, ℤ, pos, negsuc, Bool, true, not, Option, none, some, List, [], ◌∷◌, ◌++◌, codes, ◌==◌,
  if◌then◌else◌,
}
use nim_ffi.Heap.{Heap, Ptr, free}
use nim_ffi.Tinycbor.{Reader}
use nim_ffi.Cbor.Values.{CStr, null, chars, c_text, address, Decoder}
use nim_ffi.Cbor.Buf.{dup_cstr_n, Decoded, decode_from_buf}

abbrev pub ret_ok : ℕ
ret_ok = 0

abbrev pub ret_missing_callback : ℕ
ret_missing_callback = 2

abbrev pub ret_stale_warn : ℕ
ret_stale_warn = 3

-- One call of the host's callback, with the heap as the host finds it.
pub record Reply (X : Type 0) : Type 0 where
  pub err_code : ℤ
  pub reply : Option X
  pub err_msg : Option (List ℕ)
  pub user_data : ℕ
  pub heap : Heap

-- The heap, and the calls of the host's callback so far.
pub record World (X : Type 0) : Type 0 where
  pub heap : Heap
  pub replies : List (Reply X)

-- `MyTimerEchoCallBox` and its like: the block, whether `fn` is set, and `user_data`.
pub record CallBox : Type 0 where
  pub block : ℕ
  pub has_fn : Bool
  pub user_data : ℕ

-- One call of the `FFICallback`: `msg` is null, or the run of `len` bytes.
pub record Delivery : Type 0 where
  pub ret : ℕ
  pub msg : Option (List ℕ)

abbrev pub payload : Delivery → List ℕ
payload d = elim d.msg [ none ↦ [] | some m ↦ m ]

-- `s ? s : fallback`.
abbrev pub or_text : CStr → List ℕ → List ℕ
or_text null fallback = fallback
or_text (chars p s) fallback = c_text (chars p s)

-- The host's callback, called with an error or with a value.
unfoldable pub tell_error : {X : Type 0} → ℤ → List ℕ → ℕ → World X → World X
tell_error code msg user w = record w {
  replies =
      w.replies
      ++ record {
        err_code = code;
        reply = none;
        err_msg = some msg;
        user_data = user;
        heap = w.heap;
      }
        ∷ [];
}

unfoldable pub tell_value : {X : Type 0} → X → ℕ → World X → World X
tell_value x user w = record w {
  replies =
      w.replies
      ++ record {
        err_code = pos ret_ok;
        reply = some x;
        err_msg = none;
        user_data = user;
        heap = w.heap;
      }
        ∷ [];
}

abbrev pub minus_one : ℤ
minus_one = negsuc 0

unfoldable pub free_in : {X : Type 0} → Ptr → World X → World X
free_in p w = record w { heap = free p w.heap }

module _ {V X : Type 0} ⦃c : Reader V⦄ (dec : Decoder V X) (zeroed : X)
    (fr : X → Heap → X × Heap) where
  -- The branch `ret != 0`.
  unfoldable pub reply_refused : CallBox → Delivery → World X → World X
  reply_refused box d w =
      let (em, h) = dup_cstr_n (payload d) w.heap in
      let told =
        tell_error (pos d.ret) (or_text em (codes "FFI call failed")) box.user_data
          (record w { heap = h }) in
      free_in (some box.block) (free_in (address em) told)

  -- Behind `nimffi_decode_from_buf`.
  unfoldable pub reply_decoded : CallBox → Decoded X → World X → World X
  reply_decoded box r w =
      let now = record w { heap = r.heap } in
      if not r.ok
      then (let told =
            tell_error minus_one (or_text r.err (codes "decode failed")) box.user_data now in
          let freed = free_in (address r.err) told in
          free_in (some box.block) (record freed { heap = (fr r.out freed.heap).1 }))
      else let told = tell_value r.out box.user_data now in
        free_in (some box.block) (record told { heap = (fr r.out told.heap).1 })

  unfoldable pub reply_trampoline : CallBox → Delivery → World X → World X
  unfolding reply_refused reply_decoded
  reply_trampoline box d w =
      if d.ret == ret_stale_warn
      then w
      else if not box.has_fn
      then free_in (some box.block) w
      else if not (d.ret == ret_ok)
      then reply_refused box d w
      else reply_decoded box (decode_from_buf true dec (payload d) zeroed w.heap) w
