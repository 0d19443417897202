-- ===== src/Binding/Create.antt =====
-- The creation of a context, which every generated header writes with one text: the trampoline that
-- reads the context's address out of the reply, and the call. `strtoull` is the C library's: its
-- value, and what is left at `*endp`.
pub mod Made
use nim_ffi.Base.{
  ℕ, pos, Bool, true, false, not, ◌&&◌, none, some, Option, List, [], ◌∷◌, codes, ◌==◌,
  if◌then◌else◌,
}
use nim_ffi.Heap.{Heap, Ptr, malloc}
use nim_ffi.Tinycbor.{Writer, Reader}
use nim_ffi.Cbor.Values.{CStr, null, chars, c_text, address, Encoder}
use nim_ffi.Cbor.Dec.{dec_str}
use nim_ffi.Cbor.Buf.{dup_cstr_n, Decoded, decode_from_buf}
use nim_ffi.Binding.Reply.{
  ret_ok, ret_stale_warn, World, CallBox, Delivery, payload, or_text, tell_error, tell_value,
  minus_one, free_in,
}
use nim_ffi.Binding.Call.{Answer, Called, Host, deliver_now, submit}

abbrev pub is_empty : List ℕ → Bool
is_empty [] = true
is_empty (x ∷ xs) = false

module _ {V X : Type 0} (c : Reader V) (strtoull : List ℕ → ℕ × List ℕ)
    (make : (block addr : ℕ) → X) where
  -- `addr && addr[0] != '\0' && endp && *endp == '\0'`.
  unfoldable pub is_number : CStr → Bool
  is_number null = false
  is_number (chars p s) =
      let text = c_text (chars p s) in not (is_empty text) && is_empty (strtoull text).1

  -- Behind `calloc` of the context.
  unfoldable pub create_made : CallBox → (addr : ℕ) → Ptr × Heap → World X → World X
  create_made box addr (none, h) w =
      free_in (some box.block)
        (tell_error minus_one (codes "out of memory") box.user_data (record w { heap = h }))
  create_made box addr (some b, h) w =
      free_in (some box.block) (tell_value (make b addr) box.user_data (record w { heap = h }))

  -- Behind `nimffi_decode_from_buf`.
  unfoldable pub create_decoded : CallBox → Decoded CStr → World X → World X
  unfolding is_number create_made
  create_decoded box r w =
      let now = record w { heap = r.heap } in
      if not r.ok
      then free_in (some box.block) (
          free_in (address r.err)
            (tell_error minus_one (or_text r.err (codes "decode failed")) box.user_data now))
      else (let freed = free_in (address r.out) now in
          if not (is_number r.out)
          then free_in (some box.block) (
              tell_error minus_one (codes "FFI create returned non-numeric address") box.user_data
                freed)
          else create_made box (strtoull (c_text r.out)).0 (malloc freed.heap) freed)

  -- The branch `ret != 0`.
  unfoldable pub create_refused : CallBox → Delivery → World X → World X
  create_refused box d w =
      let (em, h) = dup_cstr_n (payload d) w.heap in
      let told =
        tell_error (pos d.ret) (or_text em (codes "FFI create failed")) box.user_data
          (record w { heap = h }) in
      free_in (some box.block) (free_in (address em) told)

  unfoldable pub create_trampoline : CallBox → Delivery → World X → World X
  unfolding create_decoded create_refused
  create_trampoline box d w =
      if d.ret == ret_stale_warn
      then w
      else if not box.has_fn
      then free_in (some box.block) w
      else if not (d.ret == ret_ok)
      then create_refused box d w
      else create_decoded box
          (decode_from_buf ⦃c = c⦄ true (dec_str ⦃c = c⦄) (payload d) null w.heap) w

-- Behind the call of the library, whose answer's `ret` is the token, 0 for null.
unfoldable pub create_answered :
    {X : Type 0}
    → (CallBox → Delivery → World X → World X)
    → CallBox
    → (buf : ℕ) → Answer
    → World X
    → Called X
create_answered tramp box buf answer w = record {
  ret = if answer.ret == 0 then minus_one else pos 0;
  pending = some box;
  world = deliver_now tramp box buf answer.fires w;
}

unfoldable pub ctx_create :
    {E X : Type 0} ⦃wr : Writer E⦄
    → (CallBox → Delivery → World X → World X)
    → Host
    → (ℕ → List ℕ → Answer)
    → ℕ
    → Encoder E
    → World X
    → Option (Called X)
unfolding submit create_answered
ctx_create tramp host send = submit (create_answered tramp) host send
