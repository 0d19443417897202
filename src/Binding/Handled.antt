-- ===== src/Binding/Handled.antt =====
-- A reply trampoline handles the deliveries of an exchange, and leaves nothing behind.
use nim_ffi.Base.{refl, ==_iff}
use nim_ffi.Heap.{Heap}
use nim_ffi.Heap.Laws.{Owned, Loses-Swaps}
use nim_ffi.Tinycbor.{Reader}
use nim_ffi.Cbor.Values.{Decoder}
use nim_ffi.Cbor.Memory.{Unowned, Sound}
use nim_ffi.Cbor.Release.{Frees}
use nim_ffi.Binding.Reply.{World, CallBox, Delivery, ret_stale_warn, reply_trampoline}
use nim_ffi.Binding.Once.{Answered, trampoline-Answered}
use nim_ffi.Binding.Protocol.{NoneLeft, OneMore, Handles}

module _ {V X : Type 0} ⦃c : Reader V⦄ (dec : Decoder V X) (zeroed : X) (fr : X → Heap → X × Heap)
    (own : X → Owned) (z : Unowned own zeroed) (sound : Sound own zeroed dec)
    (frees : Frees own fr) where
  Answered-OneMore :
      {box : CallBox} {d : Delivery} {w w' : World X} {got : _}
      → Answered own d got box w w'
      → OneMore NoneLeft box w w'
  Answered-OneMore a = record {
    kept = λ _. 0;
    heap = Loses-Swaps a.heap;
    left = λ b. refl;
    reply = a.reply;
    told = a.told;
    addressed = a.addressed;
  }

  pub reply_trampoline-Handles : Handles NoneLeft (reply_trampoline dec zeroed fr)
  unfolding reply_trampoline
  reply_trampoline-Handles = record {
    ping = λ box d w stale. rw ((==_iff d.ret ret_stale_warn).1 stale);
    once = λ box d w terminal fn held.
        Answered-OneMore
          (trampoline-Answered dec zeroed fr own z sound frees box d w held terminal fn);
    unanswered = λ r e a. refl;
  }
