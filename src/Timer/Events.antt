-- ===== src/Timer/Events.antt =====
-- The event trampolines of the header: `my_timer_on_echo_fired_trampoline` and
-- `my_timer_on_job_scheduled_trampoline`, which have one text.
pub mod Leaks
use nim_ffi.Base.{
  ℕ, Bool, true, false, not, none, some, Option, List, [], ◌∷◌, ◌++◌, codes, ◌==◌, ◌||◌, length,
  if◌then◌else◌,
}
use nim_ffi.Heap.{Heap}
use nim_ffi.Tinycbor.{CborError, failed, Reader}
use nim_ffi.Cbor.Values.{Cursor, Decoder}
use nim_ffi.Timer.Types.{
  EchoEvent, OnJobScheduledPayload, no_echo_event, no_on_job_scheduled_payload,
}
use nim_ffi.Timer.Dec.{dec_echo_event, dec_on_job_scheduled_payload}
use nim_ffi.Timer.Free.{free_echo_event, free_on_job_scheduled_payload}
use nim_ffi.Binding.Reply.{Delivery, payload, ret_ok}

-- `MyTimerOnEchoFiredBox` and its like: whether `fn` is set, and `user_data`.
pub record EventBox : Type 0 where
  pub has_fn : Bool
  pub user_data : ℕ

-- One call of the host's listener, with the heap as the listener finds it.
pub record Event (X : Type 0) : Type 0 where
  pub value : X
  pub user_data : ℕ
  pub heap : Heap

pub record Scene (X : Type 0) : Type 0 where
  pub heap : Heap
  pub events : List (Event X)

module _ {V X : Type 0} ⦃c : Reader V⦄ (dec : Decoder V X) (zeroed : X)
    (fr : X → Heap → X × Heap) where
  -- Behind the decoder.
  unfoldable pub event_decoded : EventBox → CborError × Cursor V X → Scene X → Scene X
  event_decoded box (e, s) w = if failed e then record w { heap = s.heap } else record {
    heap = (fr s.out s.heap).1;
    events = w.events ++ record { value = s.out; user_data = box.user_data; heap = s.heap } ∷ [];
  }

  -- The reply is read where the box is given and holds a function, and the message has bytes.
  unfoldable pub event_trampoline : Option EventBox → Delivery → Scene X → Scene X
  unfolding event_decoded
  event_trampoline none d w = w
  event_trampoline (some box) d w =
      let start = c.parser_init (payload d) in
      let field = c.map_find_value start.1 (codes "payload") in
      if not (d.ret == ret_ok) || (length (payload d) == 0)
      then w
      else if not box.has_fn
      then w
      else if failed start.0
      then w
      else if not (c.is_map start.1)
      then w
      else if failed field.0
      then w
      else event_decoded box (dec (record { it = field.1; out = zeroed; heap = w.heap })) w

module _ {V : Type 0} (c : Reader V) where
  unfoldable pub on_echo_fired_trampoline :
      Option EventBox → Delivery → Scene EchoEvent → Scene EchoEvent
  unfolding event_trampoline
  on_echo_fired_trampoline =
      event_trampoline ⦃c = c⦄ (dec_echo_event ⦃c = c⦄) no_echo_event free_echo_event

  unfoldable pub on_job_scheduled_trampoline :
      Option EventBox → Delivery → Scene OnJobScheduledPayload → Scene OnJobScheduledPayload
  unfolding event_trampoline
  on_job_scheduled_trampoline =
      event_trampoline ⦃c = c⦄ (dec_on_job_scheduled_payload ⦃c = c⦄) no_on_job_scheduled_payload
        free_on_job_scheduled_payload
