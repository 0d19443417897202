-- ===== src/Timer/Tests/Events.antt =====
-- Events that decode and events that do not, and the end of a context with two listeners.
use nim_ffi.Base.{◌+◌, ◌≡◌, refl, true, false, some, Option, [], ◌∷◌, codes, arith, one_if}
use nim_ffi.Heap.{Heap}
use nim_ffi.Heap.Laws.{Loses, owned_ptr}
use nim_ffi.Tinycbor.Items.{text, map, nil, cons}
use nim_ffi.Tinycbor.Model.Source.{item_reader}
use nim_ffi.Timer.Types.{no_echo_event, no_on_job_scheduled_payload}
use nim_ffi.Timer.Dec.{dec_echo_event, dec_on_job_scheduled_payload}
use nim_ffi.Timer.Items.{item_on_job_scheduled_payload}
use nim_ffi.Timer.Memory.Owned.{owned_echo_event, owned_on_job_scheduled_payload}
use nim_ffi.Binding.Reply.{Delivery}
use nim_ffi.Timer.Events.{EventBox, Scene, on_echo_fired_trampoline, on_job_scheduled_trampoline}
use nim_ffi.Timer.Events.Leaks.{Handled, on_echo_fired-Handled, on_job_scheduled-Handled}
use nim_ffi.Timer.Context.Growth.{Sums, add_listener-Sums}
use nim_ffi.Timer.Context.Removal.{Removed, remove_event_listener-Removed}
use nim_ffi.Timer.Context.{add_listener, remove_event_listener, Ctx, ctx_destroy}
use nim_ffi.Timer.Context.Account.{ctx_destroy-Loses}
use nim_ffi.Timer.Tests.Data.{empty_heap, reply_of, job_event}

abbrev listener : Option EventBox
listener = some (record { has_fn = true; user_data = 9 })

abbrev scene : {X : Type 0} → Scene X
scene = record { heap = empty_heap; events = [] }

-- The message is a text, and the count is one too.
abbrev half_event : Delivery
half_event = reply_of (
    map (
      cons (text (codes "payload")) (
        cons
          (map (
            cons (text (codes "message")) (
              cons (text (codes "hello"))
                (cons (text (codes "echoCount")) (cons (text (codes "two")) nil)))))
          nil)))

abbrev job_event_sent : Delivery
job_event_sent =
    reply_of
      (map (cons (text (codes "payload")) (cons (item_on_job_scheduled_payload job_event) nil)))

on_echo_fired-Handled_example :
    Handled item_reader
      (dec_echo_event ⦃c = item_reader⦄)
      no_echo_event
      owned_echo_event
      listener
      half_event
      scene
      (on_echo_fired_trampoline item_reader listener half_event scene)
on_echo_fired-Handled_example = on_echo_fired-Handled item_reader listener half_event scene

on_job_scheduled-Handled_example :
    Handled item_reader
      (dec_on_job_scheduled_payload ⦃c = item_reader⦄)
      no_on_job_scheduled_payload
      owned_on_job_scheduled_payload
      listener
      job_event_sent
      scene
      (on_job_scheduled_trampoline item_reader listener job_event_sent scene)
on_job_scheduled-Handled_example =
    on_job_scheduled-Handled item_reader listener job_event_sent scene

-- The half event calls nobody and leaves a block.
half_event_leaks :
    let w = on_echo_fired_trampoline item_reader listener half_event scene in
    (w.events ≡ []) × (w.heap.live ≡ 0 ∷ [])
unfolding on_echo_fired_trampoline nim_ffi.Tinycbor.Model.print_all item_reader
    nim_ffi.Timer.Dec.dec_echo_event nim_ffi.Cbor.Struct.dec_map nim_ffi.Cbor.Values.◌>>◌
    nim_ffi.Cbor.Struct.dec_field nim_ffi.Cbor.Dec.dec_str nim_ffi.Heap.malloc
    nim_ffi.Cbor.Dec.dec_i64
half_event_leaks = (refl, refl)

abbrev ctx : Ctx
ctx = record {
  block = 1;
  ptr = some 500;
  array = some 2;
  listeners = record { id = 10; box = 3 } ∷ record { id = 11; box = 4 } ∷ [];
  listeners_cap = 4;
}

abbrev ctx_heap : Heap
ctx_heap = record { next = 5; live = 4 ∷ 3 ∷ 2 ∷ 1 ∷ []; bad = false; fails = λ n. false }

ctx_destroy-Loses_example :
    ((ctx_destroy 7 ctx ctx_heap).0 ≡ 7)
    × Loses (λ a. one_if a 1 + (owned_ptr (some 2) a + 0)) ctx_heap (ctx_destroy 7 ctx ctx_heap).1
ctx_destroy-Loses_example = ctx_destroy-Loses 7 ctx ctx_heap (λ a. ground arith)

abbrev full_ctx : Ctx
full_ctx = record {
  block = 1;
  ptr = some 500;
  array = some 2;
  listeners = record { id = 10; box = 3 } ∷ record { id = 11; box = 4 } ∷ [];
  listeners_cap = 2;
}

add_listener-Sums_example :
    Sums full_ctx ctx_heap (λ b. 12) (add_listener (λ b. 12) full_ctx ctx_heap)
add_listener-Sums_example =
    add_listener-Sums (λ b. 12) full_ctx ctx_heap (λ a. ground arith) (omega arith) (omega arith)

remove_event_listener-Removed_example :
    Removed 10 ctx ctx_heap 1 (remove_event_listener 1 10 ctx ctx_heap)
remove_event_listener-Removed_example =
    remove_event_listener-Removed 1 10 ctx ctx_heap (λ a. ground arith) (omega arith) (omega arith)
