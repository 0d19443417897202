-- ===== src/Timer/Events/Leaks.antt =====
-- What a delivery to an event trampoline does to the heap, and what the listener sees.
use nim_ffi.Base.{
  ◌≡◌, refl, sym, ap, subst, ◌∙◌, Bool, true, false, not, ◌&&◌, ◌||◌, ◌==◌, length, inl, inr, none,
  some, Option, [], ◌∷◌, ◌++◌, Bool-cases, codes, if◌then◌else◌, arith,
}
use nim_ffi.Heap.{Heap}
use nim_ffi.Heap.Laws.{Owned, Gains, Holds}
use nim_ffi.Tinycbor.{CborError, failed, Reader}
use nim_ffi.Cbor.Values.{Cursor, Decoder}
use nim_ffi.Cbor.Memory.{Ends, Sound}
use nim_ffi.Cbor.Release.{Frees}
use nim_ffi.Timer.Types.{
  EchoEvent, OnJobScheduledPayload, no_echo_event, no_on_job_scheduled_payload,
}
use nim_ffi.Timer.Dec.{dec_echo_event, dec_on_job_scheduled_payload}
use nim_ffi.Timer.Free.{free_echo_event, free_on_job_scheduled_payload}
use nim_ffi.Timer.Memory.Owned.{owned_echo_event, owned_on_job_scheduled_payload}
use nim_ffi.Timer.Memory.Decoded.{dec_echo_event-Sound, dec_on_job_scheduled_payload-Sound}
use nim_ffi.Timer.Memory.Freed.{free_echo_event-Frees, free_on_job_scheduled_payload-Frees}
use nim_ffi.Binding.Reply.{Delivery, payload, ret_ok}
use nim_ffi.Timer.Events.{
  EventBox, Event, Scene, event_decoded, event_trampoline, on_echo_fired_trampoline,
  on_job_scheduled_trampoline,
}

module _ {V : Type 0} (c : Reader V) (d : Delivery) where
  -- What stands behind the key "payload" of the message.
  abbrev pub payload_field : CborError × V
  payload_field = c.map_find_value (c.parser_init (payload d)).1 (codes "payload")

  -- The delivery is an event for a listener: a box with a function is given, the code is `RET_OK`, and
  -- the message has bytes, which are a CBOR map with a payload.
  abbrev pub reaches : Option EventBox → Bool
  reaches box =
      elim box [ none ↦ false | some b ↦ b.has_fn ]
      && (d.ret == ret_ok)
      && not (length (payload d) == 0)
      && not (failed (c.parser_init (payload d)).0)
      && c.is_map (c.parser_init (payload d)).1
      && not (failed payload_field.0)

  -- How the payload decodes in the heap `h`.
  abbrev pub read_payload : {X : Type 0} → Decoder V X → X → Heap → CborError × Cursor V X
  read_payload dec zeroed h = dec (record { it = payload_field.1; out = zeroed; heap = h })

module _ {V X : Type 0} (c : Reader V) (dec : Decoder V X) (zeroed : X) (own : X → Owned)
    (box : Option EventBox) (d : Delivery) where
  -- A delivery that is no event for a listener is ignored. One whose payload decodes calls the listener
  -- once, with its `user_data` and the decoded value, whose memory is allocated while the listener
  -- reads, and everything is freed. One whose payload does not decode calls nobody, and what was
  -- decoded of it stays allocated.
  pub data Handled (w w' : Scene X) : Type 0 where
    ignored : reaches c d box ≡ false → w' ≡ w → Handled w w'
    told :
        (b : EventBox) (event : Event X)
        → reaches c d box ≡ true
        → failed (read_payload c d dec zeroed w.heap).0 ≡ false
        → box ≡ some b
        → w'.events ≡ w.events ++ event ∷ []
        → event.user_data ≡ b.user_data
        → event.value ≡ (read_payload c d dec zeroed w.heap).1.out
        → event.heap ≡ (read_payload c d dec zeroed w.heap).1.heap
        → Holds (own event.value) event.heap
        → Gains (λ _. 0) w.heap w'.heap
        → Handled w w'
    stuck :
        reaches c d box ≡ true
        → failed (read_payload c d dec zeroed w.heap).0 ≡ true
        → w'.events ≡ w.events
        → Gains (own (read_payload c d dec zeroed w.heap).1.out) w.heap w'.heap
        → Handled w w'

-- The tests of the trampoline: the message is decoded if they all succeed.
chosen :
    {S : Type 0} (P : S → Type 0) (w k : S) (fn ok empty bad map lost : Bool)
    → (fn && ok && not empty && not bad && map && not lost ≡ false → P w)
    → (fn && ok && not empty && not bad && map && not lost ≡ true → P k)
    → P (
        if not ok || empty
        then w
        else if not fn
        then w
        else if bad
        then w
        else if not map
        then w
        else if lost
        then w
        else k)
chosen P w k false false empty bad map lost skip run = skip refl
chosen P w k false true true bad map lost skip run = skip refl
chosen P w k false true false bad map lost skip run = skip refl
chosen P w k true false empty bad map lost skip run = skip refl
chosen P w k true true true bad map lost skip run = skip refl
chosen P w k true true false true map lost skip run = skip refl
chosen P w k true true false false false lost skip run = skip refl
chosen P w k true true false false true true skip run = skip refl
chosen P w k true true false false true false skip run = run refl

module _ {V X : Type 0} (c : Reader V) (dec : Decoder V X) (zeroed : X) (fr : X → Heap → X × Heap)
    (own : X → Owned) (sound : Sound own zeroed dec) (frees : Frees own fr) where
  decoded-Handled :
      (box : EventBox) (d : Delivery) (w : Scene X) (r : CborError × Cursor V X)
      → reaches c d (some box) ≡ true
      → read_payload c d dec zeroed w.heap ≡ r
      → Ends own w.heap r
      → Handled c dec zeroed own (some box) d w (event_decoded ⦃c = c⦄ dec zeroed fr box r w)
  unfolding event_decoded
  decoded-Handled box d w (e, s) there same got =
      let error = ap (λ (r : CborError × Cursor V X). failed r.0) same in
      let value = ap (λ (r : CborError × Cursor V X). r.1.out) same in
      let heap = ap (λ (r : CborError × Cursor V X). r.1.heap) same in
      elim (Bool-cases (failed e)) [
        | inl bad ↦ rw bad (
            stuck there (error ∙ bad) refl
              (subst (λ x. Gains (own x) w.heap s.heap) (sym value) got.gains))
        | inr good ↦
            let held : Holds (own s.out) s.heap = λ a. omega (arith, got.gains.live a) in
            let all = frees s.out s.heap held in
            rw good (
              told box _ there (error ∙ good) refl refl refl (sym value) (sym heap) held (record {
                live = λ a. omega (arith, got.gains.live a, all.live a);
                bad = all.bad ∙ got.gains.bad;
              }))
      ]

  trampoline-Handled :
      (box : Option EventBox) (d : Delivery) (w : Scene X)
      → Handled c dec zeroed own box d w (event_trampoline ⦃c = c⦄ dec zeroed fr box d w)
  unfolding event_trampoline
  trampoline-Handled none d w = ignored refl refl
  trampoline-Handled (some box) d w =
      chosen (Handled c dec zeroed own (some box) d w) w _ box.has_fn (d.ret == ret_ok)
        (length (payload d) == 0) (failed (c.parser_init (payload d)).0)
        (c.is_map (c.parser_init (payload d)).1) (failed (payload_field c d).0)
        (λ unfit. ignored unfit refl)
        λ fit. decoded-Handled box d w _ fit refl (sound (payload_field c d).1 w.heap)

module _ {V : Type 0} (c : Reader V) (box : Option EventBox) (d : Delivery) where
  -- A delivery to the trampoline of `on_echo_fired` without a box, a function, the code `RET_OK`, bytes,
  -- a CBOR map or a payload in it is ignored. Any other one whose payload decodes calls the
  -- listener once, with its `user_data` and the decoded value, whose memory is allocated, and
  -- leaves the heap as it was; if the payload does not decode, nobody is called, and what was
  -- decoded of it stays allocated.
  pub on_echo_fired-Handled :
      (w : Scene EchoEvent)
      → Handled c
          (dec_echo_event ⦃c = c⦄)
          no_echo_event
          owned_echo_event
          box
          d
          w
          (on_echo_fired_trampoline c box d w)
  unfolding on_echo_fired_trampoline
  on_echo_fired-Handled w =
      trampoline-Handled c (dec_echo_event ⦃c = c⦄) no_echo_event free_echo_event owned_echo_event
        (dec_echo_event-Sound ⦃c = c⦄) free_echo_event-Frees box d w

  -- The same for the trampoline of `on_job_scheduled`: a delivery without a box, a function, the code
  -- `RET_OK`, bytes, a CBOR map or a payload in it is ignored. Any other one whose payload decodes
  -- calls the listener once, with its `user_data` and the decoded value, whose memory is allocated,
  -- and leaves the heap as it was; if the payload does not decode, nobody is called, and what was
  -- decoded of it stays allocated.
  pub on_job_scheduled-Handled :
      (w : Scene OnJobScheduledPayload)
      → Handled c
          (dec_on_job_scheduled_payload ⦃c = c⦄)
          no_on_job_scheduled_payload
          owned_on_job_scheduled_payload
          box
          d
          w
          (on_job_scheduled_trampoline c box d w)
  unfolding on_job_scheduled_trampoline
  on_job_scheduled-Handled w =
      trampoline-Handled c (dec_on_job_scheduled_payload ⦃c = c⦄) no_on_job_scheduled_payload
        free_on_job_scheduled_payload owned_on_job_scheduled_payload
        (dec_on_job_scheduled_payload-Sound ⦃c = c⦄) free_on_job_scheduled_payload-Frees box d w
