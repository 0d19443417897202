-- ===== src/Timer/Memory/Decoded.antt =====
-- Each decoder of the header, from a zeroed struct, allocates exactly what the struct then owns:
-- also where it stops half way, whatever the reader answers and whichever allocation fails.
use nim_ffi.Base.{refl, arith, pos, none, some, Option}
use nim_ffi.Heap.Laws.{Gains-refl, Gains-as}
use nim_ffi.Heap.{Heap}
use nim_ffi.Tinycbor.{Reader}
use nim_ffi.Cbor.Values.{null, owned_str}
use nim_ffi.Cbor.Dec.{advance_it}
use nim_ffi.Cbor.Struct.{no_items, no_value}
use nim_ffi.Cbor.Memory.{
  Sound, Ends, ends, at, walk, owned_none, owned_seq, owned_opt, dec_str-Sound, dec_i64-Sound,
  dec_bool-Sound, dec_seq-Sound, dec_opt-Sound, dec_map-Sound, field-Ends, close-Ends,
}
use nim_ffi.Timer.Types.{
  JobPriority, no_timer_config, no_echo_request, no_echo_response, no_complex_request,
  no_complex_response, no_echo_event, no_on_job_scheduled_payload, no_job_spec, no_retry_policy,
  no_schedule_config, no_schedule_result, no_my_timer_create_ctor_req, no_my_timer_echo_req,
  no_my_timer_version_req, no_my_timer_lib_version_req, no_my_timer_complex_req,
  no_my_timer_schedule_req,
}
use nim_ffi.Timer.Dec.{
  dec_seq_str, dec_opt_str, dec_opt_i64, dec_seq_echo_request, dec_job_priority, store_job_priority,
  dec_timer_config, dec_echo_request, dec_echo_response, dec_complex_request, dec_complex_response,
  dec_echo_event, dec_on_job_scheduled_payload, dec_job_spec, dec_retry_policy, dec_schedule_config,
  dec_schedule_result, dec_my_timer_create_ctor_req, dec_my_timer_echo_req,
  dec_my_timer_version_req, dec_my_timer_lib_version_req, dec_my_timer_complex_req,
  dec_my_timer_schedule_req,
}
use nim_ffi.Timer.Memory.Owned.{
  owned_timer_config, owned_echo_request, owned_echo_response, owned_complex_request,
  owned_complex_response, owned_echo_event, owned_on_job_scheduled_payload, owned_job_spec,
  owned_retry_policy, owned_schedule_config, owned_schedule_result, owned_my_timer_create_ctor_req,
  owned_my_timer_echo_req, owned_my_timer_version_req, owned_my_timer_lib_version_req,
  owned_my_timer_complex_req, owned_my_timer_schedule_req,
}

module _ {V : Type 0} ⦃c : Reader V⦄ where
  pub dec_seq_str-Sound : Sound (owned_seq owned_str) no_items (dec_seq_str {V = V})
  unfolding dec_seq_str
  dec_seq_str-Sound = dec_seq-Sound owned_str null _ (λ a. refl) dec_str-Sound

  pub dec_opt_str-Sound : Sound (owned_opt owned_str) (no_value null) (dec_opt_str {V = V})
  unfolding dec_opt_str
  dec_opt_str-Sound = dec_opt-Sound owned_str null _ (λ a. refl) dec_str-Sound

  pub dec_opt_i64-Sound : Sound owned_none (no_value (pos 0)) (dec_opt_i64 {V = V})
  unfolding dec_opt_i64
  dec_opt_i64-Sound it h =
      let option = dec_opt-Sound owned_none (pos 0) _ (λ a. refl) dec_i64-Sound it h in
      ends _ _ _ (Gains-as option.gains (λ a. ground arith))

  store_job_priority-Ends :
      (o : Option JobPriority) (it : V) (h : Heap)
      → Ends owned_none h (store_job_priority o (at it 0 h))
  unfolding store_job_priority advance_it
  store_job_priority-Ends none it h = ends _ _ _ (Gains-refl h)
  store_job_priority-Ends (some p) it h = ends _ _ _ (Gains-refl h)

  pub dec_job_priority-Sound : Sound owned_none 0 (dec_job_priority {V = V})
  unfolding dec_job_priority
  dec_job_priority-Sound it h =
      let same = Gains-refl h in
      let stored = λ (o : Option JobPriority). store_job_priority-Ends o it h in
      search (walk, same, stored)

  pub dec_timer_config-Sound : Sound owned_timer_config no_timer_config (dec_timer_config {V = V})
  unfolding dec_timer_config
  dec_timer_config-Sound =
      dec_map-Sound owned_timer_config no_timer_config _ (λ a. refl)
        λ it h e.
          field-Ends (owned_str) owned_timer_config h _ _ _ _ _ _ dec_str-Sound e
            (λ x a. omega arith) λ x0 g0 e. close-Ends owned_timer_config h _ e

  pub dec_echo_request-Sound : Sound owned_echo_request no_echo_request (dec_echo_request {V = V})
  unfolding dec_echo_request
  dec_echo_request-Sound =
      dec_map-Sound owned_echo_request no_echo_request _ (λ a. refl)
        λ it h e.
          field-Ends (owned_str) owned_echo_request h _ _ _ _ _ _ dec_str-Sound e
            (λ x a. omega arith)
            λ x0 g0 e.
              field-Ends (owned_none) owned_echo_request h _ _ _ _ _ _ dec_i64-Sound e
                (λ x a. omega arith) λ x1 g1 e. close-Ends owned_echo_request h _ e

  pub dec_seq_echo_request-Sound :
      Sound (owned_seq owned_echo_request) no_items (dec_seq_echo_request {V = V})
  unfolding dec_seq_echo_request
  dec_seq_echo_request-Sound =
      dec_seq-Sound owned_echo_request no_echo_request _ (λ a. refl) dec_echo_request-Sound

  pub dec_echo_response-Sound :
      Sound owned_echo_response no_echo_response (dec_echo_response {V = V})
  unfolding dec_echo_response
  dec_echo_response-Sound =
      dec_map-Sound owned_echo_response no_echo_response _ (λ a. refl)
        λ it h e.
          field-Ends (owned_str) owned_echo_response h _ _ _ _ _ _ dec_str-Sound e
            (λ x a. omega arith)
            λ x0 g0 e.
              field-Ends (owned_str) owned_echo_response h _ _ _ _ _ _ dec_str-Sound e
                (λ x a. omega arith) λ x1 g1 e. close-Ends owned_echo_response h _ e

  pub dec_complex_request-Sound :
      Sound owned_complex_request no_complex_request (dec_complex_request {V = V})
  unfolding dec_complex_request
  dec_complex_request-Sound =
      dec_map-Sound owned_complex_request no_complex_request _ (λ a. refl)
        λ it h e.
          field-Ends (owned_seq owned_echo_request) owned_complex_request h _ _ _ _ _ _
            dec_seq_echo_request-Sound e (λ x a. omega arith)
            λ x0 g0 e.
              field-Ends (owned_seq owned_str) owned_complex_request h _ _ _ _ _ _ dec_seq_str-Sound
                e (λ x a. omega arith)
                λ x1 g1 e.
                  field-Ends (owned_opt owned_str) owned_complex_request h _ _ _ _ _ _
                    dec_opt_str-Sound e (λ x a. omega arith)
                    λ x2 g2 e.
                      field-Ends (owned_none) owned_complex_request h _ _ _ _ _ _ dec_opt_i64-Sound
                        e (λ x a. omega arith) λ x3 g3 e. close-Ends owned_complex_request h _ e

  pub dec_complex_response-Sound :
      Sound owned_complex_response no_complex_response (dec_complex_response {V = V})
  unfolding dec_complex_response
  dec_complex_response-Sound =
      dec_map-Sound owned_complex_response no_complex_response _ (λ a. refl)
        λ it h e.
          field-Ends (owned_str) owned_complex_response h _ _ _ _ _ _ dec_str-Sound e
            (λ x a. omega arith)
            λ x0 g0 e.
              field-Ends (owned_none) owned_complex_response h _ _ _ _ _ _ dec_i64-Sound e
                (λ x a. omega arith)
                λ x1 g1 e.
                  field-Ends (owned_none) owned_complex_response h _ _ _ _ _ _ dec_bool-Sound e
                    (λ x a. omega arith) λ x2 g2 e. close-Ends owned_complex_response h _ e

  pub dec_echo_event-Sound : Sound owned_echo_event no_echo_event (dec_echo_event {V = V})
  unfolding dec_echo_event
  dec_echo_event-Sound =
      dec_map-Sound owned_echo_event no_echo_event _ (λ a. refl)
        λ it h e.
          field-Ends (owned_str) owned_echo_event h _ _ _ _ _ _ dec_str-Sound e (λ x a. omega arith)
            λ x0 g0 e.
              field-Ends (owned_none) owned_echo_event h _ _ _ _ _ _ dec_i64-Sound e
                (λ x a. omega arith) λ x1 g1 e. close-Ends owned_echo_event h _ e

  pub dec_on_job_scheduled_payload-Sound :
      Sound owned_on_job_scheduled_payload no_on_job_scheduled_payload
        (dec_on_job_scheduled_payload {V = V})
  unfolding dec_on_job_scheduled_payload
  dec_on_job_scheduled_payload-Sound =
      dec_map-Sound owned_on_job_scheduled_payload no_on_job_scheduled_payload _ (λ a. refl)
        λ it h e.
          field-Ends (owned_str) owned_on_job_scheduled_payload h _ _ _ _ _ _ dec_str-Sound e
            (λ x a. omega arith)
            λ x0 g0 e.
              field-Ends (owned_none) owned_on_job_scheduled_payload h _ _ _ _ _ _ dec_i64-Sound e
                (λ x a. omega arith) λ x1 g1 e. close-Ends owned_on_job_scheduled_payload h _ e

  pub dec_job_spec-Sound : Sound owned_job_spec no_job_spec (dec_job_spec {V = V})
  unfolding dec_job_spec
  dec_job_spec-Sound =
      dec_map-Sound owned_job_spec no_job_spec _ (λ a. refl)
        λ it h e.
          field-Ends (owned_str) owned_job_spec h _ _ _ _ _ _ dec_str-Sound e (λ x a. omega arith)
            λ x0 g0 e.
              field-Ends (owned_seq owned_str) owned_job_spec h _ _ _ _ _ _ dec_seq_str-Sound e
                (λ x a. omega arith)
                λ x1 g1 e.
                  field-Ends (owned_none) owned_job_spec h _ _ _ _ _ _ dec_job_priority-Sound e
                    (λ x a. omega arith) λ x2 g2 e. close-Ends owned_job_spec h _ e

  pub dec_retry_policy-Sound : Sound owned_retry_policy no_retry_policy (dec_retry_policy {V = V})
  unfolding dec_retry_policy
  dec_retry_policy-Sound =
      dec_map-Sound owned_retry_policy no_retry_policy _ (λ a. refl)
        λ it h e.
          field-Ends (owned_none) owned_retry_policy h _ _ _ _ _ _ dec_i64-Sound e
            (λ x a. omega arith)
            λ x0 g0 e.
              field-Ends (owned_none) owned_retry_policy h _ _ _ _ _ _ dec_i64-Sound e
                (λ x a. omega arith)
                λ x1 g1 e.
                  field-Ends (owned_seq owned_str) owned_retry_policy h _ _ _ _ _ _
                    dec_seq_str-Sound e (λ x a. omega arith)
                    λ x2 g2 e. close-Ends owned_retry_policy h _ e

  pub dec_schedule_config-Sound :
      Sound owned_schedule_config no_schedule_config (dec_schedule_config {V = V})
  unfolding dec_schedule_config
  dec_schedule_config-Sound =
      dec_map-Sound owned_schedule_config no_schedule_config _ (λ a. refl)
        λ it h e.
          field-Ends (owned_none) owned_schedule_config h _ _ _ _ _ _ dec_i64-Sound e
            (λ x a. omega arith)
            λ x0 g0 e.
              field-Ends (owned_none) owned_schedule_config h _ _ _ _ _ _ dec_i64-Sound e
                (λ x a. omega arith)
                λ x1 g1 e.
                  field-Ends (owned_none) owned_schedule_config h _ _ _ _ _ _ dec_opt_i64-Sound e
                    (λ x a. omega arith) λ x2 g2 e. close-Ends owned_schedule_config h _ e

  pub dec_schedule_result-Sound :
      Sound owned_schedule_result no_schedule_result (dec_schedule_result {V = V})
  unfolding dec_schedule_result
  dec_schedule_result-Sound =
      dec_map-Sound owned_schedule_result no_schedule_result _ (λ a. refl)
        λ it h e.
          field-Ends (owned_str) owned_schedule_result h _ _ _ _ _ _ dec_str-Sound e
            (λ x a. omega arith)
            λ x0 g0 e.
              field-Ends (owned_none) owned_schedule_result h _ _ _ _ _ _ dec_i64-Sound e
                (λ x a. omega arith)
                λ x1 g1 e.
                  field-Ends (owned_none) owned_schedule_result h _ _ _ _ _ _ dec_i64-Sound e
                    (λ x a. omega arith)
                    λ x2 g2 e.
                      field-Ends (owned_none) owned_schedule_result h _ _ _ _ _ _ dec_i64-Sound e
                        (λ x a. omega arith)
                        λ x3 g3 e.
                          field-Ends (owned_none) owned_schedule_result h _ _ _ _ _ _
                            dec_job_priority-Sound e (λ x a. omega arith)
                            λ x4 g4 e. close-Ends owned_schedule_result h _ e

  pub dec_my_timer_create_ctor_req-Sound :
      Sound owned_my_timer_create_ctor_req no_my_timer_create_ctor_req
        (dec_my_timer_create_ctor_req {V = V})
  unfolding dec_my_timer_create_ctor_req
  dec_my_timer_create_ctor_req-Sound =
      dec_map-Sound owned_my_timer_create_ctor_req no_my_timer_create_ctor_req _ (λ a. refl)
        λ it h e.
          field-Ends (owned_timer_config) owned_my_timer_create_ctor_req h _ _ _ _ _ _
            dec_timer_config-Sound e (λ x a. omega arith)
            λ x0 g0 e. close-Ends owned_my_timer_create_ctor_req h _ e

  pub dec_my_timer_echo_req-Sound :
      Sound owned_my_timer_echo_req no_my_timer_echo_req (dec_my_timer_echo_req {V = V})
  unfolding dec_my_timer_echo_req
  dec_my_timer_echo_req-Sound =
      dec_map-Sound owned_my_timer_echo_req no_my_timer_echo_req _ (λ a. refl)
        λ it h e.
          field-Ends (owned_echo_request) owned_my_timer_echo_req h _ _ _ _ _ _
            dec_echo_request-Sound e (λ x a. omega arith)
            λ x0 g0 e. close-Ends owned_my_timer_echo_req h _ e

  pub dec_my_timer_version_req-Sound :
      Sound owned_my_timer_version_req no_my_timer_version_req (dec_my_timer_version_req {V = V})
  unfolding dec_my_timer_version_req
  dec_my_timer_version_req-Sound =
      dec_map-Sound owned_my_timer_version_req no_my_timer_version_req _ (λ a. refl)
        λ it h e. close-Ends owned_my_timer_version_req h _ e

  pub dec_my_timer_lib_version_req-Sound :
      Sound owned_my_timer_lib_version_req no_my_timer_lib_version_req
        (dec_my_timer_lib_version_req {V = V})
  unfolding dec_my_timer_lib_version_req
  dec_my_timer_lib_version_req-Sound =
      dec_map-Sound owned_my_timer_lib_version_req no_my_timer_lib_version_req _ (λ a. refl)
        λ it h e. close-Ends owned_my_timer_lib_version_req h _ e

  pub dec_my_timer_complex_req-Sound :
      Sound owned_my_timer_complex_req no_my_timer_complex_req (dec_my_timer_complex_req {V = V})
  unfolding dec_my_timer_complex_req
  dec_my_timer_complex_req-Sound =
      dec_map-Sound owned_my_timer_complex_req no_my_timer_complex_req _ (λ a. refl)
        λ it h e.
          field-Ends (owned_complex_request) owned_my_timer_complex_req h _ _ _ _ _ _
            dec_complex_request-Sound e (λ x a. omega arith)
            λ x0 g0 e. close-Ends owned_my_timer_complex_req h _ e

  pub dec_my_timer_schedule_req-Sound :
      Sound owned_my_timer_schedule_req no_my_timer_schedule_req (dec_my_timer_schedule_req {V = V})
  unfolding dec_my_timer_schedule_req
  dec_my_timer_schedule_req-Sound =
      dec_map-Sound owned_my_timer_schedule_req no_my_timer_schedule_req _ (λ a. refl)
        λ it h e.
          field-Ends (owned_job_spec) owned_my_timer_schedule_req h _ _ _ _ _ _ dec_job_spec-Sound e
            (λ x a. omega arith)
            λ x0 g0 e.
              field-Ends (owned_retry_policy) owned_my_timer_schedule_req h _ _ _ _ _ _
                dec_retry_policy-Sound e (λ x a. omega arith)
                λ x1 g1 e.
                  field-Ends (owned_schedule_config) owned_my_timer_schedule_req h _ _ _ _ _ _
                    dec_schedule_config-Sound e (λ x a. omega arith)
                    λ x2 g2 e. close-Ends owned_my_timer_schedule_req h _ e
