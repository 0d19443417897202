-- ===== src/Timer/RoundTrip/ReadBack.antt =====
-- The decoders of the smaller structs read back the item that a struct denotes.
use nim_ffi.Base.{ℤ, pos, zero, suc, ◌≡◌, refl, codes, arith}
use nim_ffi.Tinycbor.{Reader}
use nim_ffi.Tinycbor.Items.{int, bool, text, map, nil, cons}
use nim_ffi.Tinycbor.Laws.{Reads, IsInt64}
use nim_ffi.Cbor.Values.{CStr, null}
use nim_ffi.Cbor.Dec.{dec_str}
use nim_ffi.Cbor.Struct.{Seq, Opt, no_items, no_value}
use nim_ffi.Cbor.Emits.{item_str, item_seq, item_opt}
use nim_ffi.Cbor.Memory.{at}
use nim_ffi.Cbor.Reading.{
  Denotes, field-Done, advance_it-Done, dec_map-Denotes, close-Done, dec_i64-Denotes,
  dec_bool-Denotes,
}
use nim_ffi.Cbor.Fits.{
  FitsStr, FitsSeq, FitsOpt, str-Denotes, seq-Denotes, opt_str-Denotes, opt_i64-Denotes,
}
use nim_ffi.Timer.Types.{
  JobPriority, TimerConfig, EchoRequest, EchoResponse, ComplexRequest, ComplexResponse, EchoEvent,
  OnJobScheduledPayload, no_timer_config, no_echo_request, no_echo_response, no_complex_request,
  no_complex_response, no_echo_event, no_on_job_scheduled_payload,
}
use nim_ffi.Timer.Dec.{
  dec_seq_str, dec_opt_str, dec_opt_i64, dec_job_priority, store_job_priority, match_job_priority,
  dec_seq_echo_request, dec_timer_config, dec_echo_request, dec_echo_response, dec_complex_request,
  dec_complex_response, dec_echo_event, dec_on_job_scheduled_payload,
}
use nim_ffi.Timer.Items.{
  item_job_priority, FitsJobPriority, item_timer_config, item_echo_request, item_echo_response,
  item_complex_request, item_complex_response, item_echo_event, item_on_job_scheduled_payload,
  FitsTimerConfig, FitsEchoRequest, FitsEchoResponse, FitsComplexRequest, FitsComplexResponse,
  FitsEchoEvent, FitsOnJobScheduledPayload,
}

module _ {V : Type 0} ⦃c : Reader V⦄ (rs : Reads c) where
  pub dec_seq_str-Denotes :
      (v : Seq CStr)
      → FitsSeq FitsStr v
      → Denotes rs (item_seq item_str) no_items dec_seq_str (item_seq item_str v)
  unfolding dec_seq_str
  dec_seq_str-Denotes = seq-Denotes rs item_str null dec_str FitsStr (str-Denotes rs)

  pub dec_opt_str-Denotes :
      (v : Opt CStr)
      → FitsOpt FitsStr v
      → Denotes rs (item_opt item_str) (no_value null) dec_opt_str (item_opt item_str v)
  unfolding dec_opt_str
  dec_opt_str-Denotes = opt_str-Denotes rs

  pub dec_opt_i64-Denotes :
      (v : Opt ℤ)
      → FitsOpt IsInt64 v
      → Denotes rs (item_opt int) (no_value (pos 0)) dec_opt_i64 (item_opt int v)
  unfolding dec_opt_i64
  dec_opt_i64-Denotes = opt_i64-Denotes rs

  pub dec_job_priority-Denotes :
      (v : JobPriority)
      → FitsJobPriority v
      → Denotes rs item_job_priority 0 dec_job_priority (item_job_priority v)
  unfolding dec_job_priority store_job_priority match_job_priority
  dec_job_priority-Denotes zero fits it h r e full =
      let t = codes "low" in
      rw (rs.at_text it t r e, rs.text_length it t r e, rs.text_copied it t r 7 e (omega arith))
        (advance_it-Done rs (λ p. item_job_priority p ≡ item_job_priority 0) (at it 0 h) (text t) r
          e refl full)
  dec_job_priority-Denotes (suc zero) fits it h r e full =
      let t = codes "normal" in
      rw (rs.at_text it t r e, rs.text_length it t r e, rs.text_copied it t r 7 e (omega arith))
        (advance_it-Done rs (λ p. item_job_priority p ≡ item_job_priority 1) (at it 1 h) (text t) r
          e refl full)
  dec_job_priority-Denotes (suc (suc zero)) fits it h r e full =
      let t = codes "high" in
      rw (rs.at_text it t r e, rs.text_length it t r e, rs.text_copied it t r 7 e (omega arith))
        (advance_it-Done rs (λ p. item_job_priority p ≡ item_job_priority 2) (at it 2 h) (text t) r
          e refl full)
  dec_job_priority-Denotes (suc (suc (suc n))) fits it h r e full = absurd (omega (arith, fits))

  pub dec_timer_config-Denotes :
      (v : TimerConfig)
      → FitsTimerConfig v
      → Denotes rs item_timer_config no_timer_config dec_timer_config (item_timer_config v)
  unfolding dec_timer_config
  dec_timer_config-Denotes v fits =
      dec_map-Denotes rs item_timer_config no_timer_config _ _ λ it h r e full.
        field-Done rs (item_str) _ _ _ _ _ _ _ (item_str v.name) _ _ r e refl
          (str-Denotes rs v.name fits) full
          λ o0 g0 p0 full.
            close-Done rs (λ o. item_timer_config o ≡ item_timer_config v) it _ g0 _ r e full
              (λ i. map (cons (text (codes "name")) (cons (p0 i) nil)))

  pub dec_echo_request-Denotes :
      (v : EchoRequest)
      → FitsEchoRequest v
      → Denotes rs item_echo_request no_echo_request dec_echo_request (item_echo_request v)
  unfolding dec_echo_request
  dec_echo_request-Denotes v fits =
      dec_map-Denotes rs item_echo_request no_echo_request _ _ λ it h r e full.
        field-Done rs (item_str) _ _ _ _ _ _ _ (item_str v.message) _ _ r e refl
          (str-Denotes rs v.message fits.0) full
          λ o0 g0 p0 full.
            field-Done rs (int) _ _ _ _ _ _ _ (int v.delay_ms) _ _ r e refl
              (dec_i64-Denotes rs v.delay_ms fits.1) full
              λ o1 g1 p1 full.
                close-Done rs (λ o. item_echo_request o ≡ item_echo_request v) it _ g1 _ r e full
                  (λ i. map (
                    cons (text (codes "message"))
                      (cons (p0 i) (cons (text (codes "delayMs")) (cons (p1 i) nil)))))

  pub dec_seq_echo_request-Denotes :
      (v : Seq EchoRequest)
      → FitsSeq FitsEchoRequest v
      → Denotes rs
          (item_seq item_echo_request)
          no_items
          dec_seq_echo_request
          (item_seq item_echo_request v)
  unfolding dec_seq_echo_request
  dec_seq_echo_request-Denotes =
      seq-Denotes rs item_echo_request no_echo_request dec_echo_request FitsEchoRequest
        dec_echo_request-Denotes

  pub dec_echo_response-Denotes :
      (v : EchoResponse)
      → FitsEchoResponse v
      → Denotes rs item_echo_response no_echo_response dec_echo_response (item_echo_response v)
  unfolding dec_echo_response
  dec_echo_response-Denotes v fits =
      dec_map-Denotes rs item_echo_response no_echo_response _ _ λ it h r e full.
        field-Done rs (item_str) _ _ _ _ _ _ _ (item_str v.echoed) _ _ r e refl
          (str-Denotes rs v.echoed fits.0) full
          λ o0 g0 p0 full.
            field-Done rs (item_str) _ _ _ _ _ _ _ (item_str v.timer_name) _ _ r e refl
              (str-Denotes rs v.timer_name fits.1) full
              λ o1 g1 p1 full.
                close-Done rs (λ o. item_echo_response o ≡ item_echo_response v) it _ g1 _ r e full
                  (λ i. map (
                    cons (text (codes "echoed"))
                      (cons (p0 i) (cons (text (codes "timerName")) (cons (p1 i) nil)))))

  pub dec_complex_request-Denotes :
      (v : ComplexRequest)
      → FitsComplexRequest v
      → Denotes rs item_complex_request no_complex_request dec_complex_request
          (item_complex_request v)
  unfolding dec_complex_request
  dec_complex_request-Denotes v fits =
      dec_map-Denotes rs item_complex_request no_complex_request _ _ λ it h r e full.
        field-Done rs (item_seq item_echo_request) _ _ _ _ _ _ _
          (item_seq item_echo_request v.messages) _ _ r e refl
          (dec_seq_echo_request-Denotes v.messages fits.0) full
          λ o0 g0 p0 full.
            field-Done rs (item_seq item_str) _ _ _ _ _ _ _ (item_seq item_str v.tags) _ _ r e refl
              (dec_seq_str-Denotes v.tags fits.1) full
              λ o1 g1 p1 full.
                field-Done rs (item_opt item_str) _ _ _ _ _ _ _ (item_opt item_str v.note) _ _ r e
                  refl (dec_opt_str-Denotes v.note fits.2) full
                  λ o2 g2 p2 full.
                    field-Done rs (item_opt int) _ _ _ _ _ _ _ (item_opt int v.retries) _ _ r e refl
                      (dec_opt_i64-Denotes v.retries fits.3) full
                      λ o3 g3 p3 full.
                        close-Done rs (λ o. item_complex_request o ≡ item_complex_request v) it _ g3
                          _ r e full
                          (λ i. map (
                            cons (text (codes "messages")) (
                              cons (p0 i) (
                                cons (text (codes "tags")) (
                                  cons (p1 i) (
                                    cons (text (codes "note")) (
                                      cons (p2 i)
                                        (cons (text (codes "retries")) (cons (p3 i) nil)))))))))

  pub dec_complex_response-Denotes :
      (v : ComplexResponse)
      → FitsComplexResponse v
      → Denotes rs item_complex_response no_complex_response dec_complex_response
          (item_complex_response v)
  unfolding dec_complex_response
  dec_complex_response-Denotes v fits =
      dec_map-Denotes rs item_complex_response no_complex_response _ _ λ it h r e full.
        field-Done rs (item_str) _ _ _ _ _ _ _ (item_str v.summary) _ _ r e refl
          (str-Denotes rs v.summary fits.0) full
          λ o0 g0 p0 full.
            field-Done rs (int) _ _ _ _ _ _ _ (int v.item_count) _ _ r e refl
              (dec_i64-Denotes rs v.item_count fits.1) full
              λ o1 g1 p1 full.
                field-Done rs (bool) _ _ _ _ _ _ _ (bool v.has_note) _ _ r e refl
                  (dec_bool-Denotes rs v.has_note) full
                  λ o2 g2 p2 full.
                    close-Done rs (λ o. item_complex_response o ≡ item_complex_response v) it _ g2 _
                      r e full
                      (λ i. map (
                        cons (text (codes "summary")) (
                          cons (p0 i) (
                            cons (text (codes "itemCount"))
                              (cons (p1 i) (cons (text (codes "hasNote")) (cons (p2 i) nil)))))))

  pub dec_echo_event-Denotes :
      (v : EchoEvent)
      → FitsEchoEvent v
      → Denotes rs item_echo_event no_echo_event dec_echo_event (item_echo_event v)
  unfolding dec_echo_event
  dec_echo_event-Denotes v fits =
      dec_map-Denotes rs item_echo_event no_echo_event _ _ λ it h r e full.
        field-Done rs (item_str) _ _ _ _ _ _ _ (item_str v.message) _ _ r e refl
          (str-Denotes rs v.message fits.0) full
          λ o0 g0 p0 full.
            field-Done rs (int) _ _ _ _ _ _ _ (int v.echo_count) _ _ r e refl
              (dec_i64-Denotes rs v.echo_count fits.1) full
              λ o1 g1 p1 full.
                close-Done rs (λ o. item_echo_event o ≡ item_echo_event v) it _ g1 _ r e full
                  (λ i. map (
                    cons (text (codes "message"))
                      (cons (p0 i) (cons (text (codes "echoCount")) (cons (p1 i) nil)))))

  pub dec_on_job_scheduled_payload-Denotes :
      (v : OnJobScheduledPayload)
      → FitsOnJobScheduledPayload v
      → Denotes rs item_on_job_scheduled_payload no_on_job_scheduled_payload
          dec_on_job_scheduled_payload
          (item_on_job_scheduled_payload v)
  unfolding dec_on_job_scheduled_payload
  dec_on_job_scheduled_payload-Denotes v fits =
      dec_map-Denotes rs item_on_job_scheduled_payload no_on_job_scheduled_payload _ _
        λ it h r e full.
          field-Done rs (item_str) _ _ _ _ _ _ _ (item_str v.job_id) _ _ r e refl
            (str-Denotes rs v.job_id fits.0) full
            λ o0 g0 p0 full.
              field-Done rs (int) _ _ _ _ _ _ _ (int v.will_run_count) _ _ r e refl
                (dec_i64-Denotes rs v.will_run_count fits.1) full
                λ o1 g1 p1 full.
                  close-Done rs
                    (λ o. item_on_job_scheduled_payload o ≡ item_on_job_scheduled_payload v) it _ g1
                    _ r e full
                    (λ i. map (
                      cons (text (codes "jobId"))
                        (cons (p0 i) (cons (text (codes "willRunCount")) (cons (p1 i) nil)))))
