-- ===== src/Timer/RoundTrip/Requests.antt =====
-- The decoders of jobs, schedules and of the requests of the calls read back the item that a struct
-- denotes.
use nim_ffi.Base.{◌≡◌, refl, codes}
use nim_ffi.Tinycbor.{Reader}
use nim_ffi.Tinycbor.Items.{int, text, map, nil, cons}
use nim_ffi.Tinycbor.Laws.{Reads}
use nim_ffi.Cbor.Emits.{item_str, item_seq, item_opt}
use nim_ffi.Cbor.Reading.{Denotes, field-Done, dec_map-Denotes, close-Done, dec_i64-Denotes}
use nim_ffi.Cbor.Fits.{str-Denotes}
use nim_ffi.Timer.Types.{
  JobSpec, RetryPolicy, ScheduleConfig, ScheduleResult, MyTimerCreateCtorReq, MyTimerEchoReq,
  MyTimerVersionReq, MyTimerLibVersionReq, MyTimerComplexReq, MyTimerScheduleReq, no_job_spec,
  no_retry_policy, no_schedule_config, no_schedule_result, no_my_timer_create_ctor_req,
  no_my_timer_echo_req, no_my_timer_version_req, no_my_timer_lib_version_req,
  no_my_timer_complex_req, no_my_timer_schedule_req,
}
use nim_ffi.Timer.Dec.{
  dec_job_spec, dec_retry_policy, dec_schedule_config, dec_schedule_result,
  dec_my_timer_create_ctor_req, dec_my_timer_echo_req, dec_my_timer_version_req,
  dec_my_timer_lib_version_req, dec_my_timer_complex_req, dec_my_timer_schedule_req,
}
use nim_ffi.Timer.Items.{
  item_job_priority, item_timer_config, item_echo_request, item_complex_request, item_job_spec,
  item_retry_policy, item_schedule_config, item_schedule_result, item_my_timer_create_ctor_req,
  item_my_timer_echo_req, item_my_timer_version_req, item_my_timer_lib_version_req,
  item_my_timer_complex_req, item_my_timer_schedule_req, FitsJobSpec, FitsRetryPolicy,
  FitsScheduleConfig, FitsScheduleResult, FitsMyTimerCreateCtorReq, FitsMyTimerEchoReq,
  FitsMyTimerVersionReq, FitsMyTimerLibVersionReq, FitsMyTimerComplexReq, FitsMyTimerScheduleReq,
}
use nim_ffi.Timer.RoundTrip.ReadBack.{
  dec_seq_str-Denotes, dec_opt_i64-Denotes, dec_job_priority-Denotes, dec_timer_config-Denotes,
  dec_echo_request-Denotes, dec_complex_request-Denotes,
}

module _ {V : Type 0} ⦃c : Reader V⦄ (rs : Reads c) where
  pub dec_job_spec-Denotes :
      (v : JobSpec)
      → FitsJobSpec v
      → Denotes rs item_job_spec no_job_spec dec_job_spec (item_job_spec v)
  unfolding dec_job_spec
  dec_job_spec-Denotes v fits = dec_map-Denotes rs item_job_spec no_job_spec _ _ λ it h r e full.
      field-Done rs (item_str) _ _ _ _ _ _ _ (item_str v.name) _ _ r e refl
        (str-Denotes rs v.name fits.0) full
        λ o0 g0 p0 full.
          field-Done rs (item_seq item_str) _ _ _ _ _ _ _ (item_seq item_str v.payload) _ _ r e refl
            (dec_seq_str-Denotes rs v.payload fits.1) full
            λ o1 g1 p1 full.
              field-Done rs (item_job_priority) _ _ _ _ _ _ _ (item_job_priority v.priority) _ _ r e
                refl (dec_job_priority-Denotes rs v.priority fits.2) full
                λ o2 g2 p2 full.
                  close-Done rs (λ o. item_job_spec o ≡ item_job_spec v) it _ g2 _ r e full
                    (λ i. map (
                      cons (text (codes "name")) (
                        cons (p0 i) (
                          cons (text (codes "payload"))
                            (cons (p1 i) (cons (text (codes "priority")) (cons (p2 i) nil)))))))

  pub dec_retry_policy-Denotes :
      (v : RetryPolicy)
      → FitsRetryPolicy v
      → Denotes rs item_retry_policy no_retry_policy dec_retry_policy (item_retry_policy v)
  unfolding dec_retry_policy
  dec_retry_policy-Denotes v fits =
      dec_map-Denotes rs item_retry_policy no_retry_policy _ _ λ it h r e full.
        field-Done rs (int) _ _ _ _ _ _ _ (int v.max_attempts) _ _ r e refl
          (dec_i64-Denotes rs v.max_attempts fits.0) full
          λ o0 g0 p0 full.
            field-Done rs (int) _ _ _ _ _ _ _ (int v.backoff_ms) _ _ r e refl
              (dec_i64-Denotes rs v.backoff_ms fits.1) full
              λ o1 g1 p1 full.
                field-Done rs (item_seq item_str) _ _ _ _ _ _ _ (item_seq item_str v.retry_on) _ _ r
                  e refl (dec_seq_str-Denotes rs v.retry_on fits.2) full
                  λ o2 g2 p2 full.
                    close-Done rs (λ o. item_retry_policy o ≡ item_retry_policy v) it _ g2 _ r e
                      full
                      (λ i. map (
                        cons (text (codes "maxAttempts")) (
                          cons (p0 i) (
                            cons (text (codes "backoffMs"))
                              (cons (p1 i) (cons (text (codes "retryOn")) (cons (p2 i) nil)))))))

  pub dec_schedule_config-Denotes :
      (v : ScheduleConfig)
      → FitsScheduleConfig v
      → Denotes rs item_schedule_config no_schedule_config dec_schedule_config
          (item_schedule_config v)
  unfolding dec_schedule_config
  dec_schedule_config-Denotes v fits =
      dec_map-Denotes rs item_schedule_config no_schedule_config _ _ λ it h r e full.
        field-Done rs (int) _ _ _ _ _ _ _ (int v.start_at_ms) _ _ r e refl
          (dec_i64-Denotes rs v.start_at_ms fits.0) full
          λ o0 g0 p0 full.
            field-Done rs (int) _ _ _ _ _ _ _ (int v.interval_ms) _ _ r e refl
              (dec_i64-Denotes rs v.interval_ms fits.1) full
              λ o1 g1 p1 full.
                field-Done rs (item_opt int) _ _ _ _ _ _ _ (item_opt int v.jitter) _ _ r e refl
                  (dec_opt_i64-Denotes rs v.jitter fits.2) full
                  λ o2 g2 p2 full.
                    close-Done rs (λ o. item_schedule_config o ≡ item_schedule_config v) it _ g2 _ r
                      e full
                      (λ i. map (
                        cons (text (codes "startAtMs")) (
                          cons (p0 i) (
                            cons (text (codes "intervalMs"))
                              (cons (p1 i) (cons (text (codes "jitter")) (cons (p2 i) nil)))))))

  pub dec_schedule_result-Denotes :
      (v : ScheduleResult)
      → FitsScheduleResult v
      → Denotes rs item_schedule_result no_schedule_result dec_schedule_result
          (item_schedule_result v)
  unfolding dec_schedule_result
  dec_schedule_result-Denotes v fits =
      dec_map-Denotes rs item_schedule_result no_schedule_result _ _ λ it h r e full.
        field-Done rs (item_str) _ _ _ _ _ _ _ (item_str v.job_id) _ _ r e refl
          (str-Denotes rs v.job_id fits.0) full
          λ o0 g0 p0 full.
            field-Done rs (int) _ _ _ _ _ _ _ (int v.will_run_count) _ _ r e refl
              (dec_i64-Denotes rs v.will_run_count fits.1) full
              λ o1 g1 p1 full.
                field-Done rs (int) _ _ _ _ _ _ _ (int v.first_run_at_ms) _ _ r e refl
                  (dec_i64-Denotes rs v.first_run_at_ms fits.2) full
                  λ o2 g2 p2 full.
                    field-Done rs (int) _ _ _ _ _ _ _ (int v.effective_backoff_ms) _ _ r e refl
                      (dec_i64-Denotes rs v.effective_backoff_ms fits.3) full
                      λ o3 g3 p3 full.
                        field-Done rs (item_job_priority) _ _ _ _ _ _ _
                          (item_job_priority v.priority) _ _ r e refl
                          (dec_job_priority-Denotes rs v.priority fits.4) full
                          λ o4 g4 p4 full.
                            close-Done rs (λ o. item_schedule_result o ≡ item_schedule_result v) it
                              _ g4 _ r e full
                              (λ i. map (
                                cons (text (codes "jobId")) (
                                  cons (p0 i) (
                                    cons (text (codes "willRunCount")) (
                                      cons (p1 i) (
                                        cons (text (codes "firstRunAtMs")) (
                                          cons (p2 i) (
                                            cons (text (codes "effectiveBackoffMs")) (
                                              cons (p3 i) (
                                                cons (text (codes "priority"))
                                                  (cons (p4 i) nil)))))))))))

  pub dec_my_timer_create_ctor_req-Denotes :
      (v : MyTimerCreateCtorReq)
      → FitsMyTimerCreateCtorReq v
      → Denotes rs item_my_timer_create_ctor_req no_my_timer_create_ctor_req
          dec_my_timer_create_ctor_req
          (item_my_timer_create_ctor_req v)
  unfolding dec_my_timer_create_ctor_req
  dec_my_timer_create_ctor_req-Denotes v fits =
      dec_map-Denotes rs item_my_timer_create_ctor_req no_my_timer_create_ctor_req _ _
        λ it h r e full.
          field-Done rs (item_timer_config) _ _ _ _ _ _ _ (item_timer_config v.config) _ _ r e refl
            (dec_timer_config-Denotes rs v.config fits) full
            λ o0 g0 p0 full.
              close-Done rs (λ o. item_my_timer_create_ctor_req o ≡ item_my_timer_create_ctor_req v)
                it _ g0 _ r e full (λ i. map (cons (text (codes "config")) (cons (p0 i) nil)))

  pub dec_my_timer_echo_req-Denotes :
      (v : MyTimerEchoReq)
      → FitsMyTimerEchoReq v
      → Denotes rs item_my_timer_echo_req no_my_timer_echo_req dec_my_timer_echo_req
          (item_my_timer_echo_req v)
  unfolding dec_my_timer_echo_req
  dec_my_timer_echo_req-Denotes v fits =
      dec_map-Denotes rs item_my_timer_echo_req no_my_timer_echo_req _ _ λ it h r e full.
        field-Done rs (item_echo_request) _ _ _ _ _ _ _ (item_echo_request v.req) _ _ r e refl
          (dec_echo_request-Denotes rs v.req fits) full
          λ o0 g0 p0 full.
            close-Done rs (λ o. item_my_timer_echo_req o ≡ item_my_timer_echo_req v) it _ g0 _ r e
              full (λ i. map (cons (text (codes "req")) (cons (p0 i) nil)))

  pub dec_my_timer_version_req-Denotes :
      (v : MyTimerVersionReq)
      → FitsMyTimerVersionReq v
      → Denotes rs item_my_timer_version_req no_my_timer_version_req dec_my_timer_version_req
          (item_my_timer_version_req v)
  unfolding dec_my_timer_version_req
  dec_my_timer_version_req-Denotes v fits =
      dec_map-Denotes rs item_my_timer_version_req no_my_timer_version_req _ _ λ it h r e full.
        close-Done rs (λ o. item_my_timer_version_req o ≡ item_my_timer_version_req v) it _ h _ r e
          full (refl)

  pub dec_my_timer_lib_version_req-Denotes :
      (v : MyTimerLibVersionReq)
      → FitsMyTimerLibVersionReq v
      → Denotes rs item_my_timer_lib_version_req no_my_timer_lib_version_req
          dec_my_timer_lib_version_req
          (item_my_timer_lib_version_req v)
  unfolding dec_my_timer_lib_version_req
  dec_my_timer_lib_version_req-Denotes v fits =
      dec_map-Denotes rs item_my_timer_lib_version_req no_my_timer_lib_version_req _ _
        λ it h r e full.
          close-Done rs (λ o. item_my_timer_lib_version_req o ≡ item_my_timer_lib_version_req v) it
            _ h _ r e full (refl)

  pub dec_my_timer_complex_req-Denotes :
      (v : MyTimerComplexReq)
      → FitsMyTimerComplexReq v
      → Denotes rs item_my_timer_complex_req no_my_timer_complex_req dec_my_timer_complex_req
          (item_my_timer_complex_req v)
  unfolding dec_my_timer_complex_req
  dec_my_timer_complex_req-Denotes v fits =
      dec_map-Denotes rs item_my_timer_complex_req no_my_timer_complex_req _ _ λ it h r e full.
        field-Done rs (item_complex_request) _ _ _ _ _ _ _ (item_complex_request v.req) _ _ r e refl
          (dec_complex_request-Denotes rs v.req fits) full
          λ o0 g0 p0 full.
            close-Done rs (λ o. item_my_timer_complex_req o ≡ item_my_timer_complex_req v) it _ g0 _
              r e full (λ i. map (cons (text (codes "req")) (cons (p0 i) nil)))

  pub dec_my_timer_schedule_req-Denotes :
      (v : MyTimerScheduleReq)
      → FitsMyTimerScheduleReq v
      → Denotes rs item_my_timer_schedule_req no_my_timer_schedule_req dec_my_timer_schedule_req
          (item_my_timer_schedule_req v)
  unfolding dec_my_timer_schedule_req
  dec_my_timer_schedule_req-Denotes v fits =
      dec_map-Denotes rs item_my_timer_schedule_req no_my_timer_schedule_req _ _ λ it h r e full.
        field-Done rs (item_job_spec) _ _ _ _ _ _ _ (item_job_spec v.job) _ _ r e refl
          (dec_job_spec-Denotes v.job fits.0) full
          λ o0 g0 p0 full.
            field-Done rs (item_retry_policy) _ _ _ _ _ _ _ (item_retry_policy v.retry) _ _ r e refl
              (dec_retry_policy-Denotes v.retry fits.1) full
              λ o1 g1 p1 full.
                field-Done rs (item_schedule_config) _ _ _ _ _ _ _ (item_schedule_config v.schedule)
                  _ _ r e refl (dec_schedule_config-Denotes v.schedule fits.2) full
                  λ o2 g2 p2 full.
                    close-Done rs (λ o. item_my_timer_schedule_req o ≡ item_my_timer_schedule_req v)
                      it _ g2 _ r e full
                      (λ i. map (
                        cons (text (codes "job")) (
                          cons (p0 i) (
                            cons (text (codes "retry"))
                              (cons (p1 i) (cons (text (codes "schedule")) (cons (p2 i) nil)))))))
