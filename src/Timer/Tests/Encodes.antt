-- ===== src/Timer/Tests/Encodes.antt =====
-- The encoders run on the values without an error, whatever the capacity.
use nim_ffi.Base.{ℕ, ◌≡◌, refl}
use nim_ffi.Tinycbor.{no_error}
use nim_ffi.Tinycbor.Model.{sink}
use nim_ffi.Timer.Enc.{
  enc_my_timer_schedule_req, enc_my_timer_complex_req, enc_my_timer_echo_req,
  enc_my_timer_create_ctor_req, enc_my_timer_version_req, enc_my_timer_lib_version_req,
  enc_schedule_result, enc_complex_response, enc_echo_response, enc_echo_event,
  enc_on_job_scheduled_payload,
}
use nim_ffi.Timer.Tests.Data.{
  roomy, schedule_req, complex_req, echo_req, create_req, version_req, lib_version_req,
  schedule_result, complex_response, echo_response, echo_event, job_event,
}

pub schedule_req-runs :
    (room : ℕ)
    → (enc_my_timer_schedule_req ⦃w = roomy⦄ schedule_req (roomy.encoder_init room)).0 ≡ no_error
unfolding roomy sink enc_my_timer_schedule_req nim_ffi.Cbor.Struct.enc_map nim_ffi.Cbor.Values.◌>>◌
    nim_ffi.Cbor.Struct.enc_field nim_ffi.Timer.Enc.enc_job_spec nim_ffi.Cbor.Enc.enc_str
    nim_ffi.Timer.Enc.enc_seq_str nim_ffi.Cbor.Struct.enc_seq nim_ffi.Timer.Enc.enc_job_priority
    nim_ffi.Timer.Enc.enc_retry_policy nim_ffi.Cbor.Enc.enc_i64
    nim_ffi.Timer.Enc.enc_schedule_config nim_ffi.Timer.Enc.enc_opt_i64 nim_ffi.Cbor.Struct.enc_opt
schedule_req-runs room = refl

pub complex_req-runs :
    (room : ℕ)
    → (enc_my_timer_complex_req ⦃w = roomy⦄ complex_req (roomy.encoder_init room)).0 ≡ no_error
unfolding roomy sink enc_my_timer_complex_req nim_ffi.Cbor.Struct.enc_map
    nim_ffi.Cbor.Struct.enc_field nim_ffi.Cbor.Values.◌>>◌ nim_ffi.Timer.Enc.enc_complex_request
    nim_ffi.Timer.Enc.enc_seq_echo_request nim_ffi.Cbor.Struct.enc_seq
    nim_ffi.Timer.Enc.enc_echo_request nim_ffi.Cbor.Enc.enc_str nim_ffi.Cbor.Enc.enc_i64
    nim_ffi.Timer.Enc.enc_seq_str nim_ffi.Timer.Enc.enc_opt_str nim_ffi.Cbor.Struct.enc_opt
    nim_ffi.Timer.Enc.enc_opt_i64
complex_req-runs room = refl

pub echo_req-runs :
    (room : ℕ) → (enc_my_timer_echo_req ⦃w = roomy⦄ echo_req (roomy.encoder_init room)).0 ≡ no_error
unfolding roomy sink enc_my_timer_echo_req nim_ffi.Cbor.Struct.enc_map nim_ffi.Cbor.Struct.enc_field
    nim_ffi.Cbor.Values.◌>>◌ nim_ffi.Timer.Enc.enc_echo_request nim_ffi.Cbor.Enc.enc_str
    nim_ffi.Cbor.Enc.enc_i64
echo_req-runs room = refl

pub create_req-runs :
    (room : ℕ)
    → (enc_my_timer_create_ctor_req ⦃w = roomy⦄ create_req (roomy.encoder_init room)).0 ≡ no_error
unfolding roomy sink enc_my_timer_create_ctor_req nim_ffi.Cbor.Struct.enc_map
    nim_ffi.Cbor.Struct.enc_field nim_ffi.Cbor.Values.◌>>◌ nim_ffi.Timer.Enc.enc_timer_config
    nim_ffi.Cbor.Enc.enc_str
create_req-runs room = refl

pub version_req-runs :
    (room : ℕ)
    → (enc_my_timer_version_req ⦃w = roomy⦄ version_req (roomy.encoder_init room)).0 ≡ no_error
unfolding roomy sink enc_my_timer_version_req nim_ffi.Cbor.Struct.enc_map
version_req-runs room = refl

pub lib_version_req-runs :
    (room : ℕ)
    → (enc_my_timer_lib_version_req ⦃w = roomy⦄ lib_version_req (roomy.encoder_init room)).0
      ≡ no_error
unfolding roomy sink enc_my_timer_lib_version_req nim_ffi.Cbor.Struct.enc_map
lib_version_req-runs room = refl

pub schedule_result-runs :
    (room : ℕ)
    → (enc_schedule_result ⦃w = roomy⦄ schedule_result (roomy.encoder_init room)).0 ≡ no_error
unfolding roomy sink enc_schedule_result nim_ffi.Cbor.Struct.enc_map nim_ffi.Cbor.Values.◌>>◌
    nim_ffi.Cbor.Struct.enc_field nim_ffi.Cbor.Enc.enc_str nim_ffi.Cbor.Enc.enc_i64
    nim_ffi.Timer.Enc.enc_job_priority
schedule_result-runs room = refl

pub complex_response-runs :
    (room : ℕ)
    → (enc_complex_response ⦃w = roomy⦄ complex_response (roomy.encoder_init room)).0 ≡ no_error
unfolding roomy sink enc_complex_response nim_ffi.Cbor.Struct.enc_map nim_ffi.Cbor.Values.◌>>◌
    nim_ffi.Cbor.Struct.enc_field nim_ffi.Cbor.Enc.enc_str nim_ffi.Cbor.Enc.enc_i64
    nim_ffi.Cbor.Enc.enc_bool
complex_response-runs room = refl

pub echo_response-runs :
    (room : ℕ)
    → (enc_echo_response ⦃w = roomy⦄ echo_response (roomy.encoder_init room)).0 ≡ no_error
unfolding roomy sink enc_echo_response nim_ffi.Cbor.Struct.enc_map nim_ffi.Cbor.Values.◌>>◌
    nim_ffi.Cbor.Struct.enc_field nim_ffi.Cbor.Enc.enc_str
echo_response-runs room = refl

pub echo_event-runs :
    (room : ℕ) → (enc_echo_event ⦃w = roomy⦄ echo_event (roomy.encoder_init room)).0 ≡ no_error
unfolding roomy sink enc_echo_event nim_ffi.Cbor.Struct.enc_map nim_ffi.Cbor.Values.◌>>◌
    nim_ffi.Cbor.Struct.enc_field nim_ffi.Cbor.Enc.enc_str nim_ffi.Cbor.Enc.enc_i64
echo_event-runs room = refl

pub job_event-runs :
    (room : ℕ)
    → (enc_on_job_scheduled_payload ⦃w = roomy⦄ job_event (roomy.encoder_init room)).0 ≡ no_error
unfolding roomy sink enc_on_job_scheduled_payload nim_ffi.Cbor.Struct.enc_map
    nim_ffi.Cbor.Values.◌>>◌ nim_ffi.Cbor.Struct.enc_field nim_ffi.Cbor.Enc.enc_str
    nim_ffi.Cbor.Enc.enc_i64
job_event-runs room = refl
