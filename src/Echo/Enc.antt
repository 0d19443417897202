-- ===== src/Echo/Enc.antt =====
-- The encoders of the header.
use nim_ffi.Tinycbor.{no_error, Writer}
use nim_ffi.Cbor.Values.{Encoder, ◌>>◌}
use nim_ffi.Cbor.Enc.{enc_str}
use nim_ffi.Cbor.Struct.{enc_map, enc_field}
use nim_ffi.Echo.Types.{
  EchoConfig, ShoutRequest, ShoutResponse, EchoCreateCtorReq, EchoShoutReq, EchoVersionReq,
  EchoLibVersionReq, EchoShoutAnonReq,
}

module _ {E : Type 0} ⦃w : Writer E⦄ where
  unfoldable pub enc_echo_config : EchoConfig → Encoder E
  enc_echo_config v = enc_map 1 (enc_field "prefix" (enc_str v.prefix))

  unfoldable pub enc_shout_request : ShoutRequest → Encoder E
  enc_shout_request v = enc_map 1 (enc_field "text" (enc_str v.text))

  unfoldable pub enc_shout_response : ShoutResponse → Encoder E
  enc_shout_response v =
      enc_map 2 (enc_field "shouted" (enc_str v.shouted) >> enc_field "prefix" (enc_str v.prefix))

  unfoldable pub enc_echo_create_ctor_req : EchoCreateCtorReq → Encoder E
  enc_echo_create_ctor_req v = enc_map 1 (enc_field "config" (enc_echo_config v.config))

  unfoldable pub enc_echo_shout_req : EchoShoutReq → Encoder E
  enc_echo_shout_req v = enc_map 1 (enc_field "req" (enc_shout_request v.req))

  unfoldable pub enc_echo_version_req : EchoVersionReq → Encoder E
  enc_echo_version_req v = enc_map 0 (λ m. (no_error, m))

  unfoldable pub enc_echo_lib_version_req : EchoLibVersionReq → Encoder E
  enc_echo_lib_version_req v = enc_map 0 (λ m. (no_error, m))

  unfoldable pub enc_echo_shout_anon_req : EchoShoutAnonReq → Encoder E
  enc_echo_shout_anon_req v = enc_map 1 (enc_field "req" (enc_shout_request v.req))
