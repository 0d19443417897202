-- ===== src/Echo/RoundTrip/Emitted.antt =====
-- Each encoder of the header writes the item that its struct denotes.
use nim_ffi.Tinycbor.{Writer}
use nim_ffi.Tinycbor.Laws.{Writes}
use nim_ffi.Cbor.Emits.{
  one, item_str, Emits, then-Emits, enc_str-Emits, enc_field-Emits, enc_map-Emits, empty_map-Emits,
}
use nim_ffi.Echo.Types.{
  EchoConfig, ShoutRequest, ShoutResponse, EchoCreateCtorReq, EchoShoutReq, EchoVersionReq,
  EchoLibVersionReq, EchoShoutAnonReq,
}
use nim_ffi.Echo.Enc.{
  enc_echo_config, enc_shout_request, enc_shout_response, enc_echo_create_ctor_req,
  enc_echo_shout_req, enc_echo_version_req, enc_echo_lib_version_req, enc_echo_shout_anon_req,
}
use nim_ffi.Echo.Items.{
  item_echo_config, item_shout_request, item_shout_response, item_echo_create_ctor_req,
  item_echo_shout_req, item_echo_version_req, item_echo_lib_version_req, item_echo_shout_anon_req,
}

module _ {E : Type 0} ⦃w : Writer E⦄ (ws : Writes w) where
  pub enc_echo_config-Emits :
      (v : EchoConfig) → Emits ws (one (item_echo_config v)) (enc_echo_config v)
  unfolding enc_echo_config
  enc_echo_config-Emits v =
      enc_map-Emits ws 1 _ _
        (enc_field-Emits ws "prefix" (item_str v.prefix) _ (enc_str-Emits ws v.prefix))

  pub enc_shout_request-Emits :
      (v : ShoutRequest) → Emits ws (one (item_shout_request v)) (enc_shout_request v)
  unfolding enc_shout_request
  enc_shout_request-Emits v =
      enc_map-Emits ws 1 _ _
        (enc_field-Emits ws "text" (item_str v.text) _ (enc_str-Emits ws v.text))

  pub enc_shout_response-Emits :
      (v : ShoutResponse) → Emits ws (one (item_shout_response v)) (enc_shout_response v)
  unfolding enc_shout_response
  enc_shout_response-Emits v = enc_map-Emits ws 2 _ _ (
      then-Emits ws _ _ _ _
        (enc_field-Emits ws "shouted" (item_str v.shouted) _ (enc_str-Emits ws v.shouted))
        (enc_field-Emits ws "prefix" (item_str v.prefix) _ (enc_str-Emits ws v.prefix)))

  pub enc_echo_create_ctor_req-Emits :
      (v : EchoCreateCtorReq)
      → Emits ws (one (item_echo_create_ctor_req v)) (enc_echo_create_ctor_req v)
  unfolding enc_echo_create_ctor_req
  enc_echo_create_ctor_req-Emits v =
      enc_map-Emits ws 1 _ _
        (enc_field-Emits ws "config" (item_echo_config v.config) _ (enc_echo_config-Emits v.config))

  pub enc_echo_shout_req-Emits :
      (v : EchoShoutReq) → Emits ws (one (item_echo_shout_req v)) (enc_echo_shout_req v)
  unfolding enc_echo_shout_req
  enc_echo_shout_req-Emits v =
      enc_map-Emits ws 1 _ _
        (enc_field-Emits ws "req" (item_shout_request v.req) _ (enc_shout_request-Emits v.req))

  pub enc_echo_version_req-Emits :
      (v : EchoVersionReq) → Emits ws (one (item_echo_version_req v)) (enc_echo_version_req v)
  unfolding enc_echo_version_req
  enc_echo_version_req-Emits v = empty_map-Emits ws 0

  pub enc_echo_lib_version_req-Emits :
      (v : EchoLibVersionReq)
      → Emits ws (one (item_echo_lib_version_req v)) (enc_echo_lib_version_req v)
  unfolding enc_echo_lib_version_req
  enc_echo_lib_version_req-Emits v = empty_map-Emits ws 0

  pub enc_echo_shout_anon_req-Emits :
      (v : EchoShoutAnonReq)
      → Emits ws (one (item_echo_shout_anon_req v)) (enc_echo_shout_anon_req v)
  unfolding enc_echo_shout_anon_req
  enc_echo_shout_anon_req-Emits v =
      enc_map-Emits ws 1 _ _
        (enc_field-Emits ws "req" (item_shout_request v.req) _ (enc_shout_request-Emits v.req))
