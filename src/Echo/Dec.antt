-- ===== src/Echo/Dec.antt =====
-- The decoders of the header.
use nim_ffi.Tinycbor.{Reader}
use nim_ffi.Cbor.Values.{Decoder, ◌>>◌}
use nim_ffi.Cbor.Dec.{advance_it, dec_str}
use nim_ffi.Cbor.Struct.{dec_map, dec_field}
use nim_ffi.Echo.Types.{
  EchoConfig, ShoutRequest, ShoutResponse, EchoCreateCtorReq, EchoShoutReq, EchoVersionReq,
  EchoLibVersionReq, EchoShoutAnonReq,
}

module _ {V : Type 0} ⦃c : Reader V⦄ where
  unfoldable pub dec_echo_config : Decoder V EchoConfig
  dec_echo_config =
      dec_map
        (dec_field "prefix" (λ v. v.prefix) (λ v x. record v { prefix = x }) dec_str >> advance_it)

  unfoldable pub dec_shout_request : Decoder V ShoutRequest
  dec_shout_request =
      dec_map (dec_field "text" (λ v. v.text) (λ v x. record v { text = x }) dec_str >> advance_it)

  unfoldable pub dec_shout_response : Decoder V ShoutResponse
  dec_shout_response = dec_map (
      dec_field "shouted" (λ v. v.shouted) (λ v x. record v { shouted = x }) dec_str
      >> dec_field "prefix" (λ v. v.prefix) (λ v x. record v { prefix = x }) dec_str
      >> advance_it)

  unfoldable pub dec_echo_create_ctor_req : Decoder V EchoCreateCtorReq
  dec_echo_create_ctor_req = dec_map (
      dec_field "config" (λ v. v.config) (λ v x. record v { config = x }) dec_echo_config
      >> advance_it)

  unfoldable pub dec_echo_shout_req : Decoder V EchoShoutReq
  dec_echo_shout_req =
      dec_map
        (dec_field "req" (λ v. v.req) (λ v x. record v { req = x }) dec_shout_request >> advance_it)

  unfoldable pub dec_echo_version_req : Decoder V EchoVersionReq
  dec_echo_version_req = dec_map (advance_it)

  unfoldable pub dec_echo_lib_version_req : Decoder V EchoLibVersionReq
  dec_echo_lib_version_req = dec_map (advance_it)

  unfoldable pub dec_echo_shout_anon_req : Decoder V EchoShoutAnonReq
  dec_echo_shout_anon_req =
      dec_map
        (dec_field "req" (λ v. v.req) (λ v x. record v { req = x }) dec_shout_request >> advance_it)
