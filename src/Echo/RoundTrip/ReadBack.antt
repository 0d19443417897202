-- ===== src/Echo/RoundTrip/ReadBack.antt =====
-- Each decoder of the header reads back the item that a struct denotes.
use nim_ffi.Base.{◌≡◌, refl, codes}
use nim_ffi.Tinycbor.{Reader}
use nim_ffi.Tinycbor.Items.{text, map, nil, cons}
use nim_ffi.Tinycbor.Laws.{Reads}
use nim_ffi.Cbor.Emits.{item_str}
use nim_ffi.Cbor.Reading.{Denotes, field-Done, dec_map-Denotes, close-Done}
use nim_ffi.Cbor.Fits.{str-Denotes}
use nim_ffi.Echo.Types.{
  EchoConfig, ShoutRequest, ShoutResponse, EchoCreateCtorReq, EchoShoutReq, EchoVersionReq,
  EchoLibVersionReq, EchoShoutAnonReq, no_echo_config, no_shout_request, no_shout_response,
  no_echo_create_ctor_req, no_echo_shout_req, no_echo_version_req, no_echo_lib_version_req,
  no_echo_shout_anon_req,
}
use nim_ffi.Echo.Dec.{
  dec_echo_config, dec_shout_request, dec_shout_response, dec_echo_create_ctor_req,
  dec_echo_shout_req, dec_echo_version_req, dec_echo_lib_version_req, dec_echo_shout_anon_req,
}
use nim_ffi.Echo.Items.{
  item_echo_config, item_shout_request, item_shout_response, item_echo_create_ctor_req,
  item_echo_shout_req, item_echo_version_req, item_echo_lib_version_req, item_echo_shout_anon_req,
  FitsEchoConfig, FitsShoutRequest, FitsShoutResponse, FitsEchoCreateCtorReq, FitsEchoShoutReq,
  FitsEchoVersionReq, FitsEchoLibVersionReq, FitsEchoShoutAnonReq,
}

module _ {V : Type 0} ⦃c : Reader V⦄ (rs : Reads c) where
  pub dec_echo_config-Denotes :
      (v : EchoConfig)
      → FitsEchoConfig v
      → Denotes rs item_echo_config no_echo_config dec_echo_config (item_echo_config v)
  unfolding dec_echo_config
  dec_echo_config-Denotes v fits =
      dec_map-Denotes rs item_echo_config no_echo_config _ _ λ it h r e full.
        field-Done rs (item_str) _ _ _ _ _ _ _ (item_str v.prefix) _ _ r e refl
          (str-Denotes rs v.prefix fits) full
          λ o0 g0 p0 full.
            close-Done rs (λ o. item_echo_config o ≡ item_echo_config v) it _ g0 _ r e full
              (λ i. map (cons (text (codes "prefix")) (cons (p0 i) nil)))

  pub dec_shout_request-Denotes :
      (v : ShoutRequest)
      → FitsShoutRequest v
      → Denotes rs item_shout_request no_shout_request dec_shout_request (item_shout_request v)
  unfolding dec_shout_request
  dec_shout_request-Denotes v fits =
      dec_map-Denotes rs item_shout_request no_shout_request _ _ λ it h r e full.
        field-Done rs (item_str) _ _ _ _ _ _ _ (item_str v.text) _ _ r e refl
          (str-Denotes rs v.text fits) full
          λ o0 g0 p0 full.
            close-Done rs (λ o. item_shout_request o ≡ item_shout_request v) it _ g0 _ r e full
              (λ i. map (cons (text (codes "text")) (cons (p0 i) nil)))

  pub dec_shout_response-Denotes :
      (v : ShoutResponse)
      → FitsShoutResponse v
      → Denotes rs item_shout_response no_shout_response dec_shout_response (item_shout_response v)
  unfolding dec_shout_response
  dec_shout_response-Denotes v fits =
      dec_map-Denotes rs item_shout_response no_shout_response _ _ λ it h r e full.
        field-Done rs (item_str) _ _ _ _ _ _ _ (item_str v.shouted) _ _ r e refl
          (str-Denotes rs v.shouted fits.0) full
          λ o0 g0 p0 full.
            field-Done rs (item_str) _ _ _ _ _ _ _ (item_str v.prefix) _ _ r e refl
              (str-Denotes rs v.prefix fits.1) full
              λ o1 g1 p1 full.
                close-Done rs (λ o. item_shout_response o ≡ item_shout_response v) it _ g1 _ r e
                  full
                  (λ i. map (
                    cons (text (codes "shouted"))
                      (cons (p0 i) (cons (text (codes "prefix")) (cons (p1 i) nil)))))

  pub dec_echo_create_ctor_req-Denotes :
      (v : EchoCreateCtorReq)
      → FitsEchoCreateCtorReq v
      → Denotes rs item_echo_create_ctor_req no_echo_create_ctor_req dec_echo_create_ctor_req
          (item_echo_create_ctor_req v)
  unfolding dec_echo_create_ctor_req
  dec_echo_create_ctor_req-Denotes v fits =
      dec_map-Denotes rs item_echo_create_ctor_req no_echo_create_ctor_req _ _ λ it h r e full.
        field-Done rs (item_echo_config) _ _ _ _ _ _ _ (item_echo_config v.config) _ _ r e refl
          (dec_echo_config-Denotes v.config fits) full
          λ o0 g0 p0 full.
            close-Done rs (λ o. item_echo_create_ctor_req o ≡ item_echo_create_ctor_req v) it _ g0 _
              r e full (λ i. map (cons (text (codes "config")) (cons (p0 i) nil)))

  pub dec_echo_shout_req-Denotes :
      (v : EchoShoutReq)
      → FitsEchoShoutReq v
      → Denotes rs item_echo_shout_req no_echo_shout_req dec_echo_shout_req (item_echo_shout_req v)
  unfolding dec_echo_shout_req
  dec_echo_shout_req-Denotes v fits =
      dec_map-Denotes rs item_echo_shout_req no_echo_shout_req _ _ λ it h r e full.
        field-Done rs (item_shout_request) _ _ _ _ _ _ _ (item_shout_request v.req) _ _ r e refl
          (dec_shout_request-Denotes v.req fits) full
          λ o0 g0 p0 full.
            close-Done rs (λ o. item_echo_shout_req o ≡ item_echo_shout_req v) it _ g0 _ r e full
              (λ i. map (cons (text (codes "req")) (cons (p0 i) nil)))

  pub dec_echo_version_req-Denotes :
      (v : EchoVersionReq)
      → FitsEchoVersionReq v
      → Denotes rs item_echo_version_req no_echo_version_req dec_echo_version_req
          (item_echo_version_req v)
  unfolding dec_echo_version_req
  dec_echo_version_req-Denotes v fits =
      dec_map-Denotes rs item_echo_version_req no_echo_version_req _ _ λ it h r e full.
        close-Done rs (λ o. item_echo_version_req o ≡ item_echo_version_req v) it _ h _ r e full
          (refl)

  pub dec_echo_lib_version_req-Denotes :
      (v : EchoLibVersionReq)
      → FitsEchoLibVersionReq v
      → Denotes rs item_echo_lib_version_req no_echo_lib_version_req dec_echo_lib_version_req
          (item_echo_lib_version_req v)
  unfolding dec_echo_lib_version_req
  dec_echo_lib_version_req-Denotes v fits =
      dec_map-Denotes rs item_echo_lib_version_req no_echo_lib_version_req _ _ λ it h r e full.
        close-Done rs (λ o. item_echo_lib_version_req o ≡ item_echo_lib_version_req v) it _ h _ r e
          full (refl)

  pub dec_echo_shout_anon_req-Denotes :
      (v : EchoShoutAnonReq)
      → FitsEchoShoutAnonReq v
      → Denotes rs item_echo_shout_anon_req no_echo_shout_anon_req dec_echo_shout_anon_req
          (item_echo_shout_anon_req v)
  unfolding dec_echo_shout_anon_req
  dec_echo_shout_anon_req-Denotes v fits =
      dec_map-Denotes rs item_echo_shout_anon_req no_echo_shout_anon_req _ _ λ it h r e full.
        field-Done rs (item_shout_request) _ _ _ _ _ _ _ (item_shout_request v.req) _ _ r e refl
          (dec_shout_request-Denotes v.req fits) full
          λ o0 g0 p0 full.
            close-Done rs (λ o. item_echo_shout_anon_req o ≡ item_echo_shout_anon_req v) it _ g0 _ r
              e full (λ i. map (cons (text (codes "req")) (cons (p0 i) nil)))
