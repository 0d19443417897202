-- ===== src/Echo/Memory/Decoded.antt =====
-- Each decoder of the header, from a zeroed struct, allocates exactly what the struct then owns.
use nim_ffi.Base.{refl, arith}
use nim_ffi.Tinycbor.{Reader}
use nim_ffi.Cbor.Values.{owned_str}
use nim_ffi.Cbor.Memory.{Sound, dec_str-Sound, dec_map-Sound, field-Ends, close-Ends}
use nim_ffi.Echo.Types.{
  no_echo_config, no_shout_request, no_shout_response, no_echo_create_ctor_req, no_echo_shout_req,
  no_echo_version_req, no_echo_lib_version_req, no_echo_shout_anon_req,
}
use nim_ffi.Echo.Dec.{
  dec_echo_config, dec_shout_request, dec_shout_response, dec_echo_create_ctor_req,
  dec_echo_shout_req, dec_echo_version_req, dec_echo_lib_version_req, dec_echo_shout_anon_req,
}
use nim_ffi.Echo.Memory.Owned.{
  owned_echo_config, owned_shout_request, owned_shout_response, owned_echo_create_ctor_req,
  owned_echo_shout_req, owned_echo_version_req, owned_echo_lib_version_req,
  owned_echo_shout_anon_req,
}

module _ {V : Type 0} ⦃c : Reader V⦄ where
  pub dec_echo_config-Sound : Sound owned_echo_config no_echo_config (dec_echo_config {V = V})
  unfolding dec_echo_config
  dec_echo_config-Sound =
      dec_map-Sound owned_echo_config no_echo_config _ (λ a. refl)
        λ it h e.
          field-Ends (owned_str) owned_echo_config h _ _ _ _ _ _ dec_str-Sound e
            (λ x a. omega arith) λ x0 g0 e. close-Ends owned_echo_config h _ e

  pub dec_shout_request-Sound :
      Sound owned_shout_request no_shout_request (dec_shout_request {V = V})
  unfolding dec_shout_request
  dec_shout_request-Sound =
      dec_map-Sound owned_shout_request no_shout_request _ (λ a. refl)
        λ it h e.
          field-Ends (owned_str) owned_shout_request h _ _ _ _ _ _ dec_str-Sound e
            (λ x a. omega arith) λ x0 g0 e. close-Ends owned_shout_request h _ e

  pub dec_shout_response-Sound :
      Sound owned_shout_response no_shout_response (dec_shout_response {V = V})
  unfolding dec_shout_response
  dec_shout_response-Sound =
      dec_map-Sound owned_shout_response no_shout_response _ (λ a. refl)
        λ it h e.
          field-Ends (owned_str) owned_shout_response h _ _ _ _ _ _ dec_str-Sound e
            (λ x a. omega arith)
            λ x0 g0 e.
              field-Ends (owned_str) owned_shout_response h _ _ _ _ _ _ dec_str-Sound e
                (λ x a. omega arith) λ x1 g1 e. close-Ends owned_shout_response h _ e

  pub dec_echo_create_ctor_req-Sound :
      Sound owned_echo_create_ctor_req no_echo_create_ctor_req (dec_echo_create_ctor_req {V = V})
  unfolding dec_echo_create_ctor_req
  dec_echo_create_ctor_req-Sound =
      dec_map-Sound owned_echo_create_ctor_req no_echo_create_ctor_req _ (λ a. refl)
        λ it h e.
          field-Ends (owned_echo_config) owned_echo_create_ctor_req h _ _ _ _ _ _
            dec_echo_config-Sound e (λ x a. omega arith)
            λ x0 g0 e. close-Ends owned_echo_create_ctor_req h _ e

  pub dec_echo_shout_req-Sound :
      Sound owned_echo_shout_req no_echo_shout_req (dec_echo_shout_req {V = V})
  unfolding dec_echo_shout_req
  dec_echo_shout_req-Sound =
      dec_map-Sound owned_echo_shout_req no_echo_shout_req _ (λ a. refl)
        λ it h e.
          field-Ends (owned_shout_request) owned_echo_shout_req h _ _ _ _ _ _
            dec_shout_request-Sound e (λ x a. omega arith)
            λ x0 g0 e. close-Ends owned_echo_shout_req h _ e

  pub dec_echo_version_req-Sound :
      Sound owned_echo_version_req no_echo_version_req (dec_echo_version_req {V = V})
  unfolding dec_echo_version_req
  dec_echo_version_req-Sound =
      dec_map-Sound owned_echo_version_req no_echo_version_req _ (λ a. refl)
        λ it h e. close-Ends owned_echo_version_req h _ e

  pub dec_echo_lib_version_req-Sound :
      Sound owned_echo_lib_version_req no_echo_lib_version_req (dec_echo_lib_version_req {V = V})
  unfolding dec_echo_lib_version_req
  dec_echo_lib_version_req-Sound =
      dec_map-Sound owned_echo_lib_version_req no_echo_lib_version_req _ (λ a. refl)
        λ it h e. close-Ends owned_echo_lib_version_req h _ e

  pub dec_echo_shout_anon_req-Sound :
      Sound owned_echo_shout_anon_req no_echo_shout_anon_req (dec_echo_shout_anon_req {V = V})
  unfolding dec_echo_shout_anon_req
  dec_echo_shout_anon_req-Sound =
      dec_map-Sound owned_echo_shout_anon_req no_echo_shout_anon_req _ (λ a. refl)
        λ it h e.
          field-Ends (owned_shout_request) owned_echo_shout_anon_req h _ _ _ _ _ _
            dec_shout_request-Sound e (λ x a. omega arith)
            λ x0 g0 e. close-Ends owned_echo_shout_anon_req h _ e
