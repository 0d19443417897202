-- ===== src/Echo/Memory/Freed.antt =====
-- Each free function of the header gives back exactly what the struct owns.
use nim_ffi.Heap.Laws.{frees-both}
use nim_ffi.Cbor.Release.{Frees, free_str-Frees}
use nim_ffi.Echo.Free.{
  free_echo_config, free_shout_request, free_shout_response, free_echo_create_ctor_req,
  free_echo_shout_req, free_echo_shout_anon_req,
}
use nim_ffi.Echo.Memory.Owned.{
  owned_echo_config, owned_shout_request, owned_shout_response, owned_echo_create_ctor_req,
  owned_echo_shout_req, owned_echo_shout_anon_req,
}

pub free_echo_config-Frees : Frees owned_echo_config free_echo_config
unfolding free_echo_config
free_echo_config-Frees v h = free_str-Frees v.prefix _

pub free_shout_request-Frees : Frees owned_shout_request free_shout_request
unfolding free_shout_request
free_shout_request-Frees v h = free_str-Frees v.text _

pub free_shout_response-Frees : Frees owned_shout_response free_shout_response
unfolding free_shout_response
free_shout_response-Frees v h = frees-both (free_str-Frees v.shouted _) (free_str-Frees v.prefix _)

pub free_echo_create_ctor_req-Frees : Frees owned_echo_create_ctor_req free_echo_create_ctor_req
unfolding free_echo_create_ctor_req
free_echo_create_ctor_req-Frees v h = free_echo_config-Frees v.config _

pub free_echo_shout_req-Frees : Frees owned_echo_shout_req free_echo_shout_req
unfolding free_echo_shout_req
free_echo_shout_req-Frees v h = free_shout_request-Frees v.req _

pub free_echo_shout_anon_req-Frees : Frees owned_echo_shout_anon_req free_echo_shout_anon_req
unfolding free_echo_shout_anon_req
free_echo_shout_anon_req-Frees v h = free_shout_request-Frees v.req _
