-- ===== src/Echo/Memory/Owned.antt =====
-- What each struct of the header owns.
use nim_ffi.Base.{◌+◌}
use nim_ffi.Heap.Laws.{Owned}
use nim_ffi.Cbor.Values.{owned_str}
use nim_ffi.Echo.Types.{
  EchoConfig, ShoutRequest, ShoutResponse, EchoCreateCtorReq, EchoShoutReq, EchoVersionReq,
  EchoLibVersionReq, EchoShoutAnonReq,
}

abbrev pub owned_echo_config : EchoConfig → Owned
owned_echo_config v a = owned_str v.prefix a

abbrev pub owned_shout_request : ShoutRequest → Owned
owned_shout_request v a = owned_str v.text a

abbrev pub owned_shout_response : ShoutResponse → Owned
owned_shout_response v a = owned_str v.shouted a + owned_str v.prefix a

abbrev pub owned_echo_create_ctor_req : EchoCreateCtorReq → Owned
owned_echo_create_ctor_req v a = owned_echo_config v.config a

abbrev pub owned_echo_shout_req : EchoShoutReq → Owned
owned_echo_shout_req v a = owned_shout_request v.req a

abbrev pub owned_echo_version_req : EchoVersionReq → Owned
owned_echo_version_req v a = 0

abbrev pub owned_echo_lib_version_req : EchoLibVersionReq → Owned
owned_echo_lib_version_req v a = 0

abbrev pub owned_echo_shout_anon_req : EchoShoutAnonReq → Owned
owned_echo_shout_anon_req v a = owned_shout_request v.req a
