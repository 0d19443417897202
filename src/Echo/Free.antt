-- ===== src/Echo/Free.antt =====
-- The free functions of the header, for the structs that own memory.
use nim_ffi.Heap.{Heap}
use nim_ffi.Cbor.Values.{free_str}
use nim_ffi.Echo.Types.{
  EchoConfig, ShoutRequest, ShoutResponse, EchoCreateCtorReq, EchoShoutReq, EchoShoutAnonReq,
}

unfoldable pub free_echo_config : EchoConfig → Heap → EchoConfig × Heap
free_echo_config v h =
    let (prefix', h1) = free_str v.prefix h in (record v { prefix = prefix' }, h1)

unfoldable pub free_shout_request : ShoutRequest → Heap → ShoutRequest × Heap
free_shout_request v h = let (text', h1) = free_str v.text h in (record v { text = text' }, h1)

unfoldable pub free_shout_response : ShoutResponse → Heap → ShoutResponse × Heap
free_shout_response v h =
    let (shouted', h1) = free_str v.shouted h in
    let (prefix', h2) = free_str v.prefix h1 in
    (record v { shouted = shouted'; prefix = prefix' }, h2)

unfoldable pub free_echo_create_ctor_req : EchoCreateCtorReq → Heap → EchoCreateCtorReq × Heap
free_echo_create_ctor_req v h =
    let (config', h1) = free_echo_config v.config h in (record v { config = config' }, h1)

unfoldable pub free_echo_shout_req : EchoShoutReq → Heap → EchoShoutReq × Heap
free_echo_shout_req v h =
    let (req', h1) = free_shout_request v.req h in (record v { req = req' }, h1)

unfoldable pub free_echo_shout_anon_req : EchoShoutAnonReq → Heap → EchoShoutAnonReq × Heap
free_echo_shout_anon_req v h =
    let (req', h1) = free_shout_request v.req h in (record v { req = req' }, h1)
