-- ===== src/Echo/Items.antt =====
-- The item that each struct of the header denotes, and the structs that the binding carries whole.
use nim_ffi.Base.{codes}
use nim_ffi.Tinycbor.Items.{Item, text, map, nil, cons}
use nim_ffi.Cbor.Emits.{item_str}
use nim_ffi.Cbor.Fits.{FitsStr}
use nim_ffi.Echo.Types.{
  EchoConfig, ShoutRequest, ShoutResponse, EchoCreateCtorReq, EchoShoutReq, EchoVersionReq,
  EchoLibVersionReq, EchoShoutAnonReq,
}

abbrev pub item_echo_config : EchoConfig → Item
item_echo_config v = map (cons (text (codes "prefix")) (cons (item_str v.prefix) nil))

abbrev pub FitsEchoConfig : EchoConfig → Type 0
FitsEchoConfig v = FitsStr v.prefix

abbrev pub item_shout_request : ShoutRequest → Item
item_shout_request v = map (cons (text (codes "text")) (cons (item_str v.text) nil))

abbrev pub FitsShoutRequest : ShoutRequest → Type 0
FitsShoutRequest v = FitsStr v.text

abbrev pub item_shout_response : ShoutResponse → Item
item_shout_response v = map (
    cons (text (codes "shouted"))
      (cons (item_str v.shouted) (cons (text (codes "prefix")) (cons (item_str v.prefix) nil))))

abbrev pub FitsShoutResponse : ShoutResponse → Type 0
FitsShoutResponse v = FitsStr v.shouted × FitsStr v.prefix

abbrev pub item_echo_create_ctor_req : EchoCreateCtorReq → Item
item_echo_create_ctor_req v =
    map (cons (text (codes "config")) (cons (item_echo_config v.config) nil))

abbrev pub FitsEchoCreateCtorReq : EchoCreateCtorReq → Type 0
FitsEchoCreateCtorReq v = FitsEchoConfig v.config

abbrev pub item_echo_shout_req : EchoShoutReq → Item
item_echo_shout_req v = map (cons (text (codes "req")) (cons (item_shout_request v.req) nil))

abbrev pub FitsEchoShoutReq : EchoShoutReq → Type 0
FitsEchoShoutReq v = FitsShoutRequest v.req

abbrev pub item_echo_version_req : EchoVersionReq → Item
item_echo_version_req v = map (nil)

abbrev pub FitsEchoVersionReq : EchoVersionReq → Type 0
FitsEchoVersionReq v = Unit {0}

abbrev pub item_echo_lib_version_req : EchoLibVersionReq → Item
item_echo_lib_version_req v = map (nil)

abbrev pub FitsEchoLibVersionReq : EchoLibVersionReq → Type 0
FitsEchoLibVersionReq v = Unit {0}

abbrev pub item_echo_shout_anon_req : EchoShoutAnonReq → Item
item_echo_shout_anon_req v = map (cons (text (codes "req")) (cons (item_shout_request v.req) nil))

abbrev pub FitsEchoShoutAnonReq : EchoShoutAnonReq → Type 0
FitsEchoShoutAnonReq v = FitsShoutRequest v.req
