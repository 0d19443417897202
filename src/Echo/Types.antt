-- ===== src/Echo/Types.antt =====
-- The structs of the header, and the zeroed value of each.
use nim_ffi.Base.{ℕ}
use nim_ffi.Cbor.Values.{CStr, null}

pub record EchoConfig : Type 0 where
  pub prefix : CStr

abbrev pub no_echo_config : EchoConfig
no_echo_config = record { prefix = null }

pub record ShoutRequest : Type 0 where
  pub text : CStr

abbrev pub no_shout_request : ShoutRequest
no_shout_request = record { text = null }

pub record ShoutResponse : Type 0 where
  pub shouted : CStr
  pub prefix : CStr

abbrev pub no_shout_response : ShoutResponse
no_shout_response = record { shouted = null; prefix = null }

pub record EchoCreateCtorReq : Type 0 where
  pub config : EchoConfig

abbrev pub no_echo_create_ctor_req : EchoCreateCtorReq
no_echo_create_ctor_req = record { config = no_echo_config }

pub record EchoShoutReq : Type 0 where
  pub req : ShoutRequest

abbrev pub no_echo_shout_req : EchoShoutReq
no_echo_shout_req = record { req = no_shout_request }

-- C forbids empty structs; the placeholder byte is never read.
pub record EchoVersionReq : Type 0 where
  pub nimffi_empty : ℕ

abbrev pub no_echo_version_req : EchoVersionReq
no_echo_version_req = record { nimffi_empty = 0 }

-- C forbids empty structs; the placeholder byte is never read.
pub record EchoLibVersionReq : Type 0 where
  pub nimffi_empty : ℕ

abbrev pub no_echo_lib_version_req : EchoLibVersionReq
no_echo_lib_version_req = record { nimffi_empty = 0 }

pub record EchoShoutAnonReq : Type 0 where
  pub req : ShoutRequest

abbrev pub no_echo_shout_anon_req : EchoShoutAnonReq
no_echo_shout_anon_req = record { req = no_shout_request }
