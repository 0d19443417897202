-- ===== src/Cbor.antt =====
-- nim_ffi_cbor.h and nim_ffi_prelude.h: the codecs of the leaf types and the buffer drivers that
-- every generated C binding calls.
pub mod Values
pub mod Enc
pub mod Dec
pub mod Struct
pub mod Buf
pub mod Memory
pub mod Release
pub mod Encoding
pub mod Emits
pub mod Reading
pub mod Fits
pub mod Decoding
pub mod Written
pub mod Trip
pub mod Balance
pub mod Narrow
