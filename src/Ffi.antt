-- ===== src/Ffi.antt =====
-- The Nim runtime, ffi/: what runs between the host's call and the handler.
pub mod Queue
pub mod Request
pub mod Token
pub mod Pool
mod Tests
