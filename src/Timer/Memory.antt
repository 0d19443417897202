-- ===== src/Timer/Memory.antt =====
-- What each struct owns, and that its decoder allocates exactly that.
pub mod Owned
pub mod Decoded
pub mod Freed
pub mod Balance
