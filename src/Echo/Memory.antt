-- ===== src/Echo/Memory.antt =====
-- What each struct owns: its decoder allocates exactly that, and its free function frees it.
pub mod Owned
pub mod Decoded
pub mod Freed
