-- ===== src/Binding.antt =====
-- What the generated bindings have in common: the reply trampolines and the calls, with the
-- request's encoder and the reply's decoder and free function as parameters.
pub mod Reply
pub mod Call
pub mod Once
pub mod Protocol
pub mod Exchange
pub mod Handled
pub mod Create
