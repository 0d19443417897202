-- ===== src/Timer.antt =====
-- examples/timer/c_bindings/my_timer.h, the C binding that the generator writes for the timer
-- library. Names lose the prefix `my_timer_`. A pointer to a struct is never null here.
pub mod Types
pub mod Enc
pub mod Dec
pub mod Free
pub mod Memory
pub mod Call
pub mod Items
pub mod RoundTrip
pub mod Tests
pub mod Events
pub mod Context
pub mod Create
