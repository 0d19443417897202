-- ===== src/Echo.antt =====
-- examples/echo/c_bindings/echo.h, the C binding that the generator writes for the echo library.
-- Names lose the prefix `echo_` where the timer's binding has no such name. A pointer to a struct is
-- never null here.
pub mod Types
pub mod Enc
pub mod Dec
pub mod Free
pub mod Items
pub mod Memory
pub mod RoundTrip
pub mod Calls
pub mod Context
pub mod Tests
