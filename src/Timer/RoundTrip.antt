-- ===== src/Timer/RoundTrip.antt =====
-- The codecs of the header against each other.
pub mod Emitted
pub mod ReadBack
pub mod Requests
pub mod Trips
