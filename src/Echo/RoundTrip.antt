-- ===== src/Echo/RoundTrip.antt =====
-- The codecs of the header against each other.
pub mod Emitted
pub mod ReadBack
pub mod Trips
