-- ===== src/Config.antt =====
-- src/config.c: the parser of the configuration.
pub mod Keys
pub mod Values
pub mod ReadBack
pub mod Pair
pub mod Json
pub mod Stops
pub mod Stale
pub mod RateReadBack
