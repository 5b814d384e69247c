-- ===== src/Risk.antt =====
-- The risk package: sizing, pre-trade gates, the stop stack and the killswitch.
pub mod Stops
pub mod Killswitch
pub mod Gates
pub mod Kelly
