-- ===== src/Exit.antt =====
-- The exit domain (src/exit).
pub mod Trailing
pub mod Zones
pub mod Updaters
pub mod Close
