-- ===== src/Signals.antt =====
-- Signals read from conversations: crates/brightstaff/src/signals.
pub mod Loops
