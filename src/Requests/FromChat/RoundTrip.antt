-- ===== src/Requests/FromChat/RoundTrip.antt =====
-- A request of the Messages API through chat completions and back.
pub mod Images
pub mod Messages
pub mod Options
pub mod Whole
