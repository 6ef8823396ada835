-- ===== src/Router.antt =====
-- The choice of a model: crates/brightstaff/src/router.
pub mod Trim
pub mod Conversation
pub mod Ranking
