-- ===== src/Providers.antt =====
-- Providers, the APIs that they serve and the endpoints of these: crates/hermesllm.
pub mod Id
pub mod Api
pub mod Compatible
pub mod Endpoint
