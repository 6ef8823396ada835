-- ===== src/Streaming.antt =====
-- Streamed responses: crates/hermesllm/src/apis/streaming_shapes and
-- crates/hermesllm/src/transforms/response_streaming.
pub mod ResponsesApi
pub mod Sse
pub mod Chat
pub mod Converse
pub mod Transforms
pub mod Anthropic
pub mod Responses
pub mod Lines
pub mod Provider
pub mod Processor
pub mod Buffers
