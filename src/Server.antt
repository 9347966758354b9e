-- ===== src/Server.antt =====
-- crates/xrouter-server: the translation of streams, the resolution of models, the failover loop.
pub mod Sse
pub mod OpenaiStream
pub mod AnthropicStream
pub mod Stream
pub mod Resolve
pub mod Track
pub mod Images
pub mod Requests
pub mod ResponsesStream
pub mod Replies
pub mod Failover
pub mod Metrics
pub mod Responses
pub mod Admin
