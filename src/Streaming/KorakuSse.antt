-- ===== src/Streaming/KorakuSse.antt =====
-- koraku/streaming/koraku_sse.py: the events of a run as server-sent events.
pub mod Payloads
pub mod State
pub mod ToolEvents
pub mod StreamEvents
pub mod MapEvents
pub mod Shown
pub mod Clean
pub mod Hidden
pub mod Lifecycle
pub mod Suppressed
pub mod Tests
