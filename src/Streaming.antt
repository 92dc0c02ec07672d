-- ===== src/Streaming.antt =====
-- koraku/streaming: what the browser is sent.
pub mod KorakuSse
