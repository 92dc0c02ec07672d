-- ===== src/Llm/Sanitize.antt =====
-- koraku/llm/sanitize.py: `VisibleToolJsonFilter`, which takes tool calls out of streamed text.
pub mod Matchers
pub mod Markers
pub mod Filter
pub mod Shrinks
pub mod Strips
pub mod Ends
pub mod Plain
pub mod Tests
