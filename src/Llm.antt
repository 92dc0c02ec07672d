-- ===== src/Llm.antt =====
-- koraku/llm: the requests to a model, and the assembly of its streamed answer.
pub mod Canonical
pub mod ToolDeltas
pub mod Sanitize
