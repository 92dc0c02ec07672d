-- ===== src/Llm/Canonical.antt =====
-- koraku/llm/canonical.py: the conversation and the tools in the words of the two wire formats.
pub mod Tools
pub mod Messages
pub mod Request
pub mod Protocol
pub mod Answered
pub mod RoundTrip
pub mod Tests
