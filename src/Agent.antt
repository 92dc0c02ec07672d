-- ===== src/Agent.antt =====
-- koraku/agent: the ReAct loop, the tools that it runs and the context that it sends.
pub mod Message
pub mod Permissions
pub mod Pairing
pub mod ContextManager
pub mod ToolExecutor
pub mod Budget
pub mod WorkingMemory
pub mod React
pub mod UserMessage
pub mod Interactions
