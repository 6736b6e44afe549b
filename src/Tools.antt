-- ===== src/Tools.antt =====
-- src/mini_agent/core/tool_system.py: tool definitions, the registry snapshot, the decision of the
-- gate and the life of a tool call.
pub mod Spec
pub mod Registry
pub mod Gate
pub mod Call
pub mod Commands
