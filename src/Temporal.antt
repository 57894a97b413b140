-- ===== src/Temporal.antt =====
-- The agent loop as a Temporal workflow: internal/runtime/temporal/agent_workflow.go and subagent.go.
pub mod Types
pub mod Events
pub mod ToolCall
pub mod Batch
pub mod Workflow
pub mod Examples
pub mod Safety
