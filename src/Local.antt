-- ===== src/Local.antt =====
-- The in-process agent loop: internal/runtime/local/agent_loop.go.
pub mod Types
pub mod Program
pub mod Delegation
pub mod SingleTool
pub mod Batch
pub mod Loop
pub mod Examples
pub mod Counts
pub mod Safety
