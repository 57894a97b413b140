-- ===== src/Base.antt =====
-- Accounting of internal/runtime/base and internal/types: the token budget and the telemetry of a run.
pub mod Budget
pub mod Telemetry
pub mod Approvals
pub mod Request
pub mod Retriever
pub mod Execution
pub mod Retrieval
pub mod Generate
