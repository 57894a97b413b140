-- ===== src/Tools.antt =====
-- How a tool's outcome reaches the model: internal/runtime/base/tool_envelope.go, tool_error.go,
-- tool_truncation.go and tool_executor.go.
pub mod Envelope
pub mod Failure
pub mod Truncation
pub mod Results
