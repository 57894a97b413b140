-- ===== src/Local/Counts/Exact.antt =====
-- The counter of the telemetry counts the calls of the model: internal/runtime/local/agent_loop.go.
use temporal_go_agent_sdk.Prelude.{ℕ, Text, ◌≡◌, Result}
use temporal_go_agent_sdk.Tools.Failure.{Failure}
use temporal_go_agent_sdk.Base.Telemetry.{AgentTelemetry}
use temporal_go_agent_sdk.Local.Program.{Program}
use temporal_go_agent_sdk.Local.Loop.{LoopState}
use temporal_go_agent_sdk.Local.Counts.{IfOk}

-- The counter of a state that is reached without an error.
abbrev pub IsCounted : ℕ → Result Failure LoopState → Type 0
IsCounted k = IfOk (λ s. s.telemetry.total_llm_calls ≡ k)

-- The counter that a phase before the loop hands on.
abbrev Started : ℕ → Result Failure (Text × AgentTelemetry) → Type 0
Started k = IfOk (λ p. p.1.total_llm_calls ≡ k)
