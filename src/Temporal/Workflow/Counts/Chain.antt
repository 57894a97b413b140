-- ===== src/Temporal/Workflow/Counts/Chain.antt =====
-- The counts of calls of the model in the runs and chains of AgentWorkflow of
-- internal/runtime/temporal/agent_workflow.go.
use temporal_go_agent_sdk.Prelude.{ℕ, Option, none, some, ◌≡◌, Result, ok, err}
use temporal_go_agent_sdk.Effects.Yields.{Yields}
use temporal_go_agent_sdk.Tools.Failure.{Failure}
use temporal_go_agent_sdk.Base.Telemetry.{complete, AgentTelemetry}
use temporal_go_agent_sdk.Local.Counts.{IsWithin}
use temporal_go_agent_sdk.Temporal.Types.{AgentRunResult, Workflow}
use temporal_go_agent_sdk.Temporal.Workflow.Run.{RunEnd, finished, continue_as_new}
use temporal_go_agent_sdk.Temporal.Workflow.Counts.{IsCounted}

-- A telemetry of so many calls, not finished.
abbrev IsAt : ℕ → AgentTelemetry → Type 0
IsAt k t = (t.finish_reason ≡ complete) × (t.total_llm_calls ≡ k)

abbrev pub RunCounted : ℕ → RunEnd → Type 0
RunCounted n (finished r) = IsWithin n r.telemetry
RunCounted n (continue_as_new next) = IsCounted n next.state

-- The counts of the result, if there is one.
abbrev pub ChainCounted : ℕ → Option (Result Failure AgentRunResult) → Type 0
ChainCounted n none = Unit {0}
ChainCounted n (some (ok r)) = IsWithin n r.telemetry
ChainCounted n (some (err f)) = Unit {0}
