-- ===== src/Temporal/Workflow/Tests.antt =====
-- The workflow of internal/runtime/temporal/agent_workflow.go on concrete input.
use temporal_go_agent_sdk.Prelude.{arith}
use temporal_go_agent_sdk.Effects.Yields.{Yields}
use temporal_go_agent_sdk.Temporal.Workflow.Run.{start_state}
use temporal_go_agent_sdk.Temporal.Workflow.Chain.{HasEnded, run_chain, run_chain-ends}
use temporal_go_agent_sdk.Temporal.Examples.{worker, first_input}

run_chain-ends_example : Yields HasEnded (run_chain 3 worker first_input)
unfolding start_state
run_chain-ends_example = run_chain-ends worker 3 first_input (omega arith)
