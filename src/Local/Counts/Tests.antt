-- ===== src/Local/Counts/Tests.antt =====
-- A run of internal/runtime/local/agent_loop.go on a concrete agent.
use temporal_go_agent_sdk.Prelude.{[], positive_or}
use temporal_go_agent_sdk.Local.Loop.Run.{run_agent_loop, delegates_of}
use temporal_go_agent_sdk.Local.Examples.{lead, lead_input, helper_routes}
use temporal_go_agent_sdk.Local.Counts.{Returns, IfOk, IsWithin}
use temporal_go_agent_sdk.Local.Counts.Run.{run_agent_loop-IsWithin}

run_agent_loop-IsWithin_example :
    Returns
      (IfOk (λ r. IsWithin (positive_or lead.max_iterations 10) r.telemetry))
      []
      (run_agent_loop lead (delegates_of helper_routes) lead_input)
run_agent_loop-IsWithin_example =
    run_agent_loop-IsWithin lead (delegates_of helper_routes) lead_input
