-- ===== src/Local/Safety/Tests.antt =====
-- The promises of internal/runtime/local/agent_loop.go for a concrete agent.
use temporal_go_agent_sdk.Prelude.{List, none, false, [], ◌∷◌, codes, inl, refl, ok}
use temporal_go_agent_sdk.Local.Types.{ToolExecutionMode, llm, ExecuteLlmInput, LlmResult}
use temporal_go_agent_sdk.Local.Program.Logic.{Event, Allowed}
use temporal_go_agent_sdk.Local.Loop.Run.{run_agent_loop, delegates_of, execute_tools, no_routes}
use temporal_go_agent_sdk.Local.Examples.{lead, lead_input, helper_routes, search_call}
use temporal_go_agent_sdk.Local.Safety.{Rely, Sound}
use temporal_go_agent_sdk.Local.Safety.Frame.{Anything}
use temporal_go_agent_sdk.Local.Safety.Batch.{execute_tools-Sound, Settles}
use temporal_go_agent_sdk.Local.Safety.Run.{
  SendsDialog, RunsPermitted, run_agent_loop-SendsDialog, run_agent_loop-RunsPermitted,
}

run_agent_loop-SendsDialog_example :
    Allowed SendsDialog Rely Anything []
      (run_agent_loop lead (delegates_of helper_routes) lead_input)
run_agent_loop-SendsDialog_example = run_agent_loop-SendsDialog lead helper_routes lead_input

run_agent_loop-RunsPermitted_example :
    Allowed RunsPermitted Rely Anything []
      (run_agent_loop lead (delegates_of helper_routes) lead_input)
run_agent_loop-RunsPermitted_example = run_agent_loop-RunsPermitted lead helper_routes lead_input

abbrev first_input : ExecuteLlmInput
first_input = record {
  agent_name = codes "lead";
  message_id = codes "m1";
  run_id = codes "r1";
  iteration = 0;
  messages = [];
  skip_tools = false;
  memory_context = [];
  retriever_context = [];
  streaming = false;
}

abbrev first_answer : LlmResult
first_answer = record { content = codes "Looking."; tool_calls = search_call ∷ []; usage = none }

abbrev asked : List Event
asked = (llm first_input, ok first_answer) ∷ []

execute_tools-Sound_example : Sound (Settles ToolExecutionMode.parallel (search_call ∷ [])) asked (
    execute_tools ToolExecutionMode.parallel lead lead_input
      (delegates_of no_routes)
      (codes "m1")
      0
      (search_call ∷ []))
execute_tools-Sound_example =
    execute_tools-Sound lead lead_input (delegates_of no_routes) (codes "m1") 0 (λ tool_name. tt)
      ToolExecutionMode.parallel asked (search_call ∷ [])
      (λ tc m. (first_input, (first_answer, (inl refl, m))))
