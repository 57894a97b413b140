-- ===== src/Temporal/Examples.antt =====
-- A workflow with a route to a child, to run AgentWorkflow of
-- internal/runtime/temporal/agent_workflow.go on.
use temporal_go_agent_sdk.Prelude.{false, [], ◌∷◌, none, codes, pos}
use temporal_go_agent_sdk.Local.Examples.{lead, search_call, helper_call}
use temporal_go_agent_sdk.Local.Types.{LlmResult}
use temporal_go_agent_sdk.Temporal.Types.{
  SubAgentRoute, sub_agent_route, no_routes, entry, AgentWorkflowInput, WorkflowConfig,
}

abbrev pub worker : WorkflowConfig
worker = record { agent = lead; is_stream_supported = false; model = codes "m1" }

abbrev pub helper_route : SubAgentRoute
helper_route = sub_agent_route (codes "helper") (codes "helper-queue") [] no_routes

abbrev pub first_input : AgentWorkflowInput
first_input = record {
  user_prompt = codes "What is new?";
  event_workflow_id = [];
  event_task_queue = [];
  local_channel_name = codes "events";
  streaming_enabled = false;
  conversation_id = codes "c1";
  agent_fingerprint = [];
  run_id = codes "r1";
  memory_scope = record {
    tenant_id = [];
    user_id = codes "u1";
    agent_id = codes "lead";
    tags = [];
  };
  event_types = codes "*" ∷ [];
  sub_agent_depth = pos 0;
  sub_agent_routes = entry (codes "ask_helper") helper_route no_routes;
  max_sub_agent_depth = pos 2;
  state = none;
}

abbrev pub first_answer : LlmResult
first_answer = record {
  content = codes "Looking.";
  tool_calls = search_call ∷ (helper_call ∷ []);
  usage = none;
}
