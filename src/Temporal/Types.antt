-- ===== src/Temporal/Types.antt =====
-- The data of the workflow and the calls that it makes, which are activities, side effects and child
-- workflows: internal/runtime/temporal/agent_workflow.go and subagent.go. An activity answers with
-- its result or its last error, after Temporal's retries. Which event workflow it reports to and
-- which fingerprint it checks are constants of a run, and are left out of the calls.
use temporal_go_agent_sdk.Prelude.{
  ℕ, Bool, true, false, List, Option, none, some, Text, text_eq, ℤ, Result,
}
use temporal_go_agent_sdk.Interfaces.{Args, Message, LlmUsage, ApprovalStatus}
use temporal_go_agent_sdk.Effects.{Interaction, call, ret}
use temporal_go_agent_sdk.Tools.Failure.{Failure}
use temporal_go_agent_sdk.Base.Telemetry.{AgentTelemetry}
use temporal_go_agent_sdk.Local.Types.{
  ToolCallRequest, LlmResult, AuthorizeResult, MemoryScope, RetrieverResult, MemoryResult,
  ExecuteLlmInput, ExecuteToolInput, AgentEvent, AgentConfig,
}

-- `SubAgentRoute`, and maps of routes by the name of the tool.
mutual
  pub data SubAgentRoute : Type 0 where
    -- Name, task queue, agent fingerprint and child routes.
    sub_agent_route : Text → Text → Text → SubAgentRoutes → SubAgentRoute

  pub data SubAgentRoutes : Type 0 where
    no_routes : SubAgentRoutes
    entry : Text → SubAgentRoute → SubAgentRoutes → SubAgentRoutes

unfoldable pub find_route : SubAgentRoutes → Text → Option SubAgentRoute
find_route no_routes tool_name = none
find_route (entry n r more) tool_name = elim (text_eq n tool_name) [
  | true ↦ some r
  | false ↦ find_route more tool_name
]

abbrev pub route_name : SubAgentRoute → Text
route_name (sub_agent_route name queue fingerprint children) = name

abbrev pub route_task_queue : SubAgentRoute → Text
route_task_queue (sub_agent_route name queue fingerprint children) = queue

abbrev pub route_fingerprint : SubAgentRoute → Text
route_fingerprint (sub_agent_route name queue fingerprint children) = fingerprint

abbrev pub route_children : SubAgentRoute → SubAgentRoutes
route_children (sub_agent_route name queue fingerprint children) = children

-- What a run carries to the next one on continue-as-new.
pub record AgentWorkflowState : Type 0 where
  pub iteration : ℕ
  pub messages : List Message
  pub llm_usage : Option LlmUsage
  pub telemetry : Option AgentTelemetry

pub record AgentWorkflowInput : Type 0 where
  pub user_prompt : Text
  pub event_workflow_id : Text
  pub event_task_queue : Text
  pub local_channel_name : Text
  pub streaming_enabled : Bool
  pub conversation_id : Text
  pub agent_fingerprint : Text
  pub run_id : Text
  pub memory_scope : MemoryScope
  pub event_types : List Text
  pub sub_agent_depth : ℤ
  pub sub_agent_routes : SubAgentRoutes
  pub max_sub_agent_depth : ℤ
  pub state : Option AgentWorkflowState

pub record AgentRunResult : Type 0 where
  pub content : Text
  pub agent_name : Text
  pub model : Text
  pub llm_usage : Option LlmUsage
  pub telemetry : AgentTelemetry

-- The configuration of the agent, and what the workflow reads of its model client.
pub record WorkflowConfig : Type 0 where
  pub agent : AgentConfig
  pub is_stream_supported : Bool
  pub model : Text

-- An activity without a result: done, or an error, which may be a cancellation.
pub data Ending : Type 0 where
  succeeded : Ending
  failed canceled : Failure → Ending

pub data Activity : Type 0 where
  -- `workflow.SideEffect` of `uuid.New`.
  side_effect_id : Activity
  -- AgentLLMActivity and AgentLLMStreamActivity, with the conversation whose history they prepend. The
  -- answer is what the variable `llmResult` holds after `Get`, and not what the activity sent: `Get`
  -- decodes into the value of the iteration before, so that entries of maps, and fields that the JSON
  -- leaves out, may come from earlier answers. Any answer is admitted, and so all that `Get` may leave.
  generate : Text → ExecuteLlmInput → Activity
  -- AgentToolAuthorizeActivity and AgentToolApprovalActivity; the latter has the sub-agent's name.
  authorize : Text → Args → Activity
  approve : ToolCallRequest → Text → Activity
  -- AgentToolExecuteActivity.
  execute : ExecuteToolInput → Activity
  -- A child workflow on a task queue.
  run_child : Text → AgentWorkflowInput → Activity
  -- SendAgentEventUpdateActivity; it answers whether the stream is unavailable.
  send_event : AgentEvent → Activity
  -- AddConversationMessagesActivity.
  add_messages : Text → List Message → Activity
  -- AgentMemoryRecallActivity, AgentRetrieverActivity and AgentMemoryStoreActivity.
  recall : MemoryScope → Text → Activity
  retrieve : Text → Activity
  store_memory : MemoryScope → List Message → Activity
  -- `GetInfo`: the length and the size in bytes of the history.
  history_info : Activity
  -- The variable `streamingUnavailable`, which coroutines share.
  read_unavailable : Activity
  mark_unavailable : Activity
  -- How the coroutines of a batch of that many tools interleave.
  schedule : ℕ → Activity

abbrev pub Reply : Activity → Type 0
Reply side_effect_id = Result Failure Text
Reply (generate c i) = Result Failure LlmResult
Reply (authorize n x) = Result Failure AuthorizeResult
Reply (approve tc n) = Result Failure ApprovalStatus
Reply (execute i) = Result Failure Text
Reply (run_child q i) = Result Failure AgentRunResult
Reply (send_event e) = Result Failure Bool
Reply (add_messages c ms) = Option Failure
Reply (recall s q) = Result Failure MemoryResult
Reply (retrieve q) = Result Failure RetrieverResult
Reply (store_memory s ms) = Ending
Reply history_info = ℕ × ℕ
Reply read_unavailable = Bool
Reply mark_unavailable = Unit {0}
Reply (schedule n) = List ℕ

abbrev pub Workflow : Type 0 → Type 0
Workflow A = Interaction Activity Reply A

abbrev pub run : (q : Activity) → Workflow (Reply q)
run q = call q ret

-- Steps that may fail: the first error ends the function.
abbrev pub Fallible : Type 0 → Type 0
Fallible A = Workflow (Result Failure A)
