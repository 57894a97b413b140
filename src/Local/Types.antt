-- ===== src/Local/Types.antt =====
-- The data of the loop, and the calls that it makes on what surrounds it: the language model, the
-- tools, the approval channel, the stores and the event bus. internal/runtime/base/types.go.
use temporal_go_agent_sdk.Prelude.{ℕ, Bool, List, Option, Text, Dict, ℤ, Result}
use temporal_go_agent_sdk.Interfaces.{Args, Message, LlmUsage, ToolKind, ApprovalStatus}
use temporal_go_agent_sdk.Tools.Failure.{Failure}
use temporal_go_agent_sdk.Base.Telemetry.{AgentTelemetry}

pub record ToolCallRequest : Type 0 where
  pub tool_call_id : Text
  pub tool_name : Text
  pub tool_display_name : Text
  pub tool_kind : ToolKind
  pub args : Args
  pub needs_approval : Bool

pub record LlmResult : Type 0 where
  pub content : Text
  pub tool_calls : List ToolCallRequest
  pub usage : Option LlmUsage

pub record AuthorizeResult : Type 0 where
  pub allowed : Bool
  pub reason : Text

pub record MemoryScope : Type 0 where
  pub tenant_id : Text
  pub user_id : Text
  pub agent_id : Text
  pub tags : Dict Text

pub record RetrieverResult : Type 0 where
  pub context : Text
  pub total_searches : ℕ
  pub failed_searches : ℕ

pub record MemoryResult : Type 0 where
  pub context : Text
  pub total_recalls : ℕ
  pub failed_recalls : ℕ

pub record ExecuteLlmInput : Type 0 where
  pub agent_name : Text
  pub message_id : Text
  pub run_id : Text
  pub iteration : ℕ
  pub messages : List Message
  pub skip_tools : Bool
  pub memory_context : Text
  pub retriever_context : Text
  pub streaming : Bool

pub record ExecuteToolInput : Type 0 where
  pub tool_name : Text
  pub args : Args
  pub tool_call_id : Text
  pub run_id : Text
  pub iteration : ℕ

pub data AgentEvent : Type 0 where
  tool_call_start : Text → Text → Text → AgentEvent
  tool_call_args : Text → Args → AgentEvent
  tool_call_end : Text → AgentEvent
  tool_call_result : Text → Text → Text → AgentEvent
  -- The CUSTOM events that carry an approval token: for a tool, and for a delegation.
  tool_approval : Text → ToolCallRequest → Text → AgentEvent
  sub_agent_delegation : Text → ToolCallRequest → Text → AgentEvent
  step_started : Text → AgentEvent
  step_finished : Text → AgentEvent

-- One call on the surroundings. `agent` says whose client, tools or stores answer it.
pub data Call : Type 0 where
  -- `uuid.New`.
  new_id : Call
  -- `ExecuteLLM` and `ExecuteLLMStream`.
  llm : ExecuteLlmInput → Call
  -- `AuthorizeTool` and `ExecuteToolGuarded`, of the agent.
  authorize : Text → Text → Args → Call
  execute : Text → ExecuteToolInput → Call
  emit : Text → AgentEvent → Call
  -- `pendingApprovals.Store` and `Delete`; the approval handler; and the `select` on the answer.
  register unregister : Text → Call
  handle : Text → ToolCallRequest → Call
  await : Text → ToolCallRequest → Call
  -- `FetchConversationMessages` and `Conversation.AddMessage`, by conversation.
  fetch_messages : Text → Text → Call
  add_message : Text → Text → Message → Call
  -- `ExecuteMemoryRecall`, `ExecuteRetrievers` and `ExecuteMemoryStore`.
  recall : Text → MemoryScope → Text → Call
  retrieve : Text → Text → Call
  store_memory : Text → MemoryScope → List Message → Call
  -- How the goroutines of a batch of that many tools interleave: whose call comes next.
  schedule : ℕ → Call

abbrev pub Answer : Call → Type 0
Answer new_id = Text
Answer (llm i) = Result Failure LlmResult
Answer (authorize a n x) = Result Failure AuthorizeResult
Answer (execute a i) = Result Failure Text
Answer (emit c e) = Unit {0}
Answer (register t) = Unit {0}
Answer (unregister t) = Unit {0}
Answer (handle t c) = Unit {0}
Answer (await t c) = Result Failure ApprovalStatus
Answer (fetch_messages a c) = Result Failure (List Message)
Answer (add_message a c m) = Option Failure
Answer (recall a s q) = Result Failure MemoryResult
Answer (retrieve a q) = Result Failure RetrieverResult
Answer (store_memory a s m) = Option Failure
Answer (schedule n) = List ℕ

pub data ToolExecutionMode : Type 0 where
  unset parallel sequential : ToolExecutionMode
  other : Text → ToolExecutionMode

pub data RetrieverMode : Type 0 where
  agentic prefetch hybrid : RetrieverMode
  other : Text → RetrieverMode

-- What the loop reads of the runtime's `AgentSpec`, `AgentConfig` and mode. The two memory flags are
-- `MemoryConfigured() && RecallEnabled()` and `RunEndMemoryStoreEnabled()`.
pub record AgentConfig : Type 0 where
  pub name : Text
  pub max_iterations : ℤ
  pub max_tokens : ℤ
  pub tool_execution_mode : ToolExecutionMode
  pub has_conversation : Bool
  pub conversation_save_on_iteration : Bool
  pub recall_enabled : Bool
  pub run_end_memory_store : Bool
  pub retriever_mode : RetrieverMode
  pub has_retrievers : Bool

-- `Tools` and `SubAgentRoutes` stand apart: the tools answer `authorize` and `execute`, and the
-- routes are an argument of the loop.
pub record AgentLoopInput : Type 0 where
  pub user_prompt : Text
  pub conversation_id : Text
  pub streaming_enabled : Bool
  pub channel_name : Text
  pub has_approval_handler : Bool
  pub sub_agent_depth : ℤ
  pub max_sub_agent_depth : ℤ
  pub memory_scope : MemoryScope
  pub run_id : Text

pub record AgentLoopResult : Type 0 where
  pub content : Text
  pub llm_usage : Option LlmUsage
  pub telemetry : AgentTelemetry

pub record ToolResult : Type 0 where
  pub message : Message
  pub failed : Bool
