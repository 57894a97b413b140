-- ===== src/Local/Loop.antt =====
-- `RunAgentLoop`, `conversationMemoryEnabled` and `persistConversationMessages` of
-- internal/runtime/local/agent_loop.go, and the routes of subagent.go. The loop recurs on the
-- iterations that are left. A limit of iterations is an int, so no sum over it wraps around.
pub mod Start
pub mod Run
use Prim.Native.Nat.{zero, suc}
use temporal_go_agent_sdk.Prelude.{
  ℕ, ◌+◌, Bool, true, false, ◌&&◌, not, ◌==◌, ltb, List, [], ◌∷◌, ◌++◌, length, drop, Option, none,
  some, Text, codes, text_eq, ℤ, pos, ltb_ℤ, Result, ok, err, if◌then◌else◌, positive_or,
}
use temporal_go_agent_sdk.Interfaces.{
  MessageRole, Message, ToolCall, LlmUsage, ToolKind, counts_toward_tool_telemetry,
}
use temporal_go_agent_sdk.Tools.Failure.{Failure, wrapped, plain}
use temporal_go_agent_sdk.Base.Budget.{
  TokenBudget, new_token_budget, add_usage, is_exceeded, convert_from_llm_usage, merge_llm_usage,
}
use temporal_go_agent_sdk.Base.Telemetry.{
  FinishReason, AgentTelemetry, StorageTelemetry, new_agent_telemetry, record_call,
}
use temporal_go_agent_sdk.Local.Types.{
  ToolCallRequest, ToolResult, LlmResult, ExecuteLlmInput, AgentConfig, AgentLoopInput, add_message,
}
use temporal_go_agent_sdk.Local.Program.{Program, ret, ask, ◌>>=◌, ◌>>◌}
use temporal_go_agent_sdk.Local.Delegation.{is_blank}

-- The variables of `RunAgentLoop` that its iterations change.
pub record LoopState : Type 0 where
  pub messages : List Message
  pub persisted_message_count : ℕ
  pub last_content : Text
  pub llm_usage : Option LlmUsage
  pub token_budget : Option TokenBudget
  pub telemetry : AgentTelemetry

-- What an iteration reads and never changes: the two prefetched contexts.
pub record Contexts : Type 0 where
  pub memory_context : Text
  pub retriever_context : Text

unfoldable pub conversation_memory_enabled : AgentConfig → AgentLoopInput → Bool
conversation_memory_enabled cfg input = not (is_blank input.conversation_id) && cfg.has_conversation

-- A failure of one message is counted and the next one follows: the result is the count.
unfoldable pub persist_conversation_messages : Text → Text → List Message → Program ℕ
persist_conversation_messages agent conversation_id [] = ret 0
persist_conversation_messages agent conversation_id (msg ∷ more) =
    ask (add_message agent conversation_id msg) >>= λ answer.
    persist_conversation_messages agent conversation_id more >>= λ fail_count.
    ret (elim answer [ none ↦ fail_count | some f ↦ suc fail_count ])

abbrev pub assistant_message : Text → List ToolCall → Message
assistant_message content tool_calls = record {
  role = MessageRole.assistant;
  content = content;
  tool_name = [];
  tool_call_id = [];
  tool_calls = tool_calls;
}

abbrev pub call_of : ToolCallRequest → ToolCall
call_of tc = record { tool_call_id = tc.tool_call_id; tool_name = tc.tool_name; args = tc.args }

abbrev pub calls_of : List ToolCallRequest → List ToolCall
calls_of [] = []
calls_of (tc ∷ tcs) = call_of tc ∷ calls_of tcs

abbrev pub messages_of : List ToolResult → List Message
messages_of [] = []
messages_of (r ∷ rs) = r.message ∷ messages_of rs

abbrev pub save_memory_tool_name : Text
save_memory_tool_name = codes "save_memory"

abbrev is_retriever : ToolKind → Bool
is_retriever ToolKind.retriever = true
is_retriever _ = false

-- The counters that one tool result moves, in the storage part.
unfoldable pub note_retriever : ToolKind → Bool → StorageTelemetry → StorageTelemetry
note_retriever kind failed s =
    if is_retriever kind
    then record s {
      total_retriever_searches = suc s.total_retriever_searches;
      agentic_searches = suc s.agentic_searches;
      failed_retriever_searches =
          if failed then suc s.failed_retriever_searches else s.failed_retriever_searches;
    }
    else s

unfoldable pub note_memory : Text → Bool → StorageTelemetry → StorageTelemetry
note_memory tool_name failed s =
    if text_eq tool_name save_memory_tool_name
    then if failed
      then record s { failed_memory_stores = suc s.failed_memory_stores }
      else record s { total_memory_stores = suc s.total_memory_stores }
    else s

unfoldable pub record_result : ToolCallRequest → Bool → AgentTelemetry → AgentTelemetry
unfolding record_call counts_toward_tool_telemetry note_retriever note_memory
record_result tc failed t = record t {
  tools =
      if counts_toward_tool_telemetry tc.tool_kind
      then record_call tc.tool_name failed t.tools
      else t.tools;
  storage = note_memory tc.tool_name failed (note_retriever tc.tool_kind failed t.storage);
}

unfoldable pub record_results :
    List ToolCallRequest → List ToolResult → AgentTelemetry → AgentTelemetry
unfolding record_result
record_results (tc ∷ tcs) (r ∷ rs) t = record_results tcs rs (record_result tc r.failed t)
record_results [] rs t = t
record_results (tc ∷ tcs) [] t = t

unfoldable pub count_llm_call : AgentTelemetry → AgentTelemetry
count_llm_call t = record t { total_llm_calls = suc t.total_llm_calls }

abbrev pub finish_for : FinishReason → AgentTelemetry → AgentTelemetry
finish_for reason t = record t { finish_reason = reason }

-- `TotalLLMCalls++`, the merged usage, and the charge when the answer has a usage.
unfoldable pub account : Option LlmUsage → LoopState → LoopState
unfolding count_llm_call merge_llm_usage convert_from_llm_usage add_usage
account usage s = record s {
  telemetry = count_llm_call s.telemetry;
  llm_usage = merge_llm_usage s.llm_usage usage;
  token_budget = charged usage s.token_budget;
}
  where
    charged : Option LlmUsage → Option TokenBudget → Option TokenBudget
    charged none b = b
    charged (some u) none = none
    charged (some u) (some b) = some (add_usage (some (convert_from_llm_usage (some u))) b)

-- Whether the budget stops the loop: only an answer with a usage is checked.
unfoldable pub budget_stops : Option LlmUsage → Option TokenBudget → Bool
budget_stops none b = false
budget_stops (some u) none = false
budget_stops (some u) (some b) = is_exceeded b

-- The final answer: an assistant message without tool calls.
unfoldable pub answer_with : Text → LoopState → LoopState
answer_with content s = record s {
  messages = s.messages ++ (assistant_message content [] ∷ []);
  last_content = content;
}

unfoldable pub llm_input :
    AgentConfig → AgentLoopInput → Contexts → Text → ℕ → Bool → List Message → ExecuteLlmInput
llm_input cfg input contexts message_id iteration skip_tools messages = record {
  agent_name = cfg.name;
  message_id = message_id;
  run_id = input.run_id;
  iteration = iteration;
  messages = messages;
  skip_tools = skip_tools;
  memory_context = contexts.memory_context;
  retriever_context = contexts.retriever_context;
  streaming = input.streaming_enabled;
}
