-- ===== src/Temporal/Workflow.antt =====
-- `AgentWorkflow` and `conversationMemoryEnabled` of internal/runtime/temporal/agent_workflow.go.
-- The loop recurs on the iterations that are left. Logs and times are left out.
pub mod Run
pub mod Chain
pub mod Counts
mod Tests
use temporal_go_agent_sdk.Prelude.{
  ℕ, zero, suc, Bool, true, false, ◌&&◌, ◌||◌, not, ◌==◌, leb, List, [], ◌∷◌, ◌++◌, Option, none,
  some, Text, Result, ok, err, if◌then◌else◌,
}
use temporal_go_agent_sdk.Interfaces.{Message, LlmUsage}
use temporal_go_agent_sdk.Effects.{ret, ◌>>=◌, and_then}
use temporal_go_agent_sdk.Tools.Failure.{Failure}
use temporal_go_agent_sdk.Base.Budget.{
  TokenBudget, add_usage, is_exceeded, convert_from_llm_usage, merge_llm_usage,
}
use temporal_go_agent_sdk.Base.Telemetry.{FinishReason, AgentTelemetry}
use temporal_go_agent_sdk.Local.Types.{ToolCallRequest, LlmResult, ExecuteLlmInput, ToolResult}
use temporal_go_agent_sdk.Local.Delegation.{is_blank}
use temporal_go_agent_sdk.Local.Loop.{
  Contexts, assistant_message, calls_of, messages_of, record_results, count_llm_call, finish_for,
}
use temporal_go_agent_sdk.Temporal.Types.{
  AgentWorkflowState, AgentWorkflowInput, WorkflowConfig, side_effect_id, generate, add_messages,
  history_info, Workflow, run, Fallible,
}
use temporal_go_agent_sdk.Temporal.Batch.{execute_tools}

-- The variables of a run that its iterations change.
pub record WorkflowVars : Type 0 where
  pub messages : List Message
  pub last_content : Text
  pub llm_usage : Option LlmUsage
  pub token_budget : Option TokenBudget
  pub telemetry : AgentTelemetry

-- The loop ends, or the workflow continues as a new run.
pub data LoopEnd : Type 0 where
  stopped : WorkflowVars → LoopEnd
  continued : AgentWorkflowState → LoopEnd

unfoldable pub conversation_memory_enabled : WorkflowConfig → Text → Bool
conversation_memory_enabled cfg conversation_id =
    not (is_blank conversation_id) && cfg.agent.has_conversation

abbrev pub llm_input :
    WorkflowConfig
    → AgentWorkflowInput
    → Contexts
    → Text
    → ℕ
    → Bool
    → List Message
    → ExecuteLlmInput
llm_input cfg input contexts message_id iteration skip_tools messages = record {
  agent_name = cfg.agent.name;
  message_id = message_id;
  run_id = input.run_id;
  iteration = iteration;
  messages = messages;
  skip_tools = skip_tools;
  memory_context = contexts.memory_context;
  retriever_context = contexts.retriever_context;
  streaming = input.streaming_enabled && cfg.is_stream_supported;
}

abbrev charged : Option LlmUsage → Option TokenBudget → Option TokenBudget
charged none b = b
charged (some u) none = none
charged (some u) (some b) = some (add_usage (some (convert_from_llm_usage (some u))) b)

-- `TotalLLMCalls++`, the merged usage, and the charge when the answer has a usage.
unfoldable pub account : Option LlmUsage → WorkflowVars → WorkflowVars
unfolding count_llm_call merge_llm_usage
account usage v = record v {
  telemetry = count_llm_call v.telemetry;
  llm_usage = merge_llm_usage v.llm_usage usage;
  token_budget = charged usage v.token_budget;
}

unfoldable pub budget_stops : Option LlmUsage → Option TokenBudget → Bool
budget_stops none b = false
budget_stops (some u) none = false
budget_stops (some u) (some b) = is_exceeded b

unfoldable pub answer_with : Text → WorkflowVars → WorkflowVars
answer_with content v = record v {
  messages = v.messages ++ (assistant_message content [] ∷ []);
  last_content = content;
}

unfoldable pub final_vars : LlmResult → WorkflowVars → WorkflowVars
unfolding answer_with count_llm_call merge_llm_usage
final_vars r v = record (answer_with r.content v) {
  llm_usage = merge_llm_usage v.llm_usage r.usage;
  telemetry = finish_for FinishReason.max_iterations (count_llm_call v.telemetry);
}

-- The last iteration's second call, without tools, under the same message id.
unfoldable pub final_call :
    WorkflowConfig → AgentWorkflowInput → Contexts → Text → ℕ → WorkflowVars → Fallible LoopEnd
unfolding final_vars
final_call cfg input contexts message_id iteration v =
    run (
      generate input.conversation_id
        (llm_input cfg input contexts message_id iteration true v.messages))
    >>= λ answer. and_then answer (λ r. ret (ok (stopped (final_vars r v))))

-- The messages and the counters of a batch.
unfoldable pub after_tools : LlmResult → List ToolResult → WorkflowVars → WorkflowVars
unfolding record_results
after_tools r results v = record v {
  messages =
      v.messages ++ (assistant_message r.content (calls_of r.tool_calls) ∷ messages_of results);
  telemetry = record_results r.tool_calls results v.telemetry;
}

abbrev pub is_none : {A : Type 0} → Option A → Bool
is_none none = true
is_none (some a) = false

abbrev pub has_messages : List Message → Bool
has_messages [] = false
has_messages (m ∷ ms) = true

-- `ConversationSaveOnIteration`: what was saved is not kept.
unfoldable pub save_on_iteration :
    WorkflowConfig → AgentWorkflowInput → WorkflowVars → Workflow WorkflowVars
unfolding conversation_memory_enabled
save_on_iteration cfg input v =
    if conversation_memory_enabled cfg input.conversation_id
      && (cfg.agent.conversation_save_on_iteration && has_messages v.messages)
    then (run (add_messages input.conversation_id v.messages) >>= λ answer.
        ret (if is_none answer then record v { messages = [] } else v))
    else ret v

abbrev pub agent_workflow_history_length : ℕ
agent_workflow_history_length = 10_000

abbrev pub agent_workflow_history_size_bytes : ℕ
agent_workflow_history_size_bytes = 20_000_000

abbrev pub carried : ℕ → WorkflowVars → AgentWorkflowState
carried iteration v = record {
  iteration = iteration;
  messages = v.messages;
  llm_usage = v.llm_usage;
  telemetry = some v.telemetry;
}

-- A long history ends the run; `next` is the rest of the loop.
unfoldable pub continue_or : ℕ → (WorkflowVars → Fallible LoopEnd) → WorkflowVars → Fallible LoopEnd
continue_or iteration next v = run history_info >>= λ info.
    if leb agent_workflow_history_length info.0 || leb agent_workflow_history_size_bytes info.1
    then ret (ok (continued (carried (suc iteration) v)))
    else next v

unfoldable pub after_answer :
    WorkflowConfig
    → AgentWorkflowInput
    → Contexts
    → ℕ
    → ℕ
    → Text
    → LlmResult
    → WorkflowVars
    → (WorkflowVars → Fallible LoopEnd)
    → List ToolCallRequest
    → Fallible LoopEnd
unfolding answer_with final_call execute_tools after_tools save_on_iteration continue_or
after_answer cfg input contexts iteration left message_id r v next [] =
    ret (ok (stopped (answer_with r.content v)))
after_answer cfg input contexts iteration left message_id r v next (tc ∷ tcs) =
    if left == 0
    then final_call cfg input contexts message_id iteration v
    else (execute_tools cfg.agent.tool_execution_mode input message_id iteration r.tool_calls
        >>= λ results.
            and_then results (λ rs.
              save_on_iteration cfg input (after_tools r rs v) >>= continue_or iteration next))

unfoldable pub after_call :
    WorkflowConfig
    → AgentWorkflowInput
    → Contexts
    → ℕ
    → ℕ
    → Text
    → LlmResult
    → WorkflowVars
    → (WorkflowVars → Fallible LoopEnd)
    → Fallible LoopEnd
unfolding budget_stops
after_call cfg input contexts iteration left message_id r v next =
    if budget_stops r.usage v.token_budget
    then ret
        (ok (stopped (record v { telemetry = finish_for FinishReason.token_budget v.telemetry })))
    else after_answer cfg input contexts iteration left message_id r v next r.tool_calls

unfoldable pub iterate :
    WorkflowConfig → AgentWorkflowInput → Contexts → ℕ → ℕ → WorkflowVars → Fallible LoopEnd
unfolding after_call account
iterate cfg input contexts iteration zero v = ret (ok (stopped v))
iterate cfg input contexts iteration (suc left) v = run side_effect_id >>= λ id.
    and_then id (λ message_id.
      run (
        generate input.conversation_id
          (llm_input cfg input contexts message_id iteration false v.messages))
      >>= λ answer. and_then answer (λ r.
        after_call cfg input contexts iteration left message_id r (account r.usage v)
          (λ w. iterate cfg input contexts (suc iteration) left w)))
