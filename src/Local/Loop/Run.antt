-- ===== src/Local/Loop/Run.antt =====
-- The iterations of `RunAgentLoop`, the whole of it, and the loop that a route of a sub-agent runs.
use Prim.Native.Nat.{zero, suc}
use temporal_go_agent_sdk.Prelude.{
  ℕ, true, false, ◌&&◌, ◌==◌, ltb, List, [], ◌∷◌, ◌++◌, length, drop, Option, none, some, Text,
  codes, text_eq, pos, Result, ok, err, if◌then◌else◌, positive_or,
}
use temporal_go_agent_sdk.Tools.Envelope.{quote}
use temporal_go_agent_sdk.Tools.Failure.{Failure, wrapped, plain}
use temporal_go_agent_sdk.Tools.Results.{decimal}
use temporal_go_agent_sdk.Base.Budget.{merge_llm_usage}
use temporal_go_agent_sdk.Base.Telemetry.{FinishReason, new_agent_telemetry}
use temporal_go_agent_sdk.Local.Types.{
  ToolCallRequest, ToolResult, LlmResult, AgentConfig, AgentLoopInput, AgentLoopResult, new_id, llm,
  ToolExecutionMode, unset, parallel, sequential, other,
}
use temporal_go_agent_sdk.Local.Program.{Program, ret, ask, ◌>>=◌, ◌>>◌}
pub use temporal_go_agent_sdk.Effects.{and_then}
use temporal_go_agent_sdk.Local.Delegation.{Delegate, Delegates}
use temporal_go_agent_sdk.Local.Batch.{execute_tools_parallel, execute_tools_sequential}
use temporal_go_agent_sdk.Local.Loop.{
  LoopState, Contexts, conversation_memory_enabled, persist_conversation_messages,
  assistant_message, calls_of, messages_of, record_results, count_llm_call, finish_for, account,
  budget_stops, answer_with, llm_input,
}
use temporal_go_agent_sdk.Local.Loop.Start.{
  load_history, recall_memory, prefetch_context, initial_state, finish_run,
}

abbrev pub all_results : Program (List ToolResult) → Program (Result Failure (List ToolResult))
all_results m = m >>= λ rs. ret (ok rs)

-- The `switch` on the tool execution mode; an unset mode is the parallel one.
unfoldable pub execute_tools :
    ToolExecutionMode
    → AgentConfig
    → AgentLoopInput
    → Delegates
    → Text
    → ℕ
    → List ToolCallRequest
    → Program (Result Failure (List ToolResult))
unfolding execute_tools_parallel execute_tools_sequential
execute_tools unset cfg input delegates message_id iteration tool_calls =
    all_results (execute_tools_parallel cfg input delegates message_id iteration tool_calls)
execute_tools parallel cfg input delegates message_id iteration tool_calls =
    all_results (execute_tools_parallel cfg input delegates message_id iteration tool_calls)
execute_tools sequential cfg input delegates message_id iteration tool_calls =
    all_results (execute_tools_sequential cfg input delegates message_id iteration tool_calls)
execute_tools (other mode) cfg input delegates message_id iteration tool_calls = ret (
    err (
      plain (
        codes "invalid tool execution mode "
        ++ (quote mode ++ codes ": use \"parallel\" or \"sequential\""))))

-- The messages and the counters of a batch.
unfoldable pub after_tools : LlmResult → List ToolResult → LoopState → LoopState
unfolding record_results
after_tools r results s = record s {
  messages =
      s.messages ++ (assistant_message r.content (calls_of r.tool_calls) ∷ messages_of results);
  telemetry = record_results r.tool_calls results s.telemetry;
}

-- `ConversationSaveOnIteration`.
unfoldable pub save_on_iteration : AgentConfig → AgentLoopInput → LoopState → Program LoopState
unfolding persist_conversation_messages conversation_memory_enabled
save_on_iteration cfg input s =
    if conversation_memory_enabled cfg input
      && (cfg.conversation_save_on_iteration && ltb s.persisted_message_count (length s.messages))
    then persist_conversation_messages cfg.name input.conversation_id
        (drop s.persisted_message_count s.messages)
      >> ret (record s { persisted_message_count = length s.messages })
    else ret s

abbrev pub final_error : ℕ → Result Failure LlmResult → Result Failure LlmResult
final_error i (ok r) = ok r
final_error i (err f) =
    err (wrapped (codes "llm final call (iter " ++ (decimal (pos i) ++ codes "): ")) f)

unfoldable pub final_state : LlmResult → LoopState → LoopState
unfolding answer_with count_llm_call
final_state r s = record (answer_with r.content s) {
  llm_usage = merge_llm_usage s.llm_usage r.usage;
  telemetry = finish_for FinishReason.max_iterations (count_llm_call s.telemetry);
}

-- The last iteration's second call, without tools.
unfoldable pub final_call :
    AgentConfig → AgentLoopInput → Contexts → ℕ → LoopState → Program (Result Failure LoopState)
unfolding llm_input final_state
final_call cfg input contexts iteration s = ask new_id >>= λ message_id.
    ask (llm (llm_input cfg input contexts message_id iteration true s.messages)) >>= λ answer.
    and_then (final_error iteration answer) (λ r. ret (ok (final_state r s)))

abbrev pub call_error : ℕ → Result Failure LlmResult → Result Failure LlmResult
call_error i (ok r) = ok r
call_error i (err f) = err (wrapped (codes "llm call (iter " ++ (decimal (pos i) ++ codes "): ")) f)

-- An iteration whose answer is within the budget, with `left` iterations after it; `next` is the rest
-- of the loop.
abbrev pub after_answer :
    AgentConfig
    → AgentLoopInput
    → Delegates
    → Contexts
    → ℕ
    → ℕ
    → Text
    → LlmResult
    → LoopState
    → (LoopState → Program (Result Failure LoopState))
    → List ToolCallRequest
    → Program (Result Failure LoopState)
after_answer cfg input delegates contexts iteration left message_id r s next [] =
    ret (ok (answer_with r.content s))
after_answer cfg input delegates contexts iteration left message_id r s next (tc ∷ tcs) =
    if left == 0
    then final_call cfg input contexts iteration s
    else (execute_tools cfg.tool_execution_mode cfg input delegates message_id iteration
          r.tool_calls
        >>= λ results.
            and_then results (λ rs. save_on_iteration cfg input (after_tools r rs s) >>= next))

unfoldable pub after_call :
    AgentConfig
    → AgentLoopInput
    → Delegates
    → Contexts
    → ℕ
    → ℕ
    → Text
    → LlmResult
    → LoopState
    → (LoopState → Program (Result Failure LoopState))
    → Program (Result Failure LoopState)
unfolding execute_tools after_tools save_on_iteration final_call budget_stops answer_with
after_call cfg input delegates contexts iteration left message_id r s next =
    if budget_stops r.usage s.token_budget
    then ret (ok (record s { telemetry = finish_for FinishReason.token_budget s.telemetry }))
    else after_answer cfg input delegates contexts iteration left message_id r s next r.tool_calls

unfoldable pub iterate :
    AgentConfig
    → AgentLoopInput
    → Delegates
    → Contexts
    → ℕ
    → ℕ
    → LoopState
    → Program (Result Failure LoopState)
unfolding after_call llm_input account
iterate cfg input delegates contexts iteration zero s = ret (ok s)
iterate cfg input delegates contexts iteration (suc left) s = ask new_id >>= λ message_id.
    ask (llm (llm_input cfg input contexts message_id iteration false s.messages)) >>= λ answer.
    and_then (call_error iteration answer) (λ r.
      after_call cfg input delegates contexts iteration left message_id r (account r.usage s)
        (λ u. iterate cfg input delegates contexts (suc iteration) left u))

unfoldable pub run_agent_loop :
    AgentConfig → Delegates → AgentLoopInput → Program (Result Failure AgentLoopResult)
unfolding load_history recall_memory prefetch_context initial_state iterate finish_run
    new_agent_telemetry
run_agent_loop cfg delegates input = load_history cfg input >>= λ history.
    recall_memory cfg input new_agent_telemetry >>= λ recalled. and_then recalled (λ m.
      prefetch_context cfg input m.1 >>= λ fetched. and_then fetched (λ p.
        iterate cfg input delegates (record { memory_context = m.0; retriever_context = p.0 }) 0
          (positive_or cfg.max_iterations 10) (initial_state cfg input history p.1)
        >>= λ last. and_then last (λ s. finish_run cfg input s >>= λ r. ret (ok r))))

-- `subAgentRoute` and `SubAgentRoutes`: a map by the name of the tool.
mutual
  pub data Route : Type 0 where
    route : Text → Option AgentConfig → Routes → Route

  pub data Routes : Type 0 where
    no_routes : Routes
    entry : Text → Route → Routes → Routes

-- The runtime of a route runs the same loop, with the children of the route.
abbrev mutual
  pub delegate_of : Route → Delegate
  delegate_of (route name none children) = record { name = name; run = none }
  delegate_of (route name (some cfg) children) = record {
    name = name;
    run = some (run_agent_loop cfg (delegates_of children));
  }

  pub delegates_of : Routes → Delegates
  delegates_of no_routes tool_name = none
  delegates_of (entry n r more) tool_name = elim (text_eq n tool_name) [
    | true ↦ some (delegate_of r)
    | false ↦ delegates_of more tool_name
  ]
