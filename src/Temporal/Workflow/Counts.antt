-- ===== src/Temporal/Workflow/Counts.antt =====
-- How often a workflow of internal/runtime/temporal/agent_workflow.go calls the model, over all the
-- runs that continue-as-new makes of it. Here the iterations of one run.
pub mod Chain
use temporal_go_agent_sdk.Prelude.{
  ℕ, zero, suc, ◌+◌, ◌-◌, ◌≤◌, Bool, true, false, ◌&&◌, ◌||◌, ◌==◌, ==_iff, leb, List, [], ◌∷◌,
  Option, none, some, Text, pos_part, ◌≡◌, ◌⊎◌, inl, inr, refl, sym, subst, arith, Result, ok, err,
  if◌then◌else◌,
}
use temporal_go_agent_sdk.Effects.{ret, ◌>>=◌, and_then}
use temporal_go_agent_sdk.Effects.Yields.{
  Yields, IfOk, Yields-bind, Yields-any, Yields-and_then, Yields-after, Yields-if,
}
use temporal_go_agent_sdk.Tools.Failure.{Failure}
use temporal_go_agent_sdk.Base.Telemetry.{
  FinishReason, complete, AgentTelemetry, new_agent_telemetry,
}
use temporal_go_agent_sdk.Local.Types.{
  ToolCallRequest, LlmResult, ToolResult, MemoryResult, RetrieverResult,
}
use temporal_go_agent_sdk.Local.Loop.{Contexts, count_llm_call, finish_for}
use temporal_go_agent_sdk.Local.Loop.Start.{prefetches}
use temporal_go_agent_sdk.Local.Counts.{IsWithin, IsOnCourse}
use temporal_go_agent_sdk.Local.Counts.Phases.{record_results-counts}
use temporal_go_agent_sdk.Temporal.Types.{
  AgentWorkflowState, AgentWorkflowInput, AgentRunResult, WorkflowConfig, Ending, succeeded, failed,
  canceled, generate, side_effect_id, history_info, add_messages, recall, retrieve, store_memory,
  Workflow, run, Fallible,
}
use temporal_go_agent_sdk.Temporal.Batch.{execute_tools}
use temporal_go_agent_sdk.Temporal.Workflow.{
  WorkflowVars, LoopEnd, stopped, continued, llm_input, account, budget_stops, answer_with,
  final_vars, final_call, after_tools, is_none, has_messages, conversation_memory_enabled,
  save_on_iteration, carried, continue_or, after_answer, after_call, iterate,
  agent_workflow_history_length, agent_workflow_history_size_bytes,
}
use temporal_go_agent_sdk.Temporal.Workflow.Run.{
  RunEnd, finished, continue_as_new, start_state, start_telemetry, noted_recall, recall_memory,
  noted_prefetch, prefetch_context, initial_vars, iterations_left, persist_unsaved, noted_store,
  store_at_end, finish_run, run_loop, agent_workflow,
}
use temporal_go_agent_sdk.Temporal.Workflow.Chain.{after_run, run_chain}

-- A carried state has counted one call for each iteration so far, of a run that is not finished.
abbrev pub IsCounted : ℕ → Option AgentWorkflowState → Type 0
IsCounted n none = Unit {0}
IsCounted n (some s) =
    (t : AgentTelemetry) × ((s.telemetry ≡ some t)
      × ((t.finish_reason ≡ complete) × ((t.total_llm_calls ≡ s.iteration) × (s.iteration ≤ n))))

abbrev pub EndsCounted : ℕ → LoopEnd → Type 0
EndsCounted n (stopped v) = IsWithin n v.telemetry
EndsCounted n (continued s) = IsCounted n (some s)

account-IsOnCourse :
    (n left : ℕ) (r : LlmResult) (v : WorkflowVars)
    → IsOnCourse n (suc left) v.telemetry
    → IsOnCourse n left (account r.usage v).telemetry
unfolding account count_llm_call
account-IsOnCourse n left r v h = (h.0, omega arith)

after_tools-IsOnCourse :
    (n left : ℕ) (r : LlmResult) (rs : List ToolResult) (v : WorkflowVars)
    → IsOnCourse n left v.telemetry
    → IsOnCourse n left (after_tools r rs v).telemetry
unfolding after_tools
after_tools-IsOnCourse n left r rs v h =
    let same = record_results-counts r.tool_calls rs v.telemetry in (cc, omega arith)

saved-IsOnCourse :
    (n left : ℕ) (answer : Option Failure) (v : WorkflowVars)
    → IsOnCourse n left v.telemetry
    → IsOnCourse n left (if is_none answer then record v { messages = [] } else v).telemetry
saved-IsOnCourse n left none v h = h
saved-IsOnCourse n left (some f) v h = h

module _ (cfg : WorkflowConfig) (input : AgentWorkflowInput) (contexts : Contexts) (n : ℕ) where
  save_on_iteration-IsOnCourse :
      (left : ℕ) (v : WorkflowVars)
      → IsOnCourse n left v.telemetry
      → Yields (λ w. IsOnCourse n left w.telemetry) (save_on_iteration cfg input v)
  unfolding save_on_iteration
  save_on_iteration-IsOnCourse left v h =
      Yields-if (λ w. IsOnCourse n left w.telemetry)
        (conversation_memory_enabled cfg input.conversation_id
          && (cfg.agent.conversation_save_on_iteration && has_messages v.messages))
        (run (add_messages input.conversation_id v.messages) >>= λ answer.
          ret (if is_none answer then record v { messages = [] } else v))
        (ret v) (λ e. λ answer. saved-IsOnCourse n left answer v h) (λ e. h)

  final_call-EndsCounted :
      (message_id : Text) (iteration : ℕ) (v : WorkflowVars)
      → IsOnCourse n 0 v.telemetry
      → Yields (IfOk (EndsCounted n)) (final_call cfg input contexts message_id iteration v)
  unfolding final_call final_vars answer_with count_llm_call
  final_call-EndsCounted message_id iteration v h =
      Yields-after (EndsCounted n)
        (run (
          generate input.conversation_id
            (llm_input cfg input contexts message_id iteration true v.messages)))
        _ (λ r. inl (refl, omega arith))

  continue_or-EndsCounted :
      (iteration left : ℕ) (next : WorkflowVars → Fallible LoopEnd) (v : WorkflowVars)
      → suc iteration + left ≡ n
      → IsOnCourse n left v.telemetry
      → ((w : WorkflowVars)
          → IsOnCourse n left w.telemetry
          → Yields (IfOk (EndsCounted n)) (next w))
      → Yields (IfOk (EndsCounted n)) (continue_or iteration next v)
  unfolding continue_or
  continue_or-EndsCounted iteration left next v p h k = λ info.
      Yields-if (IfOk (EndsCounted n))
        (leb agent_workflow_history_length info.0 || leb agent_workflow_history_size_bytes info.1)
        (ret (ok (continued (carried (suc iteration) v)))) (next v)
        (λ e. (v.telemetry, (refl, (h.0, (omega arith, omega arith))))) (λ e. k v h)

  after_answer-EndsCounted :
      (iteration left : ℕ) (message_id : Text) (r : LlmResult) (v : WorkflowVars)
      (next : WorkflowVars → Fallible LoopEnd) (calls : List ToolCallRequest)
      → suc iteration + left ≡ n
      → IsOnCourse n left v.telemetry
      → ((w : WorkflowVars)
          → IsOnCourse n left w.telemetry
          → Yields (IfOk (EndsCounted n)) (next w))
      → Yields
          (IfOk (EndsCounted n))
          (after_answer cfg input contexts iteration left message_id r v next calls)
  unfolding after_answer answer_with
  after_answer-EndsCounted iteration left message_id r v next [] p h k = inr (inl h.0, omega arith)
  after_answer-EndsCounted iteration left message_id r v next (tc ∷ tcs) p h k =
      Yields-if (IfOk (EndsCounted n)) (left == 0)
        (final_call cfg input contexts message_id iteration v)
        (execute_tools cfg.agent.tool_execution_mode input message_id iteration r.tool_calls
          >>= λ results. and_then results (λ rs.
            save_on_iteration cfg input (after_tools r rs v) >>= continue_or iteration next))
        (λ e.
          let z = (==_iff left 0).0 e in
          final_call-EndsCounted message_id iteration v (h.0, omega arith))
        (λ e.
          Yields-after (EndsCounted n)
            (execute_tools cfg.agent.tool_execution_mode input message_id iteration r.tool_calls) _
            (λ rs.
              Yields-bind (λ w. IsOnCourse n left w.telemetry) (IfOk (EndsCounted n))
                (save_on_iteration cfg input (after_tools r rs v)) (continue_or iteration next)
                (save_on_iteration-IsOnCourse left (after_tools r rs v)
                  (after_tools-IsOnCourse n left r rs v h))
                (λ w q. continue_or-EndsCounted iteration left next w p q k)))

  pub iterate-EndsCounted :
      (left iteration : ℕ) (v : WorkflowVars)
      → iteration + left ≡ n
      → IsOnCourse n left v.telemetry
      → Yields (IfOk (EndsCounted n)) (iterate cfg input contexts iteration left v)
  unfolding iterate after_call
  iterate-EndsCounted zero iteration v p h = inr (inl h.0, omega arith)
  iterate-EndsCounted (suc left) iteration v p h =
      Yields-after (EndsCounted n) (run side_effect_id) _ (λ message_id.
        Yields-after (EndsCounted n)
          (run (
            generate input.conversation_id
              (llm_input cfg input contexts message_id iteration false v.messages)))
          _
          (λ r.
            let a = account-IsOnCourse n left r v h in
            Yields-if (IfOk (EndsCounted n)) (budget_stops r.usage (account r.usage v).token_budget)
              _
              (after_answer cfg input contexts iteration left message_id r (account r.usage v)
                (λ w. iterate cfg input contexts (suc iteration) left w) r.tool_calls)
              (λ e. inr (inr refl, omega arith))
              (λ e.
                after_answer-EndsCounted iteration left message_id r (account r.usage v)
                  (λ w. iterate cfg input contexts (suc iteration) left w) r.tool_calls
                  (omega arith) a
                  (λ w q. iterate-EndsCounted left (suc iteration) w (omega arith) q))))
