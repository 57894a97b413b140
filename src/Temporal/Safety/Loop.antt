-- ===== src/Temporal/Safety/Loop.antt =====
-- The iterations of AgentWorkflow of internal/runtime/temporal/agent_workflow.go keep the messages a
-- dialog, and hand a dialog on to the next run.
use temporal_go_agent_sdk.Prelude.{
  ℕ, zero, suc, false, ◌&&◌, ◌||◌, ◌==◌, leb, List, [], ◌∷◌, Text, inl, refl, Option, none, some,
  ok, if◌then◌else◌,
}
use temporal_go_agent_sdk.Interfaces.{role_eq}
use temporal_go_agent_sdk.Effects.{ret, ◌>>=◌, and_then}
use temporal_go_agent_sdk.Effects.Logic.{Allowed-bind}
use temporal_go_agent_sdk.Effects.Yields.{IfOk}
use temporal_go_agent_sdk.Effects.Frame.{Allowed-imply, Allowed-if, Allowed-after, Allowed-answer}
use temporal_go_agent_sdk.Tools.Failure.{Failure}
use temporal_go_agent_sdk.Base.Telemetry.{FinishReason}
use temporal_go_agent_sdk.Local.Types.{ToolCallRequest, ToolResult, LlmResult}
use temporal_go_agent_sdk.Local.Loop.{Contexts, assistant_message, finish_for}
use temporal_go_agent_sdk.Local.Safety.{IsDialog, IsDialog-append, Member}
use temporal_go_agent_sdk.Local.Safety.Batch.{Settles, Settles-IfOk, AnswerAll, AnswerAll-IsDialog}
use temporal_go_agent_sdk.Temporal.Types.{
  AgentWorkflowInput, WorkflowConfig, generate, add_messages, Fallible, run,
}
use temporal_go_agent_sdk.Temporal.Batch.{execute_tools}
use temporal_go_agent_sdk.Temporal.Workflow.{
  WorkflowVars, LoopEnd, stopped, continued, conversation_memory_enabled, llm_input, account,
  budget_stops, answer_with, final_vars, final_call, after_tools, is_none, has_messages,
  save_on_iteration, carried, continue_or, after_answer, after_call, iterate,
  agent_workflow_history_length, agent_workflow_history_size_bytes,
}
use temporal_go_agent_sdk.Temporal.Safety.{Event, Permit, Open, Sound, Requested}
use temporal_go_agent_sdk.Temporal.Safety.Batch.{execute_batch-Sound}

abbrev pub HasDialog : WorkflowVars → Type 0
HasDialog v = IsDialog [] v.messages

abbrev pub EndsInDialog : LoopEnd → Type 0
EndsInDialog (stopped v) = HasDialog v
EndsInDialog (continued s) = IsDialog [] s.messages

answer_with-HasDialog :
    (content : Text) (v : WorkflowVars) → HasDialog v → HasDialog (answer_with content v)
unfolding answer_with role_eq
answer_with-HasDialog content v h =
    IsDialog-append [] v.messages (assistant_message content [] ∷ []) h (refl, tt)

after_tools-HasDialog :
    (r : LlmResult) (rs : List ToolResult) (v : WorkflowVars)
    → HasDialog v
    → AnswerAll r.tool_calls rs
    → HasDialog (after_tools r rs v)
unfolding after_tools role_eq
after_tools-HasDialog r rs v h k =
    IsDialog-append [] v.messages _ h (refl, AnswerAll-IsDialog r.tool_calls rs k)

saved-HasDialog :
    (answer : Option Failure) (v : WorkflowVars)
    → HasDialog v
    → HasDialog (if is_none answer then record v { messages = [] } else v)
saved-HasDialog none v h = tt
saved-HasDialog (some f) v h = h

module _ (cfg : WorkflowConfig) (input : AgentWorkflowInput) where
  save_on_iteration-Sound :
      (t : List Event) (v : WorkflowVars)
      → HasDialog v
      → Sound input HasDialog t (save_on_iteration cfg input v)
  unfolding save_on_iteration
  save_on_iteration-Sound t v h =
      Allowed-if (Permit input) Open HasDialog t
        (conversation_memory_enabled cfg input.conversation_id
          && (cfg.agent.conversation_save_on_iteration && has_messages v.messages))
        (run (add_messages input.conversation_id v.messages) >>= λ answer.
          ret (if is_none answer then record v { messages = [] } else v))
        (ret v) (λ e. (h, λ answer r. saved-HasDialog answer v h)) (λ e. h)

  continue_or-Sound :
      (t : List Event) (iteration : ℕ) (next : WorkflowVars → Fallible LoopEnd) (v : WorkflowVars)
      → HasDialog v
      → ((u : List Event) (w : WorkflowVars)
          → HasDialog w
          → Sound input (IfOk EndsInDialog) u (next w))
      → Sound input (IfOk EndsInDialog) t (continue_or iteration next v)
  unfolding continue_or
  continue_or-Sound t iteration next v h k = (
    tt,
    λ info r.
        Allowed-if (Permit input) Open (IfOk EndsInDialog) _
          (leb agent_workflow_history_length info.0 || leb agent_workflow_history_size_bytes info.1)
          (ret (ok (continued (carried (suc iteration) v)))) (next v) (λ e. h) (λ e. k _ v h),
  )

  module _ (contexts : Contexts) where
    final_call-Sound :
        (t : List Event) (message_id : Text) (iteration : ℕ) (v : WorkflowVars)
        → HasDialog v
        → Sound input (IfOk EndsInDialog) t (final_call cfg input contexts message_id iteration v)
    unfolding final_call final_vars
    final_call-Sound t message_id iteration v h = (
      h,
      λ answer r.
          Allowed-answer (Permit input) Open EndsInDialog _ answer _
            (λ a p. answer_with-HasDialog a.content v h),
    )

    after_answer-Sound :
        (t : List Event) (iteration left : ℕ) (message_id : Text) (r : LlmResult) (v : WorkflowVars)
        (next : WorkflowVars → Fallible LoopEnd) (tcs : List ToolCallRequest)
        → HasDialog v
        → ((tc : ToolCallRequest) → Member tc r.tool_calls → Requested t tc)
        → ((u : List Event) (w : WorkflowVars)
            → HasDialog w
            → Sound input (IfOk EndsInDialog) u (next w))
        → Sound input
            (IfOk EndsInDialog)
            t
            (after_answer cfg input contexts iteration left message_id r v next tcs)
    unfolding after_answer
    after_answer-Sound t iteration left message_id r v next [] h req k =
        answer_with-HasDialog r.content v h
    after_answer-Sound t iteration left message_id r v next (tc ∷ tcs) h req k =
        Allowed-if (Permit input) Open (IfOk EndsInDialog) t (left == 0)
          (final_call cfg input contexts message_id iteration v)
          (execute_tools cfg.agent.tool_execution_mode input message_id iteration r.tool_calls
            >>= λ results. and_then results (λ rs.
              save_on_iteration cfg input (after_tools r rs v) >>= continue_or iteration next))
          (λ e. final_call-Sound t message_id iteration v h)
          (λ e.
            Allowed-after (Permit input) Open (AnswerAll r.tool_calls) EndsInDialog t
              (execute_tools cfg.agent.tool_execution_mode input message_id iteration r.tool_calls)
              (λ rs.
                save_on_iteration cfg input (after_tools r rs v) >>= continue_or iteration next)
              (Allowed-imply (Permit input) Open
                (Settles cfg.agent.tool_execution_mode r.tool_calls) (IfOk (AnswerAll r.tool_calls))
                t
                (execute_tools cfg.agent.tool_execution_mode input message_id iteration
                  r.tool_calls)
                (execute_batch-Sound input message_id iteration cfg.agent.tool_execution_mode t
                  r.tool_calls req)
                (Settles-IfOk cfg.agent.tool_execution_mode r.tool_calls))
              (λ u f rs p.
                Allowed-bind (Permit input) Open HasDialog (IfOk EndsInDialog) u
                  (save_on_iteration cfg input (after_tools r rs v)) (continue_or iteration next)
                  (save_on_iteration-Sound u _ (after_tools-HasDialog r rs v h p))
                  (λ x g w q. continue_or-Sound x iteration next w q k)))

    pub iterate-Sound :
        (left iteration : ℕ) (v : WorkflowVars) (t : List Event)
        → HasDialog v
        → Sound input (IfOk EndsInDialog) t (iterate cfg input contexts iteration left v)
    unfolding iterate after_call account
    iterate-Sound zero iteration v t h = h
    iterate-Sound (suc left) iteration v t h = (
      tt,
      λ id r0. Allowed-answer (Permit input) Open EndsInDialog _ id _ (λ message_id p0. (
        h,
        λ answer r1. Allowed-answer (Permit input) Open EndsInDialog _ answer _ (λ r e.
            Allowed-if (Permit input) Open (IfOk EndsInDialog) _
              (budget_stops r.usage (account r.usage v).token_budget)
              (ret (
                ok (
                  stopped (record (account r.usage v) {
                    telemetry = finish_for FinishReason.token_budget (account r.usage v).telemetry;
                  }))))
              (after_answer cfg input contexts iteration left message_id r (account r.usage v)
                (λ w. iterate cfg input contexts (suc iteration) left w) r.tool_calls)
              (λ b. h)
              (λ b.
                after_answer-Sound _ iteration left message_id r (account r.usage v) _ r.tool_calls
                  h
                  (λ tc m. (
                    input.conversation_id,
                    (
                      llm_input cfg input contexts message_id iteration false v.messages,
                      (
                        r,
                        (
                          inl (λ i. (
                            generate input.conversation_id (
                                llm_input cfg input contexts message_id iteration false v.messages),
                            e i,
                          )),
                          m,
                        ),
                      ),
                    ),
                  ))
                  (λ u w q. iterate-Sound left (suc iteration) w u q))),
      )),
    )
