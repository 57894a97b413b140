-- ===== src/Temporal/Safety/Batch.antt =====
-- The batches of the workflow of internal/runtime/temporal/agent_workflow.go: one result for each call,
-- in the order of the calls, whatever the coroutines do.
use temporal_go_agent_sdk.Prelude.{
  ℕ, List, [], ◌∷◌, Text, inl, inr, refl, Result, ok, err, if◌then◌else◌,
}
use temporal_go_agent_sdk.Effects.{ret}
use temporal_go_agent_sdk.Effects.Logic.{
  Extends-one, AllAllowed, AllAllowed-extend, Allowed-bind, Allowed-run_all, Allowed-interleave,
}
use temporal_go_agent_sdk.Effects.Yields.{IfOk}
use temporal_go_agent_sdk.Effects.Frame.{Anything, Allowed-if}
use temporal_go_agent_sdk.Tools.Failure.{Failure}
use temporal_go_agent_sdk.Tools.Results.{
  build_tool_error_result_message, build_tool_result_message, build_tool_result_message_with_limit,
}
use temporal_go_agent_sdk.Local.Types.{
  ToolCallRequest, ToolResult, ToolExecutionMode, unset, parallel, sequential, other,
}
use temporal_go_agent_sdk.Local.Safety.{Member}
use temporal_go_agent_sdk.Local.Safety.Batch.{AnswerAll, IsResultOf, results_of, Settles}
use temporal_go_agent_sdk.Temporal.Types.{
  AgentWorkflowInput, read_unavailable, mark_unavailable, schedule, Workflow, run,
}
use temporal_go_agent_sdk.Temporal.ToolCall.{AgentToolCallOutput, execute_agent_tool_call}
use temporal_go_agent_sdk.Temporal.Batch.{
  settle, is_marking, settled, settled_all, execute_parallel, execute_sequential, all_results,
  execute_tools,
}
use temporal_go_agent_sdk.Temporal.Safety.{
  Event, Permit, Open, Sound, Permit-mono, Requested, Requested-extend,
}
use temporal_go_agent_sdk.Temporal.Safety.ToolCall.{IsOutputFor, execute_agent_tool_call-Sound}

settle-IsResultOf :
    (tc : ToolCallRequest) (r : Result Failure AgentToolCallOutput)
    → IfOk (IsOutputFor tc) r
    → IsResultOf tc (settle tc r)
unfolding settle build_tool_error_result_message build_tool_result_message
    build_tool_result_message_with_limit
settle-IsResultOf tc (ok out) h = h
settle-IsResultOf tc (err f) h = (refl, refl, refl)

module _ (input : AgentWorkflowInput) (message_id : Text) (iteration : ℕ) where
  settled-Sound :
      (t : List Event) (tc : ToolCallRequest)
      → Requested t tc
      → Sound input (IsResultOf tc) t (settled input message_id iteration tc)
  unfolding settled
  settled-Sound t tc req = (
    tt,
    λ gone r.
        Allowed-bind (Permit input) Open (IfOk (IsOutputFor tc)) (IsResultOf tc) _
          (execute_agent_tool_call input message_id iteration tc gone) _
          (execute_agent_tool_call-Sound input message_id iteration tc
            ((read_unavailable, gone) ∷ t) gone
            (Requested-extend t ((read_unavailable, gone) ∷ t) tc (λ e k. inr k) req))
          (λ u e out p.
            Allowed-bind (Permit input) Open Anything (IsResultOf tc) u
              (if is_marking out then run mark_unavailable else ret tt) (λ x. ret (settle tc out))
              (Allowed-if (Permit input) Open Anything u (is_marking out) (run mark_unavailable)
                (ret tt) (λ b. (tt, λ x s. tt)) (λ b. tt))
              (λ v f x q. settle-IsResultOf tc out p)),
  )

  settled_all-Sound :
      (t : List Event) (tcs : List ToolCallRequest)
      → ((tc : ToolCallRequest) → Member tc tcs → Requested t tc)
      → AllAllowed
          (Permit input)
          Open
          (results_of tcs)
          t
          (settled_all input message_id iteration tcs)
  settled_all-Sound t [] req = tt
  settled_all-Sound t (tc ∷ tcs) req =
      (settled-Sound t tc (req tc (inl refl)), settled_all-Sound t tcs (λ d m. req d (inr m)))

  all_results-Sound :
      (S : Result Failure (List ToolResult) → Type 0) (t : List Event) (tcs : List ToolCallRequest)
      (m : Workflow (List ToolResult))
      → ((rs : List ToolResult) → AnswerAll tcs rs → S (ok rs))
      → Sound input (AnswerAll tcs) t m
      → Sound input S t (all_results m)
  all_results-Sound S t tcs m k h =
      Allowed-bind (Permit input) Open (AnswerAll tcs) S t m _ h (λ u e rs p. k rs p)

  execute_parallel-Sound :
      (t : List Event) (tcs : List ToolCallRequest)
      → ((tc : ToolCallRequest) → Member tc tcs → Requested t tc)
      → Sound input (AnswerAll tcs) t (execute_parallel input message_id iteration tcs)
  unfolding execute_parallel
  execute_parallel-Sound t tcs req = (
    tt,
    λ is r.
        let u = (schedule _, is) ∷ t in
        Allowed-interleave (Permit input) Open (Permit-mono input) is (results_of tcs) u
          (settled_all input message_id iteration tcs)
          (AllAllowed-extend (Permit input) Open (Permit-mono input) (results_of tcs) t u
            (settled_all input message_id iteration tcs) (Extends-one (schedule _, is) t)
            (settled_all-Sound t tcs req)),
  )

  -- A batch of the workflow, whatever the activities answer and however the coroutines interleave:
  -- when the model asked for each of its calls, it ends, in a parallel, sequential or unset mode, in
  -- as many results as calls, each a tool message with the id and the name of the call at its place,
  -- whatever fails in between; in any other mode it ends in the error that names the mode. All that it
  -- starts is permitted.
  pub execute_batch-Sound :
      (mode : ToolExecutionMode) (t : List Event) (tcs : List ToolCallRequest)
      → ((tc : ToolCallRequest) → Member tc tcs → Requested t tc)
      → Sound input (Settles mode tcs) t (execute_tools mode input message_id iteration tcs)
  unfolding execute_tools execute_sequential
  execute_batch-Sound unset t tcs req =
      all_results-Sound (Settles unset tcs) t tcs (execute_parallel input message_id iteration tcs)
        (λ rs h. h) (execute_parallel-Sound t tcs req)
  execute_batch-Sound parallel t tcs req =
      all_results-Sound (Settles parallel tcs) t tcs
        (execute_parallel input message_id iteration tcs) (λ rs h. h)
        (execute_parallel-Sound t tcs req)
  execute_batch-Sound sequential t tcs req =
      all_results-Sound (Settles sequential tcs) t tcs
        (execute_sequential input message_id iteration tcs) (λ rs h. h)
        (Allowed-run_all (Permit input) Open (Permit-mono input) (results_of tcs) t
          (settled_all input message_id iteration tcs) (settled_all-Sound t tcs req))
  execute_batch-Sound (other mode) t tcs req = refl
