-- ===== src/Temporal/Batch.antt =====
-- A batch of tool calls of the workflow: the `switch` on the tool execution mode in AgentWorkflow of
-- internal/runtime/temporal/agent_workflow.go. What a read of `streamingUnavailable` answers is left
-- open, so that it may have been set by any coroutine.
use temporal_go_agent_sdk.Prelude.{
  ℕ, Bool, true, false, List, [], ◌∷◌, ◌++◌, length, Text, codes, Result, ok, err, if◌then◌else◌,
}
use temporal_go_agent_sdk.Effects.{ret, call, ◌>>=◌, ◌>>◌, run_all, interleave}
use temporal_go_agent_sdk.Tools.Envelope.{quote}
use temporal_go_agent_sdk.Tools.Failure.{Failure, plain}
use temporal_go_agent_sdk.Tools.Results.{build_tool_error_result_message}
use temporal_go_agent_sdk.Local.Types.{
  ToolCallRequest, ToolResult, ToolExecutionMode, unset, parallel, sequential, other,
}
use temporal_go_agent_sdk.Temporal.Types.{
  AgentWorkflowInput, read_unavailable, mark_unavailable, schedule, Workflow, run, Fallible,
}
use temporal_go_agent_sdk.Temporal.ToolCall.{AgentToolCallOutput, execute_agent_tool_call}

-- An error becomes the message that the model sees.
unfoldable pub settle : ToolCallRequest → Result Failure AgentToolCallOutput → ToolResult
settle tc (ok out) = record { message = out.msg; failed = out.failed }
settle tc (err f) = record {
  message = build_tool_error_result_message tc.tool_call_id tc.tool_name f;
  failed = true;
}

abbrev pub is_marking : Result Failure AgentToolCallOutput → Bool
is_marking (ok out) = out.streaming_unavailable
is_marking (err f) = false

-- A call with the value that the variable has at its start; what it returns is settled, and an output
-- that says so sets the variable.
unfoldable pub settled : AgentWorkflowInput → Text → ℕ → ToolCallRequest → Workflow ToolResult
unfolding execute_agent_tool_call settle
settled input message_id iteration tc = run read_unavailable >>= λ gone.
    execute_agent_tool_call input message_id iteration tc gone >>= λ out.
    (if is_marking out then run mark_unavailable else ret tt) >> ret (settle tc out)

abbrev pub settled_all :
    AgentWorkflowInput → Text → ℕ → List ToolCallRequest → List (Workflow ToolResult)
settled_all input message_id iteration [] = []
settled_all input message_id iteration (tc ∷ tcs) =
    settled input message_id iteration tc ∷ settled_all input message_id iteration tcs

-- One coroutine for each call; the results are collected in the order of the calls.
unfoldable pub execute_parallel :
    AgentWorkflowInput → Text → ℕ → List ToolCallRequest → Workflow (List ToolResult)
unfolding settled interleave
execute_parallel input message_id iteration tcs =
    call (schedule (length tcs)) (λ is. interleave is (settled_all input message_id iteration tcs))

unfoldable pub execute_sequential :
    AgentWorkflowInput → Text → ℕ → List ToolCallRequest → Workflow (List ToolResult)
unfolding settled run_all
execute_sequential input message_id iteration tcs =
    run_all (settled_all input message_id iteration tcs)

abbrev pub all_results : Workflow (List ToolResult) → Fallible (List ToolResult)
all_results m = m >>= λ rs. ret (ok rs)

unfoldable pub execute_tools :
    ToolExecutionMode
    → AgentWorkflowInput
    → Text
    → ℕ
    → List ToolCallRequest
    → Fallible (List ToolResult)
unfolding execute_parallel execute_sequential
execute_tools unset input message_id iteration tcs =
    all_results (execute_parallel input message_id iteration tcs)
execute_tools parallel input message_id iteration tcs =
    all_results (execute_parallel input message_id iteration tcs)
execute_tools sequential input message_id iteration tcs =
    all_results (execute_sequential input message_id iteration tcs)
execute_tools (other mode) input message_id iteration tcs = ret (
    err (
      plain (
        codes "invalid tool execution mode "
        ++ (quote mode ++ codes ": use \"parallel\" or \"sequential\""))))
