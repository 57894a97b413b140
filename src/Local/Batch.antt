-- ===== src/Local/Batch.antt =====
-- A batch of tool calls: `executeToolsParallel` and `executeToolsSequential` of
-- internal/runtime/local/agent_loop.go. An error of one tool becomes its result.
use temporal_go_agent_sdk.Prelude.{ℕ, true, List, [], ◌∷◌, Text, Result, ok, err}
use temporal_go_agent_sdk.Tools.Failure.{Failure}
use temporal_go_agent_sdk.Tools.Results.{build_tool_error_result_message}
use temporal_go_agent_sdk.Local.Types.{ToolCallRequest, ToolResult, AgentConfig, AgentLoopInput}
use temporal_go_agent_sdk.Local.Program.{Program, ret, ◌>>=◌, run_all, side_by_side}
use temporal_go_agent_sdk.Local.Delegation.{Delegates}
use temporal_go_agent_sdk.Local.SingleTool.{execute_single_tool}

abbrev pub settle : ToolCallRequest → Result Failure ToolResult → ToolResult
settle tc (ok r) = r
settle tc (err f) = record {
  message = build_tool_error_result_message tc.tool_call_id tc.tool_name f;
  failed = true;
}

abbrev pub settled :
    (ToolCallRequest → Program (Result Failure ToolResult)) → ToolCallRequest → Program ToolResult
settled execute tc = execute tc >>= λ r. ret (settle tc r)

abbrev pub settled_all :
    (ToolCallRequest → Program (Result Failure ToolResult))
    → List ToolCallRequest
    → List (Program ToolResult)
settled_all execute [] = []
settled_all execute (tc ∷ tcs) = settled execute tc ∷ settled_all execute tcs

unfoldable pub execute_tools_parallel :
    AgentConfig
    → AgentLoopInput
    → Delegates
    → Text
    → ℕ
    → List ToolCallRequest
    → Program (List ToolResult)
unfolding execute_single_tool side_by_side
execute_tools_parallel cfg input delegates message_id iteration tool_calls =
    side_by_side
      (settled_all (execute_single_tool cfg input delegates message_id iteration) tool_calls)

unfoldable pub execute_tools_sequential :
    AgentConfig
    → AgentLoopInput
    → Delegates
    → Text
    → ℕ
    → List ToolCallRequest
    → Program (List ToolResult)
unfolding execute_single_tool run_all
execute_tools_sequential cfg input delegates message_id iteration tool_calls =
    run_all (settled_all (execute_single_tool cfg input delegates message_id iteration) tool_calls)
