-- ===== src/Local/SingleTool.antt =====
-- The life of one tool call: `executeSingleTool` of internal/runtime/local/agent_loop.go.
use temporal_go_agent_sdk.Prelude.{
  ℕ, Bool, true, false, ◌&&◌, not, [], ◌∷◌, ◌++◌, Option, none, some, Text, codes, Result, ok, err,
  if◌then◌else◌,
}
use temporal_go_agent_sdk.Interfaces.{
  Args, ApprovalStatus, none_yet, pending, approved, rejected, unavailable, unknown,
}
use temporal_go_agent_sdk.Tools.Envelope.{ToolResultStatus, render_tool_result_envelope, quote}
use temporal_go_agent_sdk.Tools.Failure.{Failure, plain, wrapped, tool_failure_content}
use temporal_go_agent_sdk.Tools.Results.{
  tool_message, build_tool_result_message, format_authorization_denied_message, msg_tool_rejected,
  msg_tool_approval_unavailable,
}
use temporal_go_agent_sdk.Local.Types.{
  ToolCallRequest, AuthorizeResult, AgentEvent, tool_call_start, tool_call_args, tool_approval,
  sub_agent_delegation, new_id, authorize, execute, register, unregister, handle, await,
  AgentConfig, AgentLoopInput, ToolResult,
}
use temporal_go_agent_sdk.Local.Program.{Program, ret, ask, ◌>>=◌, ◌>>◌}
use temporal_go_agent_sdk.Local.Delegation.{
  Delegate, Delegates, publish_event_to_channel, emit_tool_end_then_result, delegate_to, is_blank,
}

abbrev pub executed_content : ToolCallRequest → Result Failure Text → Text
executed_content tc (ok out) = render_tool_result_envelope tc.tool_name ToolResultStatus.ok out
executed_content tc (err f) = tool_failure_content tc.tool_name (some f)

abbrev pub is_err : {A : Type 0} → Result Failure A → Bool
is_err (ok a) = false
is_err (err f) = true

-- The tool itself, when it is approved: its content, and whether it failed.
unfoldable pub execute_tool :
    AgentConfig → AgentLoopInput → ℕ → ToolCallRequest → Program (Result Failure Text)
execute_tool cfg input iteration tc = ask (
    execute cfg.name (record {
      tool_name = tc.tool_name;
      args = tc.args;
      tool_call_id = tc.tool_call_id;
      run_id = input.run_id;
      iteration = iteration;
    }))

abbrev pub status_name : ApprovalStatus → Text
status_name none_yet = codes "NONE"
status_name pending = codes "PENDING"
status_name approved = codes "APPROVED"
status_name rejected = codes "REJECTED"
status_name unavailable = codes "UNAVAILABLE"
status_name (unknown t) = t

-- `emitToolEndThenResult`, and the result.
unfoldable pub finish_with :
    AgentLoopInput → Text → ToolCallRequest → Text → Bool → Program (Result Failure ToolResult)
unfolding emit_tool_end_then_result
finish_with input message_id tc content failed =
    emit_tool_end_then_result input.channel_name message_id tc.tool_call_id content
    >> ret (
        ok (record {
          message = build_tool_result_message tc.tool_call_id tc.tool_name content;
          failed = failed;
        }))

-- An approved call: the sub-agent's loop, or the tool.
unfoldable pub act_approved :
    AgentConfig
    → AgentLoopInput
    → Option Delegate
    → Text
    → ℕ
    → ToolCallRequest
    → Program (Result Failure ToolResult)
unfolding delegate_to execute_tool finish_with
act_approved cfg input (some d) message_id iteration tc =
    delegate_to input tc d >>= λ content. finish_with input message_id tc content false
act_approved cfg input none message_id iteration tc = execute_tool cfg input iteration tc >>= λ out.
    finish_with input message_id tc (executed_content tc out) (is_err out)

abbrev pub unexpected_status : ToolCallRequest → ApprovalStatus → Failure
unexpected_status tc status = plain (
    codes "unexpected approval status "
    ++ (quote (status_name status) ++ (codes " for tool " ++ quote tc.tool_name)))

-- The `switch` on the approval status.
unfoldable pub act_on_status :
    AgentConfig
    → AgentLoopInput
    → Option Delegate
    → Text
    → ℕ
    → ToolCallRequest
    → ApprovalStatus
    → Program (Result Failure ToolResult)
unfolding act_approved finish_with
act_on_status cfg input route message_id iteration tc approved =
    act_approved cfg input route message_id iteration tc
act_on_status cfg input route message_id iteration tc rejected =
    finish_with input message_id tc msg_tool_rejected false
act_on_status cfg input route message_id iteration tc unavailable =
    finish_with input message_id tc msg_tool_approval_unavailable false
act_on_status cfg input route message_id iteration tc status =
    ret (err (unexpected_status tc status))

abbrev pub approval_event : Text → Option Delegate → ToolCallRequest → Text → AgentEvent
approval_event agent none tc token = tool_approval agent tc token
approval_event agent (some d) tc token = sub_agent_delegation agent tc token

abbrev pub after_await :
    (ApprovalStatus → Program (Result Failure ToolResult))
    → Result Failure ApprovalStatus
    → Program (Result Failure ToolResult)
after_await act (ok status) = act status
after_await act (err f) = ret (err f)

-- Registers the token, and tells the event stream and the handler.
unfoldable pub announce :
    AgentConfig → AgentLoopInput → Option Delegate → ToolCallRequest → Text → Program (Unit {0})
unfolding publish_event_to_channel
announce cfg input route tc token =
    ask (register token)
    >> publish_event_to_channel input.channel_name (approval_event cfg.name route tc token)
    >> (if input.has_approval_handler then ask (handle token tc) else ret tt)

-- Goes on with the answer; the token is deleted at the end on every path.
unfoldable pub resolve :
    ToolCallRequest
    → Text
    → (ApprovalStatus → Program (Result Failure ToolResult))
    → Program (Result Failure ToolResult)
resolve tc token act = ask (await token tc) >>= λ answer.
    after_await act answer >>= λ result. ask (unregister token) >> ret result

-- Asks for approval under a fresh token.
unfoldable pub ask_approval :
    AgentConfig
    → AgentLoopInput
    → Option Delegate
    → ToolCallRequest
    → (ApprovalStatus → Program (Result Failure ToolResult))
    → Program (Result Failure ToolResult)
unfolding announce resolve
ask_approval cfg input route tc act =
    ask new_id >>= λ token. announce cfg input route tc token >> resolve tc token act

-- The approval gate, and what follows it.
unfoldable pub approve_then :
    AgentConfig
    → AgentLoopInput
    → Option Delegate
    → ToolCallRequest
    → (ApprovalStatus → Program (Result Failure ToolResult))
    → Program (Result Failure ToolResult)
unfolding ask_approval
approve_then cfg input route tc act =
    if tc.needs_approval
    then if is_blank input.channel_name && not input.has_approval_handler
      then act unavailable
      else ask_approval cfg input route tc act
    else act approved

-- No event for empty arguments.
abbrev pub emit_args : AgentLoopInput → Text → Args → Program (Unit {0})
emit_args input tool_call_id [] = ret tt
emit_args input tool_call_id (a ∷ more) =
    publish_event_to_channel input.channel_name (tool_call_args tool_call_id (a ∷ more))

-- A denial ends the call with a result that did not fail.
unfoldable pub deny :
    AgentLoopInput → Text → ToolCallRequest → Text → Program (Result Failure ToolResult)
unfolding emit_tool_end_then_result
deny input message_id tc content =
    emit_tool_end_then_result input.channel_name message_id tc.tool_call_id content
    >> ret (
        ok (record { message = tool_message tc.tool_call_id tc.tool_name content; failed = false }))

abbrev pub after_authorize :
    AgentConfig
    → AgentLoopInput
    → Delegates
    → Text
    → ℕ
    → ToolCallRequest
    → Result Failure AuthorizeResult
    → Program (Result Failure ToolResult)
after_authorize cfg input delegates message_id iteration tc (err f) =
    ret (
      err (wrapped (codes "tool authorization error for " ++ (quote tc.tool_name ++ codes ": ")) f))
after_authorize cfg input delegates message_id iteration tc (ok auth) =
    if auth.allowed
    then approve_then cfg input (delegates tc.tool_name) tc
        (act_on_status cfg input (delegates tc.tool_name) message_id iteration tc)
    else deny input message_id tc (format_authorization_denied_message auth.reason)

unfoldable pub execute_single_tool :
    AgentConfig
    → AgentLoopInput
    → Delegates
    → Text
    → ℕ
    → ToolCallRequest
    → Program (Result Failure ToolResult)
unfolding publish_event_to_channel approve_then act_on_status deny
execute_single_tool cfg input delegates message_id iteration tc =
    publish_event_to_channel input.channel_name
      (tool_call_start tc.tool_call_id tc.tool_name message_id)
    >> emit_args input tc.tool_call_id tc.args
    >> (ask (authorize cfg.name tc.tool_name tc.args)
        >>= after_authorize cfg input delegates message_id iteration tc)
