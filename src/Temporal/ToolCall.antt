-- ===== src/Temporal/ToolCall.antt =====
-- One tool call of the workflow: `executeAgentToolCall` and `delegateToSubAgent` of
-- internal/runtime/temporal/agent_workflow.go.
use temporal_go_agent_sdk.Prelude.{
  ℕ, Bool, true, false, [], ◌++◌, Option, none, some, Text, codes, ℤ, pos, leb_ℤ, add_int64, Result,
  ok, err, if◌then◌else◌,
}
use temporal_go_agent_sdk.Interfaces.{ApprovalStatus, approved, rejected, unavailable, Message}
use temporal_go_agent_sdk.Strings.{trim_space}
use temporal_go_agent_sdk.Effects.{ret, ◌>>=◌, and_then}
use temporal_go_agent_sdk.Tools.Envelope.{quote}
use temporal_go_agent_sdk.Tools.Failure.{Failure, plain, error_text}
use temporal_go_agent_sdk.Tools.Results.{
  decimal, tool_message, build_tool_result_message, format_authorization_denied_message,
  msg_tool_rejected,
}
use temporal_go_agent_sdk.Local.Types.{
  ToolCallRequest, AuthorizeResult, ExecuteToolInput, tool_call_start, step_started, step_finished,
}
use temporal_go_agent_sdk.Local.Delegation.{is_blank, sub_agent_query, sub_agent_scope}
use temporal_go_agent_sdk.Local.SingleTool.{executed_content, is_err, status_name}
use temporal_go_agent_sdk.Temporal.Types.{
  SubAgentRoute, find_route, route_name, route_task_queue, route_fingerprint, route_children,
  AgentWorkflowInput, AgentRunResult, side_effect_id, authorize, approve, execute, run_child, run,
  Fallible,
}
use temporal_go_agent_sdk.Temporal.Events.{emit_agent_event, emit_args, emit_tool_end_then_result}

pub record AgentToolCallOutput : Type 0 where
  pub msg : Message
  pub failed : Bool
  pub streaming_unavailable : Bool

abbrev pub msg_tool_approval_unavailable : Text
msg_tool_approval_unavailable =
    codes
      "Tool approval could not be completed because the event stream is unavailable; continuing without running the tool."

abbrev pub refused_for_depth : ℤ → Text
refused_for_depth max_depth =
    codes "Sub-agent delegation refused: maximum nesting depth ("
    ++ (decimal max_depth ++ codes ") reached for this agent.")

-- The name of the route without blanks at its ends, or the name of the tool.
abbrev pub step_name : SubAgentRoute → ToolCallRequest → Text
step_name r tc =
    if is_blank (trim_space (route_name r)) then tc.tool_name else trim_space (route_name r)

-- `childInput`. It sets no `MaxSubAgentDepth` and no `State`.
unfoldable pub child_input :
    AgentWorkflowInput → ToolCallRequest → SubAgentRoute → Text → AgentWorkflowInput
unfolding sub_agent_query sub_agent_scope
child_input input tc r child_suffix = record {
  user_prompt = sub_agent_query tc.args;
  event_workflow_id = input.event_workflow_id;
  event_task_queue = input.event_task_queue;
  local_channel_name = input.local_channel_name;
  streaming_enabled = input.streaming_enabled;
  conversation_id = [];
  agent_fingerprint = route_fingerprint r;
  run_id = child_suffix;
  memory_scope = sub_agent_scope input.memory_scope (step_name r tc);
  event_types = input.event_types;
  sub_agent_depth = add_int64 input.sub_agent_depth (pos 1);
  sub_agent_routes = route_children r;
  max_sub_agent_depth = pos 0;
  state = none;
}

-- A child that fails ends no step.
abbrev pub after_child : AgentWorkflowInput → Text → Result Failure AgentRunResult → Fallible Text
after_child input step (err f) = ret (ok (codes "Sub-agent workflow failed: " ++ error_text f))
after_child input step (ok result) = emit_agent_event input (step_finished step) >>= λ sent.
    and_then sent (λ u. ret (ok result.content))

unfoldable pub start_child :
    AgentWorkflowInput → ToolCallRequest → SubAgentRoute → Text → Fallible Text
unfolding emit_agent_event child_input
start_child input tc r child_suffix =
    emit_agent_event input (step_started (step_name r tc)) >>= λ sent. and_then sent (λ u.
      run (run_child (route_task_queue r) (child_input input tc r child_suffix))
      >>= after_child input (step_name r tc))

unfoldable pub delegate_to_sub_agent :
    AgentWorkflowInput → ToolCallRequest → SubAgentRoute → Fallible Text
unfolding start_child
delegate_to_sub_agent input tc r =
    if is_blank (trim_space (route_task_queue r))
    then ret (ok (codes "Sub-agent delegation failed: sub-agent task queue is not configured."))
    else if leb_ℤ input.max_sub_agent_depth input.sub_agent_depth
    then ret (ok (refused_for_depth input.max_sub_agent_depth))
    else run side_effect_id >>= λ id. and_then id (start_child input tc r)

-- `emitToolEndThenResult`, and the output.
unfoldable pub finish_with :
    AgentWorkflowInput → Text → ToolCallRequest → Text → Bool → Bool → Fallible AgentToolCallOutput
unfolding emit_tool_end_then_result
finish_with input message_id tc content failed mark =
    emit_tool_end_then_result input message_id tc.tool_call_id content >>= λ sent.
    and_then sent (λ u. ret (
      ok (record {
        msg = build_tool_result_message tc.tool_call_id tc.tool_name content;
        failed = failed;
        streaming_unavailable = mark;
      })))

abbrev pub execute_input : AgentWorkflowInput → ℕ → ToolCallRequest → ExecuteToolInput
execute_input input iteration tc = record {
  tool_name = tc.tool_name;
  args = tc.args;
  tool_call_id = tc.tool_call_id;
  run_id = input.run_id;
  iteration = iteration;
}

-- An approved call: the child workflow, or the tool.
unfoldable pub act_approved :
    AgentWorkflowInput
    → Text
    → ℕ
    → ToolCallRequest
    → Option SubAgentRoute
    → Fallible AgentToolCallOutput
unfolding delegate_to_sub_agent finish_with
act_approved input message_id iteration tc (some r) =
    delegate_to_sub_agent input tc r >>= λ content.
    and_then content (λ c. finish_with input message_id tc c false false)
act_approved input message_id iteration tc none =
    run (execute (execute_input input iteration tc)) >>= λ out.
    finish_with input message_id tc (executed_content tc out) (is_err out) false

abbrev pub unexpected_status : ToolCallRequest → ApprovalStatus → Failure
unexpected_status tc status = plain (
    codes "workflow: unexpected approval status "
    ++ (quote (status_name status) ++ (codes " for tool " ++ quote tc.tool_name)))

-- The `switch` on the approval status; `asked` says whether an activity gave it.
unfoldable pub act_on_status :
    AgentWorkflowInput
    → Text
    → ℕ
    → ToolCallRequest
    → Bool
    → ApprovalStatus
    → Fallible AgentToolCallOutput
unfolding act_approved finish_with find_route
act_on_status input message_id iteration tc asked approved =
    act_approved input message_id iteration tc (find_route input.sub_agent_routes tc.tool_name)
act_on_status input message_id iteration tc asked rejected =
    finish_with input message_id tc msg_tool_rejected false false
act_on_status input message_id iteration tc asked unavailable =
    finish_with input message_id tc msg_tool_approval_unavailable false asked
act_on_status input message_id iteration tc asked status = ret (err (unexpected_status tc status))

abbrev pub sub_agent_name : Option SubAgentRoute → Text
sub_agent_name none = []
sub_agent_name (some r) = route_name r

-- The approval gate. Where the stream is known to be unavailable nobody is asked.
unfoldable pub approve_then :
    AgentWorkflowInput
    → ToolCallRequest
    → Bool
    → (Bool → ApprovalStatus → Fallible AgentToolCallOutput)
    → Fallible AgentToolCallOutput
unfolding find_route
approve_then input tc stream_gone act =
    if tc.needs_approval
    then if stream_gone
      then act false unavailable
      else (run (approve tc (sub_agent_name (find_route input.sub_agent_routes tc.tool_name)))
          >>= λ status. and_then status (act true))
    else act false approved

unfoldable pub deny :
    AgentWorkflowInput → Text → ToolCallRequest → Text → Fallible AgentToolCallOutput
unfolding emit_tool_end_then_result
deny input message_id tc content =
    emit_tool_end_then_result input message_id tc.tool_call_id content >>= λ sent.
    and_then sent (λ u. ret (
      ok (record {
        msg = tool_message tc.tool_call_id tc.tool_name content;
        failed = false;
        streaming_unavailable = false;
      })))

unfoldable pub after_authorize :
    AgentWorkflowInput
    → Text
    → ℕ
    → ToolCallRequest
    → Bool
    → AuthorizeResult
    → Fallible AgentToolCallOutput
unfolding approve_then act_on_status deny
after_authorize input message_id iteration tc stream_gone auth =
    if auth.allowed
    then approve_then input tc stream_gone (act_on_status input message_id iteration tc)
    else deny input message_id tc (format_authorization_denied_message auth.reason)

unfoldable pub execute_agent_tool_call :
    AgentWorkflowInput → Text → ℕ → ToolCallRequest → Bool → Fallible AgentToolCallOutput
unfolding emit_agent_event
execute_agent_tool_call input message_id iteration tc stream_gone =
    emit_agent_event input (tool_call_start tc.tool_call_id tc.tool_name message_id) >>= λ started.
    and_then started (λ u. emit_args input tc.tool_call_id tc.args >>= λ shown. and_then shown (λ v.
      run (authorize tc.tool_name tc.args) >>= λ auth.
      and_then auth (after_authorize input message_id iteration tc stream_gone)))
