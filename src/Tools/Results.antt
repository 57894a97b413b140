-- ===== src/Tools/Results.antt =====
-- The messages of internal/runtime/base/tool_executor.go and of tool_envelope.go, and the decimal
-- numerals in them.
use Prim.Native.Nat.{zero, suc}
use temporal_go_agent_sdk.Prelude.{
  ℕ, ◌+◌, ◌/◌, ◌%◌, Bool, true, false, [], ◌∷◌, ◌++◌, Option, none, some, Text, codes, ltb,
  if◌then◌else◌, ℤ, pos, negsuc, ltb_ℤ, leb_ℤ,
}
use temporal_go_agent_sdk.Interfaces.{Message, MessageRole, ApprovalStatus, rejected, unavailable}
use temporal_go_agent_sdk.Strings.{trim_space}
use temporal_go_agent_sdk.Tools.Envelope.{ToolResultStatus, render_tool_result_envelope}
use temporal_go_agent_sdk.Tools.Failure.{Failure, tool_failure_content}
use temporal_go_agent_sdk.Tools.Truncation.{truncate_tool_output}

abbrev pub msg_tool_rejected : Text
msg_tool_rejected = codes "Tool execution was rejected by the user."

abbrev pub msg_tool_approval_unavailable : Text
msg_tool_approval_unavailable =
    codes
      "Tool approval could not be completed because no approval handler is configured; continuing without running the tool."

abbrev pub msg_tool_unauthorized : Text
msg_tool_unauthorized = codes "Tool execution was denied by authorization policy."

-- Decimal digits; `n + 1` rounds are more than `n` has digits.
digits_from : ℕ → ℕ → Text → Text
digits_from zero n rest = rest
digits_from (suc fuel) n rest = elim (ltb n 10) [
  | true ↦ (48 + n) ∷ rest
  | false ↦ digits_from fuel (n / 10) ((48 + n % 10) ∷ rest)
]

unfoldable pub decimal : ℤ → Text
unfolding digits_from
decimal (pos n) = digits_from (n + 1) n []
decimal (negsuc n) = b'-' ∷ digits_from (n + 2) (n + 1) []

abbrev pub tool_message : Text → Text → Text → Message
tool_message tool_call_id tool_name content = record {
  role = MessageRole.tool;
  content = content;
  tool_name = tool_name;
  tool_call_id = tool_call_id;
  tool_calls = [];
}

unfoldable pub build_tool_result_message_with_limit : Text → Text → Text → ℤ → Message
build_tool_result_message_with_limit tool_call_id tool_name content max_output_tokens =
    tool_message tool_call_id tool_name (
      if ltb_ℤ (pos 0) max_output_tokens
      then truncate_tool_output content max_output_tokens
      else content)

unfoldable pub build_tool_result_message : Text → Text → Text → Message
unfolding build_tool_result_message_with_limit
build_tool_result_message tool_call_id tool_name content =
    build_tool_result_message_with_limit tool_call_id tool_name content (pos 0)

unfoldable pub build_enveloped_tool_result_message : Text → Text → ToolResultStatus → Text → Message
unfolding build_tool_result_message
build_enveloped_tool_result_message tool_call_id tool_name status content =
    build_tool_result_message tool_call_id tool_name
      (render_tool_result_envelope tool_name status content)

unfoldable pub build_tool_error_result_message : Text → Text → Failure → Message
unfolding build_tool_result_message
build_tool_error_result_message tool_call_id tool_name f =
    build_tool_result_message tool_call_id tool_name (tool_failure_content tool_name (some f))

unfoldable pub get_approval_status_message : ApprovalStatus → Text
get_approval_status_message rejected = msg_tool_rejected
get_approval_status_message unavailable = msg_tool_approval_unavailable
get_approval_status_message _ = []

abbrev is_empty : Text → Bool
is_empty [] = true
is_empty (c ∷ s) = false

unfoldable pub format_authorization_denied_message : Text → Text
unfolding trim_space
format_authorization_denied_message reason =
    if is_empty (trim_space reason)
    then msg_tool_unauthorized
    else msg_tool_unauthorized ++ (codes " Reason: " ++ reason)

unfoldable pub build_sub_agent_refused_message : ℤ → Text
unfolding decimal
build_sub_agent_refused_message max_depth =
    codes "Sub-agent delegation refused: maximum nesting depth ("
    ++ (decimal max_depth ++ codes ") reached.")

-- `none` allows the delegation; otherwise the message that refuses it.
unfoldable pub check_sub_agent_depth : ℤ → ℤ → Option Text
unfolding build_sub_agent_refused_message
check_sub_agent_depth current_depth max_depth =
    if leb_ℤ max_depth current_depth then some (build_sub_agent_refused_message max_depth) else none
