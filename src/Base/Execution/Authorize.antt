-- ===== src/Base/Execution/Authorize.antt =====
-- Authorizing a tool: AuthorizeTool of internal/runtime/base/runtime.go.
use temporal_go_agent_sdk.Prelude.{
  true, false, List, [], Option, none, some, Text, Result, ok, err, if◌then◌else◌,
}
use temporal_go_agent_sdk.Strings.{trim_space}
use temporal_go_agent_sdk.Interfaces.{Args}
use temporal_go_agent_sdk.Tools.Failure.{Failure}
use temporal_go_agent_sdk.Local.Types.{AuthorizeResult}
use temporal_go_agent_sdk.Base.Request.{Tool, find_tool_by_name}
use temporal_go_agent_sdk.Base.Execution.{
  ToolAuthorizationDecision, ToolRuntime, and_next, unknown_tool,
}

unfoldable pub authorize_result : ToolAuthorizationDecision → AuthorizeResult
unfolding trim_space
authorize_result decision =
    if decision.allow
    then record { allowed = true; reason = [] }
    else record { allowed = false; reason = trim_space decision.reason }

abbrev pub decided :
    {W : Type 0} → Result Failure ToolAuthorizationDecision × W → Result Failure AuthorizeResult × W
decided p = and_next p (λ decision w. (ok (authorize_result decision), w))

-- A tool without an authorizer is allowed.
abbrev pub asked :
    {W : Type 0}
    → Option (Args → W → Result Failure ToolAuthorizationDecision × W)
    → Args
    → W
    → Result Failure AuthorizeResult × W
asked none args w = (ok (record { allowed = true; reason = [] }), w)
asked (some authorize) args w = decided (authorize args w)

abbrev pub authorize_found :
    {W : Type 0}
    → ToolRuntime W
    → Text
    → Option Tool
    → Args
    → W
    → Result Failure AuthorizeResult × W
authorize_found rt tool_name none args w = (err (unknown_tool tool_name), w)
authorize_found rt tool_name (some tool) args w = asked (rt.authorizer tool) args w

unfoldable pub authorize_tool :
    {W : Type 0} → ToolRuntime W → List Tool → Text → Args → W → Result Failure AuthorizeResult × W
unfolding find_tool_by_name authorize_result
authorize_tool rt tools tool_name args w =
    authorize_found rt tool_name (find_tool_by_name tools tool_name) args w
