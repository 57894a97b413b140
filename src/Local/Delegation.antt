-- ===== src/Local/Delegation.antt =====
-- What an approved delegation to a sub-agent runs, and the events: `publishEventToChannel` and the
-- delegation of `executeSingleTool` in internal/runtime/local/agent_loop.go, with the event bus
-- present; `SubAgentQuery` and `SubAgentScope` of internal/runtime/base/utils.go.
use temporal_go_agent_sdk.Prelude.{
  Bool, true, false, ◌||◌, not, [], ◌∷◌, ◌++◌, Option, none, some, Text, codes, Dict, lookup,
  insert, pos, add_int64, Result, ok, err, if◌then◌else◌,
}
use temporal_go_agent_sdk.Interfaces.{Args, str, other}
use temporal_go_agent_sdk.Strings.{trim_space}
use temporal_go_agent_sdk.Tools.Failure.{Failure, error_text}
use temporal_go_agent_sdk.Tools.Results.{check_sub_agent_depth}
use temporal_go_agent_sdk.Local.Types.{
  ToolCallRequest, MemoryScope, AgentEvent, tool_call_end, tool_call_result, step_started,
  step_finished, new_id, emit, AgentLoopInput, AgentLoopResult,
}
use temporal_go_agent_sdk.Local.Program.{Program, ret, ask, ◌>>=◌, ◌>>◌}

abbrev pub is_blank : Text → Bool
is_blank [] = true
is_blank (c ∷ s) = false

unfoldable pub publish_event_to_channel : Text → AgentEvent → Program (Unit {0})
publish_event_to_channel channel_name ev =
    if is_blank (trim_space channel_name) then ret tt else ask (emit channel_name ev)

unfoldable pub sub_agent_query : Args → Text
sub_agent_query args = elim (lookup (codes "query") args) [
  | some (str q) ↦ q
  | some (other json) ↦ []
  | none ↦ []
]

abbrev has_tags : Dict Text → Bool
has_tags [] = false
has_tags (t ∷ ts) = true

unfoldable pub sub_agent_scope : MemoryScope → Text → MemoryScope
unfolding trim_space
sub_agent_scope parent sub_agent_id = record {
  tenant_id = parent.tenant_id;
  user_id = parent.user_id;
  agent_id = trim_space sub_agent_id;
  tags =
      if not (is_blank parent.agent_id) || has_tags parent.tags
      then if is_blank parent.agent_id
        then parent.tags
        else insert (codes "parent_agent_id") parent.agent_id parent.tags
      else [];
}

-- A route of `SubAgentRoutes`, with the loop that its runtime runs over the route's own tools and
-- children; a route may have no runtime.
pub record Delegate : Type 0 where
  pub name : Text
  pub run : Option (AgentLoopInput → Program (Result Failure AgentLoopResult))

abbrev pub Delegates : Type 0
Delegates = Text → Option Delegate

unfoldable pub emit_tool_end_then_result : Text → Text → Text → Text → Program (Unit {0})
emit_tool_end_then_result channel_name message_id tool_call_id content =
    publish_event_to_channel channel_name (tool_call_end tool_call_id)
    >> publish_event_to_channel channel_name (tool_call_result message_id tool_call_id content)

abbrev pub step_name : Delegate → ToolCallRequest → Text
step_name d tc = if is_blank (trim_space d.name) then tc.tool_name else trim_space d.name

abbrev pub sub_input : AgentLoopInput → Text → ToolCallRequest → Text → AgentLoopInput
sub_input input step tc run_id = record {
  user_prompt = sub_agent_query tc.args;
  conversation_id = [];
  streaming_enabled = input.streaming_enabled;
  channel_name = input.channel_name;
  has_approval_handler = input.has_approval_handler;
  sub_agent_depth = add_int64 input.sub_agent_depth (pos 1);
  max_sub_agent_depth = input.max_sub_agent_depth;
  memory_scope = sub_agent_scope input.memory_scope step;
  run_id = run_id;
}

abbrev pub delegated_content : Result Failure AgentLoopResult → Text
delegated_content (ok r) = r.content
delegated_content (err f) = codes "Sub-agent execution failed: " ++ error_text f

-- The content of an approved delegation: a refusal, or what the sub-agent's loop returns.
abbrev pub delegate_unless :
    AgentLoopInput
    → ToolCallRequest
    → Text
    → Option Text
    → Option (AgentLoopInput → Program (Result Failure AgentLoopResult))
    → Program Text
delegate_unless input tc step (some msg) run = ret msg
delegate_unless input tc step none none =
    ret (codes "Sub-agent delegation not available for this runtime.")
delegate_unless input tc step none (some run) =
    publish_event_to_channel input.channel_name (step_started step)
    >> (ask new_id >>= λ run_id. run (sub_input input step tc run_id) >>= λ sub_result.
        publish_event_to_channel input.channel_name (step_finished step)
        >> ret (delegated_content sub_result))

unfoldable pub delegate_to : AgentLoopInput → ToolCallRequest → Delegate → Program Text
delegate_to input tc d =
    delegate_unless input tc (step_name d tc)
      (check_sub_agent_depth input.sub_agent_depth input.max_sub_agent_depth) d.run
