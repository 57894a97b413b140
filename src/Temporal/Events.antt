-- ===== src/Temporal/Events.antt =====
-- `emitAgentEvent` of AgentWorkflow in internal/runtime/temporal/agent_workflow.go, and the types of
-- events of internal/events/events.go.
use temporal_go_agent_sdk.Prelude.{
  Bool, true, false, ◌||◌, List, [], ◌∷◌, Text, codes, text_eq, Result, ok, err, if◌then◌else◌,
}
use temporal_go_agent_sdk.Interfaces.{Args}
use temporal_go_agent_sdk.Effects.{ret, ◌>>=◌, ◌>>◌, and_then}
use temporal_go_agent_sdk.Tools.Failure.{Failure}
use temporal_go_agent_sdk.Local.Types.{
  AgentEvent, tool_call_start, tool_call_args, tool_call_end, tool_call_result, tool_approval,
  sub_agent_delegation, step_started, step_finished,
}
use temporal_go_agent_sdk.Temporal.Types.{
  AgentWorkflowInput, send_event, read_unavailable, mark_unavailable, run, Fallible,
}

unfoldable pub event_type : AgentEvent → Text
event_type (tool_call_start i n m) = codes "TOOL_CALL_START"
event_type (tool_call_args i x) = codes "TOOL_CALL_ARGS"
event_type (tool_call_end i) = codes "TOOL_CALL_END"
event_type (tool_call_result m i c) = codes "TOOL_CALL_RESULT"
event_type (tool_approval a tc t) = codes "CUSTOM"
event_type (sub_agent_delegation a tc t) = codes "CUSTOM"
event_type (step_started n) = codes "STEP_STARTED"
event_type (step_finished n) = codes "STEP_FINISHED"

-- A type of the list is the event's, or stands for all.
unfoldable pub is_wanted : List Text → Text → Bool
is_wanted [] t = false
is_wanted (e ∷ es) t = text_eq e (codes "*") || text_eq e t || is_wanted es t

abbrev pub after_send : Result Failure Bool → Fallible (Unit {0})
after_send (err f) = ret (err f)
after_send (ok true) = run mark_unavailable >> ret (ok tt)
after_send (ok false) = ret (ok tt)

-- Nothing is sent without types, once the stream is unavailable, or for a type not asked for.
unfoldable pub emit_for : List Text → AgentEvent → Fallible (Unit {0})
unfolding is_wanted event_type
emit_for [] ev = ret (ok tt)
emit_for (e ∷ es) ev = run read_unavailable >>= λ gone.
    if gone
    then ret (ok tt)
    else if is_wanted (e ∷ es) (event_type ev)
    then run (send_event ev) >>= after_send
    else ret (ok tt)

unfoldable pub emit_agent_event : AgentWorkflowInput → AgentEvent → Fallible (Unit {0})
unfolding emit_for
emit_agent_event input ev = emit_for input.event_types ev

-- No event for empty arguments.
unfoldable pub emit_args : AgentWorkflowInput → Text → Args → Fallible (Unit {0})
unfolding emit_agent_event
emit_args input tool_call_id [] = ret (ok tt)
emit_args input tool_call_id (a ∷ more) =
    emit_agent_event input (tool_call_args tool_call_id (a ∷ more))

unfoldable pub emit_tool_end_then_result :
    AgentWorkflowInput → Text → Text → Text → Fallible (Unit {0})
unfolding emit_agent_event
emit_tool_end_then_result input message_id tool_call_id content =
    emit_agent_event input (tool_call_end tool_call_id) >>= λ sent.
    and_then sent (λ u. emit_agent_event input (tool_call_result message_id tool_call_id content))
