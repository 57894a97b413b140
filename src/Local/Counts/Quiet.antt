-- ===== src/Local/Counts/Quiet.antt =====
-- A batch of tools in internal/runtime/local/agent_loop.go makes no call of the model for the agent
-- itself, if its sub-agents make none.
use temporal_go_agent_sdk.Prelude.{
  ℕ, Bool, false, not, ◌&&◌, List, [], ◌∷◌, Text, Option, none, some, Result, ok, err,
  if◌then◌else◌,
}
use temporal_go_agent_sdk.Interfaces.{
  Args, ApprovalStatus, none_yet, pending, approved, rejected, unavailable, unknown,
}
use temporal_go_agent_sdk.Strings.{trim_space}
use temporal_go_agent_sdk.Tools.Failure.{Failure}
use temporal_go_agent_sdk.Tools.Results.{format_authorization_denied_message}
use temporal_go_agent_sdk.Local.Types.{
  emit, handle, AgentEvent, ToolCallRequest, ToolResult, AgentConfig, AgentLoopInput,
  AgentLoopResult, AuthorizeResult, ToolExecutionMode, unset, parallel, sequential, other,
}
use temporal_go_agent_sdk.Local.Program.{Program, ret, ask, run_all, side_by_side}
use temporal_go_agent_sdk.Local.Delegation.{
  is_blank, publish_event_to_channel, emit_tool_end_then_result, Delegate, Delegates,
  delegate_unless, delegate_to,
}
use temporal_go_agent_sdk.Local.SingleTool.{
  act_approved, act_on_status, announce, resolve, deny, finish_with, emit_args, ask_approval,
  approve_then, after_await, after_authorize, execute_single_tool, execute_tool,
}
use temporal_go_agent_sdk.Local.Batch.{
  settled_all, execute_tools_parallel, execute_tools_sequential,
}
use temporal_go_agent_sdk.Local.Loop.Run.{all_results, execute_tools}
use temporal_go_agent_sdk.Local.Counts.Tally.{
  Silent, AllSilent, Silent-bind, Silent-if, Silent-run_all, Silent-interleave,
}

module _ (name : Text) where
  -- The loop of a route never calls the model for the agent of that name.
  abbrev pub IsSilentRun :
      Option (AgentLoopInput → Program (Result Failure AgentLoopResult)) → Type 0
  IsSilentRun none = Unit {0}
  IsSilentRun (some run) = (input : AgentLoopInput) → Silent name (run input)

  abbrev pub IsSilentRoute : Option Delegate → Type 0
  IsSilentRoute none = Unit {0}
  IsSilentRoute (some d) = IsSilentRun d.run

  abbrev pub AreSilent : Delegates → Type 0
  AreSilent delegates = (tool_name : Text) → IsSilentRoute (delegates tool_name)

  Silent-publish :
      (channel_name : Text) (ev : AgentEvent)
      → Silent name (publish_event_to_channel channel_name ev)
  unfolding publish_event_to_channel
  Silent-publish channel_name ev =
      Silent-if name (is_blank (trim_space channel_name)) (ret tt) (ask (emit channel_name ev)) tt
        (tt, λ x. tt)

  Silent-emit_end :
      (channel_name message_id tool_call_id content : Text)
      → Silent name (emit_tool_end_then_result channel_name message_id tool_call_id content)
  unfolding emit_tool_end_then_result
  Silent-emit_end channel_name message_id tool_call_id content =
      Silent-bind name _ _ (Silent-publish channel_name _) (λ u. Silent-publish channel_name _)

  Silent-emit_args :
      (input : AgentLoopInput) (tool_call_id : Text) (args : Args)
      → Silent name (emit_args input tool_call_id args)
  Silent-emit_args input tool_call_id [] = tt
  Silent-emit_args input tool_call_id (a ∷ more) = Silent-publish input.channel_name _

  Silent-finish_with :
      (input : AgentLoopInput) (message_id : Text) (tc : ToolCallRequest) (content : Text)
      (failed : Bool)
      → Silent name (finish_with input message_id tc content failed)
  unfolding finish_with
  Silent-finish_with input message_id tc content failed =
      Silent-bind name _ _ (Silent-emit_end input.channel_name message_id tc.tool_call_id content)
        (λ u. tt)

  Silent-deny :
      (input : AgentLoopInput) (message_id : Text) (tc : ToolCallRequest) (content : Text)
      → Silent name (deny input message_id tc content)
  unfolding deny
  Silent-deny input message_id tc content =
      Silent-bind name _ _ (Silent-emit_end input.channel_name message_id tc.tool_call_id content)
        (λ u. tt)

  Silent-delegate_unless :
      (input : AgentLoopInput) (tc : ToolCallRequest) (step : Text) (refusal : Option Text)
      (run : Option (AgentLoopInput → Program (Result Failure AgentLoopResult)))
      → IsSilentRun run
      → Silent name (delegate_unless input tc step refusal run)
  Silent-delegate_unless input tc step (some msg) run h = tt
  Silent-delegate_unless input tc step none none h = tt
  Silent-delegate_unless input tc step none (some run) h =
      Silent-bind name _ _ (Silent-publish input.channel_name _) (λ u. (
        tt,
        λ run_id.
            Silent-bind name _ _ (h _)
              (λ a. Silent-bind name _ _ (Silent-publish input.channel_name _) (λ v. tt)),
      ))

  module _ (cfg : AgentConfig) (input : AgentLoopInput) (message_id : Text) (iteration : ℕ)
      (tc : ToolCallRequest) where
    Silent-act_approved :
        (route : Option Delegate)
        → IsSilentRoute route
        → Silent name (act_approved cfg input route message_id iteration tc)
    unfolding act_approved execute_tool delegate_to
    Silent-act_approved none h = (tt, λ x. Silent-finish_with input message_id tc _ _)
    Silent-act_approved (some d) h =
        Silent-bind name _ _ (Silent-delegate_unless input tc _ _ d.run h)
          (λ a. Silent-finish_with input message_id tc a false)

    Silent-act_on_status :
        (route : Option Delegate) (status : ApprovalStatus)
        → IsSilentRoute route
        → Silent name (act_on_status cfg input route message_id iteration tc status)
    unfolding act_on_status
    Silent-act_on_status route approved h = Silent-act_approved route h
    Silent-act_on_status route rejected h = Silent-finish_with input message_id tc _ _
    Silent-act_on_status route unavailable h = Silent-finish_with input message_id tc _ _
    Silent-act_on_status route none_yet h = tt
    Silent-act_on_status route pending h = tt
    Silent-act_on_status route (unknown s) h = tt

    Silent-announce :
        (route : Option Delegate) (token : Text) → Silent name (announce cfg input route tc token)
    unfolding announce
    Silent-announce route token = (
      tt,
      λ x.
          Silent-bind name (publish_event_to_channel input.channel_name _) _
            (Silent-publish input.channel_name _)
            (λ u.
              Silent-if name input.has_approval_handler (ask (handle token tc)) (ret tt)
                (tt, λ y. tt) tt),
    )

    Silent-after_await :
        (act : ApprovalStatus → Program (Result Failure ToolResult))
        (answer : Result Failure ApprovalStatus)
        → ((status : ApprovalStatus) → Silent name (act status))
        → Silent name (after_await act answer)
    Silent-after_await act (ok status) h = h status
    Silent-after_await act (err f) h = tt

    Silent-approve_then :
        (route : Option Delegate) (act : ApprovalStatus → Program (Result Failure ToolResult))
        → ((status : ApprovalStatus) → Silent name (act status))
        → Silent name (approve_then cfg input route tc act)
    unfolding approve_then ask_approval resolve
    Silent-approve_then route act h =
        Silent-if name tc.needs_approval
          (if is_blank input.channel_name && not input.has_approval_handler
            then act unavailable
            else ask_approval cfg input route tc act)
          (act approved)
          (Silent-if name (is_blank input.channel_name && not input.has_approval_handler)
            (act unavailable) (ask_approval cfg input route tc act) (h unavailable)
            (
              tt,
              λ token.
                  Silent-bind name (announce cfg input route tc token) _
                    (Silent-announce route token)
                    (λ u. (
                      tt,
                      λ answer.
                          Silent-bind name (after_await act answer) _
                            (Silent-after_await act answer h) (λ result. (tt, λ x. tt)),
                    )),
            ))
          (h approved)

    Silent-after_authorize :
        (delegates : Delegates) (auth : Result Failure AuthorizeResult)
        → AreSilent delegates
        → Silent name (after_authorize cfg input delegates message_id iteration tc auth)
    Silent-after_authorize delegates (err f) h = tt
    Silent-after_authorize delegates (ok auth) h =
        Silent-if name auth.allowed
          (approve_then cfg input (delegates tc.tool_name) tc
            (act_on_status cfg input (delegates tc.tool_name) message_id iteration tc))
          (deny input message_id tc (format_authorization_denied_message auth.reason))
          (Silent-approve_then (delegates tc.tool_name) _
            (λ status. Silent-act_on_status (delegates tc.tool_name) status (h tc.tool_name)))
          (Silent-deny input message_id tc _)

    Silent-execute_single_tool :
        (delegates : Delegates)
        → AreSilent delegates
        → Silent name (execute_single_tool cfg input delegates message_id iteration tc)
    unfolding execute_single_tool
    Silent-execute_single_tool delegates h =
        Silent-bind name _ _
          (Silent-bind name _ _ (Silent-publish input.channel_name _)
            (λ u. Silent-emit_args input tc.tool_call_id tc.args))
          (λ u. (tt, λ auth. Silent-after_authorize delegates auth h))

  module _ (cfg : AgentConfig) (input : AgentLoopInput) (delegates : Delegates)
      (h : AreSilent delegates) (message_id : Text) (iteration : ℕ) where
    AllSilent-settled_all :
        (tcs : List ToolCallRequest)
        → AllSilent name
            (settled_all (execute_single_tool cfg input delegates message_id iteration) tcs)
    AllSilent-settled_all [] = tt
    AllSilent-settled_all (tc ∷ tcs) = (
      Silent-bind name _ _
          (Silent-execute_single_tool cfg input message_id iteration tc delegates h) (λ r. tt),
      AllSilent-settled_all tcs,
    )

    Silent-parallel :
        (tcs : List ToolCallRequest)
        → Silent name (execute_tools_parallel cfg input delegates message_id iteration tcs)
    unfolding execute_tools_parallel side_by_side
    Silent-parallel tcs = (tt, λ is. Silent-interleave name is _ (AllSilent-settled_all tcs))

    Silent-all_results :
        (m : Program (List ToolResult)) → Silent name m → Silent name (all_results m)
    Silent-all_results m q = Silent-bind name m (λ rs. ret (ok rs)) q (λ rs. tt)

    pub Silent-execute_tools :
        (mode : ToolExecutionMode) (tcs : List ToolCallRequest)
        → Silent name (execute_tools mode cfg input delegates message_id iteration tcs)
    unfolding execute_tools execute_tools_sequential
    Silent-execute_tools unset tcs =
        Silent-all_results (execute_tools_parallel cfg input delegates message_id iteration tcs)
          (Silent-parallel tcs)
    Silent-execute_tools parallel tcs =
        Silent-all_results (execute_tools_parallel cfg input delegates message_id iteration tcs)
          (Silent-parallel tcs)
    Silent-execute_tools sequential tcs =
        Silent-all_results
          (run_all (settled_all (execute_single_tool cfg input delegates message_id iteration) tcs))
          (Silent-run_all name
            (settled_all (execute_single_tool cfg input delegates message_id iteration) tcs)
            (AllSilent-settled_all tcs))
    Silent-execute_tools (other mode) tcs = tt
