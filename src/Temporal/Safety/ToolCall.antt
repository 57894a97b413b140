-- ===== src/Temporal/Safety/ToolCall.antt =====
-- `executeAgentToolCall` and `delegateToSubAgent` of internal/runtime/temporal/agent_workflow.go: a
-- tool or a child runs only for a cleared call, and what comes back answers the call.
use temporal_go_agent_sdk.Prelude.{
  ℕ, Bool, true, false, List, [], ◌∷◌, Text, leb_ℤ, ◌≡◌, refl, inl, inr, Option, none, some, Result,
  ok, err, if◌then◌else◌,
}
use temporal_go_agent_sdk.Interfaces.{
  Args, ApprovalStatus, none_yet, pending, approved, rejected, unavailable, unknown,
}
use temporal_go_agent_sdk.Strings.{trim_space}
use temporal_go_agent_sdk.Effects.{ret, ◌>>=◌, and_then}
use temporal_go_agent_sdk.Effects.Yields.{IfOk}
use temporal_go_agent_sdk.Effects.Frame.{Anything, Allowed-if, Allowed-after, Allowed-answer}
use temporal_go_agent_sdk.Tools.Failure.{Failure}
use temporal_go_agent_sdk.Tools.Results.{
  build_tool_result_message, build_tool_result_message_with_limit,
  format_authorization_denied_message,
}
use temporal_go_agent_sdk.Local.Types.{ToolCallRequest, AgentEvent, AuthorizeResult}
use temporal_go_agent_sdk.Local.Delegation.{is_blank}
use temporal_go_agent_sdk.Local.Loop.{call_of}
use temporal_go_agent_sdk.Local.Safety.{Answers}
use temporal_go_agent_sdk.Temporal.Types.{
  SubAgentRoute, find_route, route_task_queue, AgentWorkflowInput, AgentRunResult, side_effect_id,
  authorize, approve, send_event, run,
}
use temporal_go_agent_sdk.Temporal.Events.{
  event_type, is_wanted, after_send, emit_for, emit_agent_event, emit_args,
  emit_tool_end_then_result,
}
use temporal_go_agent_sdk.Temporal.ToolCall.{
  AgentToolCallOutput, step_name, child_input, after_child, start_child, refused_for_depth,
  delegate_to_sub_agent, finish_with, act_approved, act_on_status, sub_agent_name, approve_then,
  deny, after_authorize, execute_agent_tool_call,
}
use temporal_go_agent_sdk.Temporal.Safety.{
  Event, Permit, Open, Sound, Requested, Authorized, Approved, IsCleared, Requested-extend,
  Authorized-extend, IsCleared-extend,
}

abbrev pub IsOutputFor : ToolCallRequest → AgentToolCallOutput → Type 0
IsOutputFor tc out = Answers (call_of tc) out.msg

module _ (input : AgentWorkflowInput) where
  after_send-Sound :
      (t : List Event) (r : Result Failure Bool) → Sound input (IfOk Anything) t (after_send r)
  after_send-Sound t (err f) = tt
  after_send-Sound t (ok true) = (tt, λ x r. tt)
  after_send-Sound t (ok false) = tt

  emit_for-Sound :
      (t : List Event) (types : List Text) (ev : AgentEvent)
      → Sound input (IfOk Anything) t (emit_for types ev)
  unfolding emit_for
  emit_for-Sound t [] ev = tt
  emit_for-Sound t (e ∷ es) ev = (
    tt,
    λ gone r.
        Allowed-if (Permit input) Open (IfOk Anything) _ gone (ret (ok tt))
          (if is_wanted (e ∷ es) (event_type ev)
            then run (send_event ev) >>= after_send
            else ret (ok tt))
          (λ p. tt)
          (λ p.
            Allowed-if (Permit input) Open (IfOk Anything) _ (is_wanted (e ∷ es) (event_type ev))
              (run (send_event ev) >>= after_send) (ret (ok tt))
              (λ q. (tt, λ x s. after_send-Sound _ x)) (λ q. tt)),
  )

  pub emit-Sound :
      (t : List Event) (ev : AgentEvent) → Sound input (IfOk Anything) t (emit_agent_event input ev)
  unfolding emit_agent_event
  emit-Sound t ev = emit_for-Sound t input.event_types ev

  emit_args-Sound :
      (t : List Event) (tool_call_id : Text) (args : Args)
      → Sound input (IfOk Anything) t (emit_args input tool_call_id args)
  unfolding emit_args
  emit_args-Sound t tool_call_id [] = tt
  emit_args-Sound t tool_call_id (a ∷ more) = emit-Sound t _

  emit_end-Sound :
      (t : List Event) (message_id tool_call_id content : Text)
      → Sound input
          (IfOk Anything)
          t
          (emit_tool_end_then_result input message_id tool_call_id content)
  unfolding emit_tool_end_then_result
  emit_end-Sound t message_id tool_call_id content =
      Allowed-after (Permit input) Open Anything Anything t (emit_agent_event input _) _
        (emit-Sound t _) (λ u e a p. emit-Sound u _)

  finish_with-Sound :
      (t : List Event) (message_id : Text) (tc : ToolCallRequest) (content : Text)
      (failed mark : Bool)
      → Sound input (IfOk (IsOutputFor tc)) t (finish_with input message_id tc content failed mark)
  unfolding finish_with build_tool_result_message build_tool_result_message_with_limit
  finish_with-Sound t message_id tc content failed mark =
      Allowed-after (Permit input) Open Anything (IsOutputFor tc) t
        (emit_tool_end_then_result input message_id tc.tool_call_id content) _
        (emit_end-Sound t message_id tc.tool_call_id content) (λ u e a p. (refl, refl, refl))

  deny-Sound :
      (t : List Event) (message_id : Text) (tc : ToolCallRequest) (content : Text)
      → Sound input (IfOk (IsOutputFor tc)) t (deny input message_id tc content)
  unfolding deny
  deny-Sound t message_id tc content =
      Allowed-after (Permit input) Open Anything (IsOutputFor tc) t
        (emit_tool_end_then_result input message_id tc.tool_call_id content) _
        (emit_end-Sound t message_id tc.tool_call_id content) (λ u e a p. (refl, refl, refl))

  after_child-Sound :
      (t : List Event) (step : Text) (r : Result Failure AgentRunResult)
      → Sound input (IfOk Anything) t (after_child input step r)
  after_child-Sound t step (err f) = tt
  after_child-Sound t step (ok result) =
      Allowed-after (Permit input) Open Anything Anything t (emit_agent_event input _) _
        (emit-Sound t _) (λ u e a p. tt)

  start_child-Sound :
      (t : List Event) (tc : ToolCallRequest) (r : SubAgentRoute) (child_suffix : Text)
      → IsCleared t tc
      → leb_ℤ input.max_sub_agent_depth input.sub_agent_depth ≡ false
      → Sound input (IfOk Anything) t (start_child input tc r child_suffix)
  unfolding start_child child_input
  start_child-Sound t tc r child_suffix c d =
      Allowed-after (Permit input) Open Anything Anything t (emit_agent_event input _) _
        (emit-Sound t _)
        (λ u e a p. (
          ((tc, (IsCleared-extend t u tc e c, refl)), (d, (refl, refl))),
          λ x s. after_child-Sound _ (step_name r tc) x,
        ))

  delegate-Sound :
      (t : List Event) (tc : ToolCallRequest) (r : SubAgentRoute)
      → IsCleared t tc
      → Sound input (IfOk Anything) t (delegate_to_sub_agent input tc r)
  unfolding delegate_to_sub_agent
  delegate-Sound t tc r c =
      Allowed-if (Permit input) Open (IfOk Anything) t (is_blank (trim_space (route_task_queue r)))
        (ret (ok _))
        (if leb_ℤ input.max_sub_agent_depth input.sub_agent_depth
          then ret (ok (refused_for_depth input.max_sub_agent_depth))
          else run side_effect_id >>= λ id. and_then id (start_child input tc r))
        (λ e. tt)
        (λ e.
          Allowed-if (Permit input) Open (IfOk Anything) t
            (leb_ℤ input.max_sub_agent_depth input.sub_agent_depth)
            (ret (ok (refused_for_depth input.max_sub_agent_depth)))
            (run side_effect_id >>= λ id. and_then id (start_child input tc r)) (λ f. tt)
            (λ f. (
              tt,
              λ id s.
                  Allowed-answer (Permit input) Open Anything _ id (start_child input tc r) (λ a p.
                    start_child-Sound _ tc r a
                      (IsCleared-extend t ((side_effect_id, id) ∷ t) tc (λ w k. inr k) c) f),
            )))

module _ (input : AgentWorkflowInput) (message_id : Text) (iteration : ℕ)
    (tc : ToolCallRequest) where
  act_approved-Sound :
      (t : List Event) (route : Option SubAgentRoute)
      → IsCleared t tc
      → Sound input (IfOk (IsOutputFor tc)) t (act_approved input message_id iteration tc route)
  unfolding act_approved
  act_approved-Sound t none c =
      ((tc, ((refl, refl, refl), c)), λ x r. finish_with-Sound input _ message_id tc _ _ _)
  act_approved-Sound t (some r) c =
      Allowed-after (Permit input) Open Anything (IsOutputFor tc) t
        (delegate_to_sub_agent input tc r) _ (delegate-Sound input t tc r c)
        (λ u e a p. finish_with-Sound input u message_id tc a _ _)

  act_on_status-Sound :
      (t : List Event) (asked : Bool) (status : ApprovalStatus)
      → Requested t tc
      → Authorized t tc
      → (status ≡ approved → Approved t tc)
      → Sound input
          (IfOk (IsOutputFor tc))
          t
          (act_on_status input message_id iteration tc asked status)
  unfolding act_on_status
  act_on_status-Sound t asked approved req auth app =
      act_approved-Sound t (find_route input.sub_agent_routes tc.tool_name) (req, (auth, app refl))
  act_on_status-Sound t asked rejected req auth app = finish_with-Sound input t message_id tc _ _ _
  act_on_status-Sound t asked unavailable req auth app =
      finish_with-Sound input t message_id tc _ _ _
  act_on_status-Sound t asked none_yet req auth app = tt
  act_on_status-Sound t asked pending req auth app = tt
  act_on_status-Sound t asked (unknown s) req auth app = tt

  approve_then-Sound :
      (t : List Event) (stream_gone : Bool)
      → Requested t tc
      → Authorized t tc
      → Sound input
          (IfOk (IsOutputFor tc))
          t
          (approve_then input tc stream_gone (act_on_status input message_id iteration tc))
  unfolding approve_then
  approve_then-Sound t stream_gone req auth =
      let act = act_on_status input message_id iteration tc in
      let route = sub_agent_name (find_route input.sub_agent_routes tc.tool_name) in
      Allowed-if (Permit input) Open (IfOk (IsOutputFor tc)) t tc.needs_approval
        (if stream_gone
          then act false unavailable
          else run (approve tc route) >>= λ status. and_then status (act true))
        (act false approved)
        (λ e.
          Allowed-if (Permit input) Open (IfOk (IsOutputFor tc)) t stream_gone
            (act false unavailable)
            (run (approve tc route) >>= λ status. and_then status (act true))
            (λ f. act_on_status-Sound t false unavailable req auth (λ p. cc p))
            (λ f. (
              tt,
              λ status r.
                  Allowed-answer (Permit input) Open (IsOutputFor tc) _ status (act true) (λ s p.
                    act_on_status-Sound ((approve tc route, status) ∷ t) true s
                      (Requested-extend t ((approve tc route, status) ∷ t) tc (λ v k. inr k) req)
                      (Authorized-extend t ((approve tc route, status) ∷ t) tc (λ v k. inr k) auth)
                      (λ a.
                        let q : ok approved ≡ status = cc in
                        inr (route, inl (λ i. (approve tc route, q i))))),
            )))
        (λ e. act_on_status-Sound t false approved req auth (λ p. inl e))

  after_authorize-Sound :
      (t : List Event) (stream_gone : Bool) (auth : AuthorizeResult)
      → Requested t tc
      → (auth.allowed ≡ true → Authorized t tc)
      → Sound input
          (IfOk (IsOutputFor tc))
          t
          (after_authorize input message_id iteration tc stream_gone auth)
  unfolding after_authorize
  after_authorize-Sound t stream_gone auth req known =
      Allowed-if (Permit input) Open (IfOk (IsOutputFor tc)) t auth.allowed
        (approve_then input tc stream_gone (act_on_status input message_id iteration tc))
        (deny input message_id tc (format_authorization_denied_message auth.reason))
        (λ a. approve_then-Sound t stream_gone req (known a))
        (λ a. deny-Sound input t message_id tc _)

  pub execute_agent_tool_call-Sound :
      (t : List Event) (stream_gone : Bool)
      → Requested t tc
      → Sound input
          (IfOk (IsOutputFor tc))
          t
          (execute_agent_tool_call input message_id iteration tc stream_gone)
  unfolding execute_agent_tool_call
  execute_agent_tool_call-Sound t stream_gone req =
      Allowed-after (Permit input) Open Anything (IsOutputFor tc) t (emit_agent_event input _) _
        (emit-Sound input t _)
        (λ u e a p.
          Allowed-after (Permit input) Open Anything (IsOutputFor tc) u
            (emit_args input tc.tool_call_id tc.args) _
            (emit_args-Sound input u tc.tool_call_id tc.args)
            (λ v f b q. (
              tt,
              λ auth r. Allowed-answer (Permit input) Open (IsOutputFor tc) _ auth _ (λ x w.
                  after_authorize-Sound ((authorize tc.tool_name tc.args, auth) ∷ v) stream_gone x
                    (Requested-extend t ((authorize tc.tool_name tc.args, auth) ∷ v) tc
                      (λ z k. inr (f z (e z k))) req)
                    (λ z. (x, (inl (λ i. (authorize tc.tool_name tc.args, w i)), z)))),
            )))
