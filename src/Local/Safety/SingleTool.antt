-- ===== src/Local/Safety/SingleTool.antt =====
-- `executeSingleTool` of internal/runtime/local/agent_loop.go: it runs a tool only with permission, and
-- what it returns answers the call.
use temporal_go_agent_sdk.Prelude.{
  ℕ, true, false, not, ◌&&◌, List, ◌∷◌, Text, ◌≡◌, inl, inr, refl, Result, ok, err, if◌then◌else◌,
  Option, none, some,
}
use temporal_go_agent_sdk.Interfaces.{
  ApprovalStatus, none_yet, pending, approved, rejected, unavailable, unknown,
}
use temporal_go_agent_sdk.Tools.Failure.{Failure}
use temporal_go_agent_sdk.Tools.Results.{format_authorization_denied_message}
use temporal_go_agent_sdk.Local.Types.{
  handle, authorize, ToolCallRequest, ToolResult, AgentConfig, AgentLoopInput, AuthorizeResult,
  await,
}
use temporal_go_agent_sdk.Local.Program.{Program, ret, ask}
use temporal_go_agent_sdk.Local.Program.Logic.{Event, Extends}
use temporal_go_agent_sdk.Local.Delegation.{publish_event_to_channel, is_blank, Delegate, Delegates}
use temporal_go_agent_sdk.Local.SingleTool.{
  act_approved, act_on_status, announce, resolve, deny, ask_approval, approve_then, after_await,
  after_authorize, execute_single_tool, execute_tool,
}
use temporal_go_agent_sdk.Local.Safety.{
  Sound, Requested, Authorized, Approved, Requested-extend, Authorized-extend,
}
use temporal_go_agent_sdk.Local.Safety.Frame.{
  Anything, IsAnswerTo, Sound-bind, Sound-then, Sound-if, publish-Sound, emit_args-Sound,
  finish_with-Sound, deny-Sound, IsSoundRoute, AreSound, delegate_to-Sound,
}

module _ (cfg : AgentConfig) (input : AgentLoopInput) (message_id : Text) (iteration : ℕ)
    (tc : ToolCallRequest) where
  act_approved-Sound :
      (t : List Event) (route : Option Delegate)
      → IsSoundRoute route
      → Requested t tc
      → Authorized t cfg.name tc
      → Approved t tc
      → Sound (IsAnswerTo tc) t (act_approved cfg input route message_id iteration tc)
  unfolding act_approved execute_tool
  act_approved-Sound t none h req auth app = (
    (tc, ((refl, refl, refl), (req, (auth, app)))),
    λ x r. finish_with-Sound _ input message_id tc _ _,
  )
  act_approved-Sound t (some d) h req auth app =
      Sound-bind Anything (IsAnswerTo tc) t _ _ (delegate_to-Sound t input tc d h)
        (λ u e a p. finish_with-Sound u input message_id tc a false)

  act_on_status-Sound :
      (t : List Event) (route : Option Delegate) (status : ApprovalStatus)
      → IsSoundRoute route
      → Requested t tc
      → Authorized t cfg.name tc
      → (status ≡ approved → Approved t tc)
      → Sound (IsAnswerTo tc) t (act_on_status cfg input route message_id iteration tc status)
  unfolding act_on_status
  act_on_status-Sound t route approved h req auth app =
      act_approved-Sound t route h req auth (app refl)
  act_on_status-Sound t route rejected h req auth app = finish_with-Sound t input message_id tc _ _
  act_on_status-Sound t route unavailable h req auth app =
      finish_with-Sound t input message_id tc _ _
  act_on_status-Sound t route none_yet h req auth app = tt
  act_on_status-Sound t route pending h req auth app = tt
  act_on_status-Sound t route (unknown s) h req auth app = tt

  after_await-Sound :
      (t : List Event) (act : ApprovalStatus → Program (Result Failure ToolResult))
      (answer : Result Failure ApprovalStatus)
      → ((status : ApprovalStatus) → answer ≡ ok status → Sound (IsAnswerTo tc) t (act status))
      → Sound (IsAnswerTo tc) t (after_await act answer)
  after_await-Sound t act (ok status) h = h status refl
  after_await-Sound t act (err f) h = tt

  announce-Sound :
      (t : List Event) (route : Option Delegate) (token : Text)
      → Sound Anything t (announce cfg input route tc token)
  unfolding announce
  announce-Sound t route token = (
    tt,
    λ x r.
        Sound-then Anything _ (publish_event_to_channel input.channel_name _) _
          (publish-Sound _ input.channel_name _)
          (λ u e.
            Sound-if Anything u input.has_approval_handler (ask (handle token tc)) (ret tt)
              (λ f. (tt, λ y s. tt)) (λ f. tt)),
  )

  -- An answer of approval stands in the trace under the token.
  resolve-Sound :
      (t : List Event) (token : Text) (act : ApprovalStatus → Program (Result Failure ToolResult))
      → ((u : List Event)
          → Extends t u
          → (status : ApprovalStatus) → (status ≡ approved → Approved u tc)
          → Sound (IsAnswerTo tc) u (act status))
      → Sound (IsAnswerTo tc) t (resolve tc token act)
  unfolding resolve
  resolve-Sound t token act h = (
    tt,
    λ answer r.
        Sound-bind (IsAnswerTo tc) (IsAnswerTo tc) _ (after_await act answer) _
          (after_await-Sound _ act answer (λ status e.
            h _ (λ v k. inr k) status
              (λ a.
                let q : ok approved ≡ answer = cc in
                inr (token, inl (λ i. (await token tc, q i))))))
          (λ u e result p. (tt, λ x s. p)),
  )

  ask_approval-Sound :
      (t : List Event) (route : Option Delegate)
      (act : ApprovalStatus → Program (Result Failure ToolResult))
      → ((u : List Event)
          → Extends t u
          → (status : ApprovalStatus) → (status ≡ approved → Approved u tc)
          → Sound (IsAnswerTo tc) u (act status))
      → Sound (IsAnswerTo tc) t (ask_approval cfg input route tc act)
  unfolding ask_approval
  ask_approval-Sound t route act h = (
    tt,
    λ token r.
        Sound-then (IsAnswerTo tc) _ (announce cfg input route tc token) (resolve tc token act)
          (announce-Sound _ route token)
          (λ u e. resolve-Sound u token act (λ v f. h v (λ w k. f w (e w (inr k))))),
  )

  -- The gate passes a status on, and approval only with its reason.
  approve_then-Sound :
      (t : List Event) (route : Option Delegate)
      (act : ApprovalStatus → Program (Result Failure ToolResult))
      → ((u : List Event)
          → Extends t u
          → (status : ApprovalStatus) → (status ≡ approved → Approved u tc)
          → Sound (IsAnswerTo tc) u (act status))
      → Sound (IsAnswerTo tc) t (approve_then cfg input route tc act)
  unfolding approve_then
  approve_then-Sound t route act h =
      Sound-if (IsAnswerTo tc) t tc.needs_approval
        (if is_blank input.channel_name && not input.has_approval_handler
          then act unavailable
          else ask_approval cfg input route tc act)
        (act approved)
        (λ e.
          Sound-if (IsAnswerTo tc) t (is_blank input.channel_name && not input.has_approval_handler)
            (act unavailable) (ask_approval cfg input route tc act)
            (λ f. h t (λ v k. k) unavailable (λ p. cc p)) (λ f. ask_approval-Sound t route act h))
        (λ e. h t (λ v k. k) approved (λ p. inl e))

  after_authorize-Sound :
      (t : List Event) (delegates : Delegates) (auth : Result Failure AuthorizeResult)
      → AreSound delegates
      → Requested t tc
      → ((r : AuthorizeResult) → auth ≡ ok r → r.allowed ≡ true → Authorized t cfg.name tc)
      → Sound (IsAnswerTo tc) t (after_authorize cfg input delegates message_id iteration tc auth)
  after_authorize-Sound t delegates (err f) hd req known = tt
  after_authorize-Sound t delegates (ok auth) hd req known =
      Sound-if (IsAnswerTo tc) t auth.allowed
        (approve_then cfg input (delegates tc.tool_name) tc
          (act_on_status cfg input (delegates tc.tool_name) message_id iteration tc))
        (deny input message_id tc (format_authorization_denied_message auth.reason))
        (λ a. approve_then-Sound t (delegates tc.tool_name) _ (λ u e status app.
          act_on_status-Sound u (delegates tc.tool_name) status (hd tc.tool_name)
            (Requested-extend t u tc e req)
            (Authorized-extend t u cfg.name tc e (known auth refl a)) app))
        (λ a. deny-Sound t input message_id tc _)

  pub execute_single_tool-Sound :
      (t : List Event) (delegates : Delegates)
      → AreSound delegates
      → Requested t tc
      → Sound (IsAnswerTo tc) t (execute_single_tool cfg input delegates message_id iteration tc)
  unfolding execute_single_tool
  execute_single_tool-Sound t delegates hd req =
      Sound-then (IsAnswerTo tc) t _ _
        (Sound-then Anything t _ _ (publish-Sound t input.channel_name _)
          (λ u e. emit_args-Sound u input tc.tool_call_id tc.args))
        (λ u e. (
          tt,
          λ auth r.
              after_authorize-Sound _ delegates auth hd
                (Requested-extend t ((authorize cfg.name tc.tool_name tc.args, auth) ∷ u) tc
                  (λ v k. inr (e v k)) req)
                (λ a p q.
                  let w : ok a ≡ auth = cc in
                  (a, (inl (λ i. (authorize cfg.name tc.tool_name tc.args, w i)), q))),
        ))
