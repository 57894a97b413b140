-- ===== src/Local/Safety/Frame.antt =====
-- How the promises about calls pass through the ways programs are put together, and the parts of one
-- tool call of internal/runtime/local/agent_loop.go that only report.
use temporal_go_agent_sdk.Prelude.{
  Bool, true, false, List, [], ◌∷◌, Text, ◌≡◌, refl, Result, ok, err, if◌then◌else◌, Option, none,
  some,
}
use temporal_go_agent_sdk.Interfaces.{Args}
use temporal_go_agent_sdk.Strings.{trim_space}
use temporal_go_agent_sdk.Tools.Failure.{Failure}
use temporal_go_agent_sdk.Tools.Results.{
  build_tool_result_message, build_tool_result_message_with_limit,
}
use temporal_go_agent_sdk.Local.Types.{
  emit, AgentEvent, ToolCallRequest, ToolResult, AgentLoopInput, AgentLoopResult,
}
use temporal_go_agent_sdk.Local.Program.{Program, ret, ask, ◌>>=◌, ◌>>◌}
use temporal_go_agent_sdk.Local.Program.Logic.{Event, Extends, Allowed-bind}
use temporal_go_agent_sdk.Local.Delegation.{
  is_blank, Delegate, Delegates, publish_event_to_channel, emit_tool_end_then_result,
  delegate_unless, delegate_to,
}
use temporal_go_agent_sdk.Local.SingleTool.{emit_args, finish_with, deny}
use temporal_go_agent_sdk.Local.Loop.{call_of}
use temporal_go_agent_sdk.Local.Safety.{Permit, Rely, Sound, Answers}

abbrev pub Anything : {A : Type 0} → A → Type 0
Anything a = Unit {0}

-- The outcome of one tool call: an error, or a message that answers the call.
abbrev pub IsAnswerTo : ToolCallRequest → Result Failure ToolResult → Type 0
IsAnswerTo tc (ok r) = Answers (call_of tc) r.message
IsAnswerTo tc (err f) = Unit {0}

pub Sound-bind :
    {A B : Type 0} (P : A → Type 0) (S : B → Type 0) (t : List Event) (m : Program A)
    (f : A → Program B)
    → Sound P t m
    → ((u : List Event) → Extends t u → (a : A) → P a → Sound S u (f a))
    → Sound S t (m >>= f)
Sound-bind P S t m f h k = Allowed-bind Permit Rely P S t m f h k

pub Sound-then :
    {A B : Type 0} (S : B → Type 0) (t : List Event) (m : Program A) (k : Program B)
    → Sound Anything t m
    → ((u : List Event) → Extends t u → Sound S u k)
    → Sound S t (m >> k)
Sound-then S t m k h f = Sound-bind Anything S t m (λ a. k) h (λ u e a p. f u e)

pub Sound-if :
    {A : Type 0} (S : A → Type 0) (t : List Event) (b : Bool) (m n : Program A)
    → (b ≡ true → Sound S t m)
    → (b ≡ false → Sound S t n)
    → Sound S t (if b then m else n)
Sound-if S t true m n h k = h refl
Sound-if S t false m n h k = k refl

pub publish-Sound :
    (t : List Event) (channel_name : Text) (ev : AgentEvent)
    → Sound Anything t (publish_event_to_channel channel_name ev)
unfolding publish_event_to_channel
publish-Sound t channel_name ev =
    Sound-if Anything t (is_blank (trim_space channel_name)) (ret tt) (ask (emit channel_name ev))
      (λ e. tt) (λ e. (tt, λ x r. tt))

pub emit_end-Sound :
    (t : List Event) (channel_name message_id tool_call_id content : Text)
    → Sound Anything t (emit_tool_end_then_result channel_name message_id tool_call_id content)
unfolding emit_tool_end_then_result
emit_end-Sound t channel_name message_id tool_call_id content =
    Sound-then Anything t _ _ (publish-Sound t channel_name _)
      (λ u e. publish-Sound u channel_name _)

pub emit_args-Sound :
    (t : List Event) (input : AgentLoopInput) (tool_call_id : Text) (args : Args)
    → Sound Anything t (emit_args input tool_call_id args)
emit_args-Sound t input tool_call_id [] = tt
emit_args-Sound t input tool_call_id (a ∷ more) = publish-Sound t input.channel_name _

pub finish_with-Sound :
    (t : List Event) (input : AgentLoopInput) (message_id : Text) (tc : ToolCallRequest)
    (content : Text) (failed : Bool)
    → Sound (IsAnswerTo tc) t (finish_with input message_id tc content failed)
unfolding finish_with build_tool_result_message build_tool_result_message_with_limit
finish_with-Sound t input message_id tc content failed =
    Sound-then (IsAnswerTo tc) t _ _
      (emit_end-Sound t input.channel_name message_id tc.tool_call_id content)
      (λ u e. (refl, refl, refl))

pub deny-Sound :
    (t : List Event) (input : AgentLoopInput) (message_id : Text) (tc : ToolCallRequest)
    (content : Text)
    → Sound (IsAnswerTo tc) t (deny input message_id tc content)
unfolding deny
deny-Sound t input message_id tc content =
    Sound-then (IsAnswerTo tc) t _ _
      (emit_end-Sound t input.channel_name message_id tc.tool_call_id content)
      (λ u e. (refl, refl, refl))

-- The loop of a route keeps the promises, whatever it is given.
abbrev pub IsSoundRun : Option (AgentLoopInput → Program (Result Failure AgentLoopResult)) → Type 0
IsSoundRun none = Unit {0}
IsSoundRun (some run) = (t : List Event) (input : AgentLoopInput) → Sound Anything t (run input)

abbrev pub IsSoundRoute : Option Delegate → Type 0
IsSoundRoute none = Unit {0}
IsSoundRoute (some d) = IsSoundRun d.run

abbrev pub AreSound : Delegates → Type 0
AreSound delegates = (tool_name : Text) → IsSoundRoute (delegates tool_name)

delegate_unless-Sound :
    (t : List Event) (input : AgentLoopInput) (tc : ToolCallRequest) (step : Text)
    (refusal : Option Text)
    (run : Option (AgentLoopInput → Program (Result Failure AgentLoopResult)))
    → IsSoundRun run
    → Sound Anything t (delegate_unless input tc step refusal run)
delegate_unless-Sound t input tc step (some msg) run h = tt
delegate_unless-Sound t input tc step none none h = tt
delegate_unless-Sound t input tc step none (some run) h =
    Sound-then Anything t _ _ (publish-Sound t input.channel_name _) (λ u e. (
      tt,
      λ run_id r.
          Sound-bind Anything Anything _ _ _ (h _ _) (λ v f a p.
            Sound-then Anything v _ _ (publish-Sound v input.channel_name _) (λ w g. tt)),
    ))

pub delegate_to-Sound :
    (t : List Event) (input : AgentLoopInput) (tc : ToolCallRequest) (d : Delegate)
    → IsSoundRun d.run
    → Sound Anything t (delegate_to input tc d)
unfolding delegate_to
delegate_to-Sound t input tc d h = delegate_unless-Sound t input tc _ _ d.run h
