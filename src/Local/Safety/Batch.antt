-- ===== src/Local/Safety/Batch.antt =====
-- `executeToolsParallel` and `executeToolsSequential` of internal/runtime/local/agent_loop.go: the
-- results of a batch are in the order of its calls, and each answers its own call.
use temporal_go_agent_sdk.Prelude.{
  ℕ, List, [], ◌∷◌, ◌++◌, ◌≡◌, codes, Text, inl, inr, refl, Result, ok, err,
}
use temporal_go_agent_sdk.Effects.Yields.{IfOk}
use temporal_go_agent_sdk.Tools.Envelope.{quote}
use temporal_go_agent_sdk.Tools.Failure.{Failure, plain}
use temporal_go_agent_sdk.Tools.Results.{
  build_tool_error_result_message, build_tool_result_message, build_tool_result_message_with_limit,
}
use temporal_go_agent_sdk.Local.Types.{
  ToolCallRequest, ToolResult, AgentConfig, AgentLoopInput, ToolExecutionMode, unset, parallel,
  sequential, other,
}
use temporal_go_agent_sdk.Local.Program.{Program}
use temporal_go_agent_sdk.Local.Program.Logic.{
  Event, AllAllowed, AllMeet, Allowed-run_all, Allowed-side_by_side,
}
use temporal_go_agent_sdk.Local.Delegation.{Delegates}
use temporal_go_agent_sdk.Local.SingleTool.{execute_single_tool}
use temporal_go_agent_sdk.Local.Batch.{
  settle, settled_all, execute_tools_parallel, execute_tools_sequential,
}
use temporal_go_agent_sdk.Local.Loop.{call_of, calls_of, messages_of}
use temporal_go_agent_sdk.Local.Loop.Run.{all_results, execute_tools}
use temporal_go_agent_sdk.Local.Safety.{
  Permit, Rely, Permit-mono, Sound, Requested, Member, Answers, IsDialog,
}
use temporal_go_agent_sdk.Local.Safety.Frame.{IsAnswerTo, Sound-bind, AreSound}
use temporal_go_agent_sdk.Local.Safety.SingleTool.{execute_single_tool-Sound}

abbrev pub IsResultOf : ToolCallRequest → ToolResult → Type 0
IsResultOf tc r = Answers (call_of tc) r.message

abbrev pub results_of : List ToolCallRequest → List (ToolResult → Type 0)
results_of [] = []
results_of (tc ∷ tcs) = IsResultOf tc ∷ results_of tcs

-- As many results as calls, each for the call at its place.
abbrev pub AnswerAll : List ToolCallRequest → List ToolResult → Type 0
AnswerAll tcs rs = AllMeet (results_of tcs) rs

-- An error is for a mode that is no mode; then nothing is done.
abbrev pub Settles :
    ToolExecutionMode → List ToolCallRequest → Result Failure (List ToolResult) → Type 0
Settles (other mode) tcs (ok rs) = ⊥
Settles (other mode) tcs (err f) =
    f
    ≡ plain (
        codes "invalid tool execution mode "
        ++ (quote mode ++ codes ": use \"parallel\" or \"sequential\""))
Settles _ tcs (ok rs) = AnswerAll tcs rs
Settles _ tcs (err f) = ⊥

pub Settles-IfOk :
    (mode : ToolExecutionMode) (tcs : List ToolCallRequest) (r : Result Failure (List ToolResult))
    → Settles mode tcs r
    → IfOk (AnswerAll tcs) r
Settles-IfOk unset tcs (ok rs) h = h
Settles-IfOk parallel tcs (ok rs) h = h
Settles-IfOk sequential tcs (ok rs) h = h
Settles-IfOk (other mode) tcs (ok rs) h = elim h [ ]
Settles-IfOk mode tcs (err f) h = tt

all_results-Sound :
    (S : Result Failure (List ToolResult) → Type 0) (t : List Event) (tcs : List ToolCallRequest)
    (m : Program (List ToolResult))
    → ((rs : List ToolResult) → AnswerAll tcs rs → S (ok rs))
    → Sound (AnswerAll tcs) t m
    → Sound S t (all_results m)
all_results-Sound S t tcs m k h = Sound-bind (AnswerAll tcs) S t m _ h (λ u e rs p. k rs p)

settle-Answers :
    (tc : ToolCallRequest) (r : Result Failure ToolResult)
    → IsAnswerTo tc r
    → IsResultOf tc (settle tc r)
unfolding build_tool_error_result_message build_tool_result_message
    build_tool_result_message_with_limit
settle-Answers tc (ok r) h = h
settle-Answers tc (err f) h = (refl, refl, refl)

module _ (cfg : AgentConfig) (input : AgentLoopInput) (delegates : Delegates) (message_id : Text)
    (iteration : ℕ) (sound : AreSound delegates) where
  settled_all-Sound :
      (t : List Event) (tcs : List ToolCallRequest)
      → ((tc : ToolCallRequest) → Member tc tcs → Requested t tc)
      → AllAllowed Permit Rely
          (results_of tcs)
          t
          (settled_all (execute_single_tool cfg input delegates message_id iteration) tcs)
  settled_all-Sound t [] req = tt
  settled_all-Sound t (tc ∷ tcs) req = (
    Sound-bind (IsAnswerTo tc) (IsResultOf tc) t _ _
        (execute_single_tool-Sound cfg input message_id iteration tc t delegates sound
          (req tc (inl refl)))
        (λ u e r p. settle-Answers tc r p),
    settled_all-Sound t tcs (λ d m. req d (inr m)),
  )

  pub execute_tools_parallel-Sound :
      (t : List Event) (tcs : List ToolCallRequest)
      → ((tc : ToolCallRequest) → Member tc tcs → Requested t tc)
      → Sound
          (AnswerAll tcs)
          t
          (execute_tools_parallel cfg input delegates message_id iteration tcs)
  unfolding execute_tools_parallel
  execute_tools_parallel-Sound t tcs req =
      Allowed-side_by_side Permit Rely Permit-mono (results_of tcs) t _ (λ u n. tt)
        (settled_all-Sound t tcs req)

  pub execute_tools_sequential-Sound :
      (t : List Event) (tcs : List ToolCallRequest)
      → ((tc : ToolCallRequest) → Member tc tcs → Requested t tc)
      → Sound
          (AnswerAll tcs)
          t
          (execute_tools_sequential cfg input delegates message_id iteration tcs)
  unfolding execute_tools_sequential
  execute_tools_sequential-Sound t tcs req =
      Allowed-run_all Permit Rely Permit-mono (results_of tcs) t _ (settled_all-Sound t tcs req)

  -- A batch, whatever the answers and the schedule: when each of its calls was asked for by the model
  -- and the routes keep the promises, it ends, in a parallel, sequential or unset mode, in as many
  -- results as calls, each a tool message with the id and the name of the call at its place, whatever
  -- fails in between; in any other mode it ends in the error that names the mode. All its calls on the
  -- surroundings are permitted.
  pub execute_tools-Sound :
      (mode : ToolExecutionMode) (t : List Event) (tcs : List ToolCallRequest)
      → ((tc : ToolCallRequest) → Member tc tcs → Requested t tc)
      → Sound (Settles mode tcs) t (execute_tools mode cfg input delegates message_id iteration tcs)
  unfolding execute_tools
  execute_tools-Sound unset t tcs req =
      all_results-Sound (Settles unset tcs) t tcs
        (execute_tools_parallel cfg input delegates message_id iteration tcs) (λ rs h. h)
        (execute_tools_parallel-Sound t tcs req)
  execute_tools-Sound parallel t tcs req =
      all_results-Sound (Settles parallel tcs) t tcs
        (execute_tools_parallel cfg input delegates message_id iteration tcs) (λ rs h. h)
        (execute_tools_parallel-Sound t tcs req)
  execute_tools-Sound sequential t tcs req =
      all_results-Sound (Settles sequential tcs) t tcs
        (execute_tools_sequential cfg input delegates message_id iteration tcs) (λ rs h. h)
        (execute_tools_sequential-Sound t tcs req)
  execute_tools-Sound (other mode) t tcs req = refl

-- The results of a batch continue a dialog in which its calls wait.
pub AnswerAll-IsDialog :
    (tcs : List ToolCallRequest) (rs : List ToolResult)
    → AnswerAll tcs rs
    → IsDialog (calls_of tcs) (messages_of rs)
AnswerAll-IsDialog [] [] h = tt
AnswerAll-IsDialog [] (r ∷ rs) h = elim h [ ]
AnswerAll-IsDialog (tc ∷ tcs) [] h = elim h [ ]
AnswerAll-IsDialog (tc ∷ tcs) (r ∷ rs) h = (h.0, AnswerAll-IsDialog tcs rs h.1)
