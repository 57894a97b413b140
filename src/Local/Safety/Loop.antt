-- ===== src/Local/Safety/Loop.antt =====
-- The iterations of `RunAgentLoop` of internal/runtime/local/agent_loop.go keep the messages a dialog.
use Prim.Native.Nat.{zero, suc}
use temporal_go_agent_sdk.Prelude.{
  ℕ, false, ◌&&◌, ◌==◌, ltb, length, drop, List, [], ◌∷◌, Text, ◌≡◌, inl, refl, Result, ok, err,
}
use temporal_go_agent_sdk.Interfaces.{Message, role_eq}
use temporal_go_agent_sdk.Tools.Failure.{Failure}
use temporal_go_agent_sdk.Base.Telemetry.{FinishReason}
use temporal_go_agent_sdk.Effects.Yields.{IfOk}
use temporal_go_agent_sdk.Local.Types.{
  ToolCallRequest, ToolResult, LlmResult, AgentConfig, AgentLoopInput, llm,
}
use temporal_go_agent_sdk.Local.Program.{Program, ret, ◌>>=◌, ◌>>◌}
use temporal_go_agent_sdk.Local.Program.Logic.{Event}
use temporal_go_agent_sdk.Local.Delegation.{Delegates}
use temporal_go_agent_sdk.Local.Loop.{
  LoopState, Contexts, conversation_memory_enabled, persist_conversation_messages,
  assistant_message, account, budget_stops, answer_with, llm_input, finish_for,
}
use temporal_go_agent_sdk.Local.Loop.Run.{
  and_then, execute_tools, after_tools, save_on_iteration, final_error, final_state, final_call,
  call_error, after_answer, after_call, iterate,
}
use temporal_go_agent_sdk.Local.Safety.{Sound, Requested, Member, IsDialog, IsDialog-append}
use temporal_go_agent_sdk.Local.Safety.Frame.{Anything, Sound-bind, Sound-then, Sound-if, AreSound}
use temporal_go_agent_sdk.Local.Safety.Batch.{
  AnswerAll, Settles, Settles-IfOk, execute_tools-Sound, AnswerAll-IsDialog,
}

abbrev pub HasDialog : LoopState → Type 0
HasDialog s = IsDialog [] s.messages

abbrev pub HasDialogIfOk : Result Failure LoopState → Type 0
HasDialogIfOk (ok s) = HasDialog s
HasDialogIfOk (err f) = Unit {0}

pub and_then-Sound :
    {A B : Type 0} (S : Result Failure B → Type 0) (t : List Event) (r : Result Failure A)
    (f : A → Program (Result Failure B))
    → ((e : Failure) → S (err e))
    → ((a : A) → r ≡ ok a → Sound S t (f a))
    → Sound S t (and_then r f)
and_then-Sound S t (ok a) f h k = k a refl
and_then-Sound S t (err e) f h k = h e

call_error-ok :
    (iteration : ℕ) (answer : Result Failure LlmResult) (r : LlmResult)
    → call_error iteration answer ≡ ok r
    → ok r ≡ answer
call_error-ok iteration (ok a) r e = cc
call_error-ok iteration (err f) r e = cc

pub persist-Sound :
    (agent conversation_id : Text) (ms : List Message) (t : List Event)
    → Sound Anything t (persist_conversation_messages agent conversation_id ms)
unfolding persist_conversation_messages
persist-Sound agent conversation_id [] t = tt
persist-Sound agent conversation_id (m ∷ ms) t = (
  tt,
  λ x r.
      Sound-bind Anything Anything _ _ _ (persist-Sound agent conversation_id ms _) (λ u e a p. tt),
)

answer_with-HasDialog :
    (content : Text) (s : LoopState) → HasDialog s → HasDialog (answer_with content s)
unfolding answer_with role_eq
answer_with-HasDialog content s h =
    IsDialog-append [] s.messages (assistant_message content [] ∷ []) h (refl, tt)

after_tools-HasDialog :
    (r : LlmResult) (rs : List ToolResult) (s : LoopState)
    → HasDialog s
    → AnswerAll r.tool_calls rs
    → HasDialog (after_tools r rs s)
unfolding after_tools role_eq
after_tools-HasDialog r rs s h k =
    IsDialog-append [] s.messages _ h (refl, AnswerAll-IsDialog r.tool_calls rs k)

module _ (cfg : AgentConfig) (input : AgentLoopInput) where
  save_on_iteration-Sound :
      (t : List Event) (s : LoopState)
      → HasDialog s
      → Sound HasDialog t (save_on_iteration cfg input s)
  unfolding save_on_iteration
  save_on_iteration-Sound t s h =
      Sound-if HasDialog t
        (conversation_memory_enabled cfg input
          && (cfg.conversation_save_on_iteration
              && ltb s.persisted_message_count (length s.messages)))
        (persist_conversation_messages cfg.name input.conversation_id
            (drop s.persisted_message_count s.messages)
          >> ret (record s { persisted_message_count = length s.messages }))
        (ret s)
        (λ e.
          Sound-then HasDialog t
            (persist_conversation_messages cfg.name input.conversation_id
              (drop s.persisted_message_count s.messages))
            (ret (record s { persisted_message_count = length s.messages }))
            (persist-Sound cfg.name input.conversation_id _ t) (λ u f. h))
        (λ e. h)

  final_call-Sound :
      (t : List Event) (contexts : Contexts) (iteration : ℕ) (s : LoopState)
      → HasDialog s
      → Sound HasDialogIfOk t (final_call cfg input contexts iteration s)
  unfolding final_call llm_input final_state
  final_call-Sound t contexts iteration s h = (
    tt,
    λ message_id r0. (
      h,
      λ answer r1.
          and_then-Sound HasDialogIfOk _ (final_error iteration answer) _ (λ f. tt)
            (λ r e. answer_with-HasDialog r.content s h),
    ),
  )

  module _ (delegates : Delegates) (sound : AreSound delegates) (contexts : Contexts) where
    after_answer-Sound :
        (t : List Event) (iteration left : ℕ) (message_id : Text) (r : LlmResult) (s : LoopState)
        (next : LoopState → Program (Result Failure LoopState)) (tcs : List ToolCallRequest)
        → HasDialog s
        → ((tc : ToolCallRequest) → Member tc r.tool_calls → Requested t tc)
        → ((u : List Event) (v : LoopState) → HasDialog v → Sound HasDialogIfOk u (next v))
        → Sound HasDialogIfOk t
            (after_answer cfg input delegates contexts iteration left message_id r s next tcs)
    after_answer-Sound t iteration left message_id r s next [] h req k =
        answer_with-HasDialog r.content s h
    after_answer-Sound t iteration left message_id r s next (tc ∷ tcs) h req k =
        Sound-if HasDialogIfOk t (left == 0) (final_call cfg input contexts iteration s)
          (execute_tools cfg.tool_execution_mode cfg input delegates message_id iteration
              r.tool_calls
            >>= λ results.
                and_then results (λ rs. save_on_iteration cfg input (after_tools r rs s) >>= next))
          (λ e. final_call-Sound t contexts iteration s h)
          (λ e.
            Sound-bind (Settles cfg.tool_execution_mode r.tool_calls) HasDialogIfOk t
              (execute_tools cfg.tool_execution_mode cfg input delegates message_id iteration
                r.tool_calls)
              _
              (execute_tools-Sound cfg input delegates message_id iteration sound
                cfg.tool_execution_mode t r.tool_calls req)
              (λ u f results p.
                continued u results (Settles-IfOk cfg.tool_execution_mode r.tool_calls results p)))
      where
        continued :
            (u : List Event) (results : Result Failure (List ToolResult))
            → IfOk (AnswerAll r.tool_calls) results
            → Sound HasDialogIfOk u
                (and_then results (λ rs. save_on_iteration cfg input (after_tools r rs s) >>= next))
        continued u (err f) p = tt
        continued u (ok rs) p =
            Sound-bind HasDialog HasDialogIfOk u (save_on_iteration cfg input (after_tools r rs s))
              next (save_on_iteration-Sound u _ (after_tools-HasDialog r rs s h p))
              (λ v e w q. k v w q)

    after_call-Sound :
        (t : List Event) (iteration left : ℕ) (message_id : Text) (r : LlmResult) (s : LoopState)
        (next : LoopState → Program (Result Failure LoopState))
        → HasDialog s
        → ((tc : ToolCallRequest) → Member tc r.tool_calls → Requested t tc)
        → ((u : List Event) (v : LoopState) → HasDialog v → Sound HasDialogIfOk u (next v))
        → Sound HasDialogIfOk t
            (after_call cfg input delegates contexts iteration left message_id r s next)
    unfolding after_call
    after_call-Sound t iteration left message_id r s next h req k =
        Sound-if HasDialogIfOk t (budget_stops r.usage s.token_budget)
          (ret (ok (record s { telemetry = finish_for FinishReason.token_budget s.telemetry })))
          (after_answer cfg input delegates contexts iteration left message_id r s next
            r.tool_calls)
          (λ e. h)
          (λ e. after_answer-Sound t iteration left message_id r s next r.tool_calls h req k)

    pub iterate-Sound :
        (left iteration : ℕ) (s : LoopState) (t : List Event)
        → HasDialog s
        → Sound HasDialogIfOk t (iterate cfg input delegates contexts iteration left s)
    unfolding iterate llm_input account
    iterate-Sound zero iteration s t h = h
    iterate-Sound (suc left) iteration s t h = (
      tt,
      λ message_id r0. (
        h,
        λ answer r1.
            and_then-Sound HasDialogIfOk _ (call_error iteration answer) _ (λ f. tt)
              (λ r e.
                after_call-Sound _ iteration left message_id r _ _ h
                  (λ tc m. (
                    _,
                    (
                      r,
                      (
                        inl (λ i. (
                          llm (llm_input cfg input contexts message_id iteration false s.messages),
                          call_error-ok iteration answer r e i,
                        )),
                        m,
                      ),
                    ),
                  ))
                  (λ u v q. iterate-Sound left (suc iteration) v u q)),
      ),
    )
