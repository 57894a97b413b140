-- ===== src/Local/Counts/Run.antt =====
-- The iterations of internal/runtime/local/agent_loop.go, the whole run, and the number of its calls of
-- the model.
use Prim.Native.Nat.{zero, suc}
use temporal_go_agent_sdk.Prelude.{
  ℕ, ◌&&◌, ◌==◌, ==_iff, ltb, length, drop, List, [], ◌∷◌, Text, ◌≡◌, inl, inr, refl, arith, Result,
  ok, positive_or,
}
use temporal_go_agent_sdk.Interfaces.{Message}
use temporal_go_agent_sdk.Tools.Failure.{Failure}
use temporal_go_agent_sdk.Base.Telemetry.{FinishReason, AgentTelemetry, new_agent_telemetry}
use temporal_go_agent_sdk.Local.Types.{
  store_memory, ToolCallRequest, LlmResult, AgentConfig, AgentLoopInput, AgentLoopResult,
}
use temporal_go_agent_sdk.Local.Program.{Program, ret, ask, ◌>>=◌, ◌>>◌}
use temporal_go_agent_sdk.Local.Program.Logic.{Event}
use temporal_go_agent_sdk.Local.Delegation.{Delegates}
use temporal_go_agent_sdk.Local.Loop.{
  LoopState, Contexts, conversation_memory_enabled, persist_conversation_messages, count_llm_call,
  account, budget_stops, answer_with, finish_for,
}
use temporal_go_agent_sdk.Local.Loop.Start.{
  load_history, recall_memory, prefetch_context, initial_state, persist_unsaved, finish_run,
  noted_store, result_of,
}
use temporal_go_agent_sdk.Local.Loop.Run.{
  and_then, execute_tools, after_tools, save_on_iteration, final_error, final_state, final_call,
  call_error, after_answer, after_call, iterate, run_agent_loop,
}
use temporal_go_agent_sdk.Local.Counts.{
  Returns, IfOk, IsWithin, IsOnCourse, Returns-bind, Returns-if, Returns-any, Returns-and_then,
  IfOk-any,
}
use temporal_go_agent_sdk.Local.Counts.Phases.{
  after_tools-IsOnCourse, noted_store-IsWithin, IsFresh, IsNew, recall_memory-IsFresh,
  prefetch_context-IsFresh,
}

module _ (n : ℕ) (cfg : AgentConfig) (input : AgentLoopInput) where
  abbrev Ends : Result Failure LoopState → Type 0
  Ends = IfOk (λ s. IsWithin n s.telemetry)

  final_call-Ends :
      (t : List Event) (contexts : Contexts) (iteration : ℕ) (s : LoopState)
      → s.telemetry.total_llm_calls ≡ n
      → Returns Ends t (final_call cfg input contexts iteration s)
  unfolding final_call final_state count_llm_call
  final_call-Ends t contexts iteration s h = (
    tt,
    λ message_id r0. (
      tt,
      λ answer r1.
          Returns-and_then (λ a. Unit {0}) (λ w. IsWithin n w.telemetry) _
            (final_error iteration answer) _ (IfOk-any _) (λ r e. inl (refl, omega arith)),
    ),
  )

  save_on_iteration-IsOnCourse :
      (t : List Event) (left : ℕ) (s : LoopState)
      → IsOnCourse n left s.telemetry
      → Returns (λ w. IsOnCourse n left w.telemetry) t (save_on_iteration cfg input s)
  unfolding save_on_iteration
  save_on_iteration-IsOnCourse t left s h =
      Returns-if (λ w. IsOnCourse n left w.telemetry) t
        (conversation_memory_enabled cfg input
          && (cfg.conversation_save_on_iteration
              && ltb s.persisted_message_count (length s.messages)))
        (persist_conversation_messages cfg.name input.conversation_id
            (drop s.persisted_message_count s.messages)
          >> ret (record s { persisted_message_count = length s.messages }))
        (ret s)
        (λ e.
          Returns-bind (λ a. Unit {0}) (λ w. IsOnCourse n left w.telemetry) t
            (persist_conversation_messages cfg.name input.conversation_id
              (drop s.persisted_message_count s.messages))
            _ (Returns-any _ t) (λ u a p. h))
        (λ e. h)

  module _ (delegates : Delegates) (contexts : Contexts) where
    after_answer-Ends :
        (t : List Event) (iteration left : ℕ) (message_id : Text) (r : LlmResult) (s : LoopState)
        (next : LoopState → Program (Result Failure LoopState)) (tcs : List ToolCallRequest)
        → IsOnCourse n left s.telemetry
        → ((u : List Event) (v : LoopState)
            → IsOnCourse n left v.telemetry
            → Returns Ends u (next v))
        → Returns Ends t
            (after_answer cfg input delegates contexts iteration left message_id r s next tcs)
    unfolding answer_with
    after_answer-Ends t iteration left message_id r s next [] h k = inr (inl h.0, omega arith)
    after_answer-Ends t iteration left message_id r s next (tc ∷ tcs) h k =
        Returns-if Ends t (left == 0) (final_call cfg input contexts iteration s)
          (execute_tools cfg.tool_execution_mode cfg input delegates message_id iteration
              r.tool_calls
            >>= λ results.
                and_then results (λ rs. save_on_iteration cfg input (after_tools r rs s) >>= next))
          (λ e.
            final_call-Ends t contexts iteration s
              (let z : left ≡ 0 = (==_iff left 0).0 e in omega arith))
          (λ e.
            Returns-bind (λ a. Unit {0}) Ends t
              (execute_tools cfg.tool_execution_mode cfg input delegates message_id iteration
                r.tool_calls)
              _ (Returns-any _ t)
              (λ u results p.
                Returns-and_then (λ a. Unit {0}) (λ w. IsWithin n w.telemetry) u results _
                  (IfOk-any results)
                  (λ rs q.
                    Returns-bind (λ w. IsOnCourse n left w.telemetry) Ends u
                      (save_on_iteration cfg input (after_tools r rs s)) next
                      (save_on_iteration-IsOnCourse u left _
                        (after_tools-IsOnCourse n left r rs s h))
                      k)))

    iterate-Ends :
        (left iteration : ℕ) (s : LoopState) (t : List Event)
        → IsOnCourse n left s.telemetry
        → Returns Ends t (iterate cfg input delegates contexts iteration left s)
    unfolding iterate after_call account count_llm_call
    iterate-Ends zero iteration s t h = inr (inl h.0, omega arith)
    iterate-Ends (suc left) iteration s t h = (
      tt,
      λ message_id r0. (
        tt,
        λ answer r1.
            Returns-and_then (λ a. Unit {0}) (λ w. IsWithin n w.telemetry) _
              (call_error iteration answer) _ (IfOk-any _)
              (λ r e.
                Returns-if Ends _ (budget_stops r.usage (account r.usage s).token_budget)
                  (ret (
                    ok (record (account r.usage s) {
                      telemetry =
                          finish_for FinishReason.token_budget (account r.usage s).telemetry;
                    })))
                  (after_answer cfg input delegates contexts iteration left message_id r
                    (account r.usage s)
                    (λ u. iterate cfg input delegates contexts (suc iteration) left u) r.tool_calls)
                  (λ f. inr (inr refl, omega arith))
                  (λ f.
                    after_answer-Ends _ iteration left message_id r (account r.usage s) _
                      r.tool_calls (h.0, omega arith)
                      (λ u v q. iterate-Ends left (suc iteration) v u q))),
      ),
    )

  initial_state-IsOnCourse :
      (history : List Message) (tel : AgentTelemetry)
      → IsOnCourse n n tel
      → IsOnCourse n n (initial_state cfg input history tel).telemetry
  unfolding initial_state
  initial_state-IsOnCourse history tel h = h

  finish_run-IsWithin :
      (t : List Event) (s : LoopState)
      → IsWithin n s.telemetry
      → Returns (λ r. IsWithin n r.telemetry) t (finish_run cfg input s)
  unfolding finish_run
  finish_run-IsWithin t s h =
      Returns-bind (λ a. Unit {0}) (λ r. IsWithin n r.telemetry) t (persist_unsaved cfg input s) _
        (Returns-any _ t)
        (λ u a p.
          Returns-if (λ r. IsWithin n r.telemetry) u cfg.run_end_memory_store
            (ask (store_memory cfg.name input.memory_scope s.messages) >>= λ answer.
              ret (result_of s (noted_store answer s.telemetry)))
            (ret (result_of s s.telemetry))
            (λ e. (tt, λ x r. noted_store-IsWithin n x s.telemetry h)) (λ e. h))

-- The telemetry of a run that returns a result reports at most as many calls of the model as the
-- limit of iterations (10 where the limit is not positive), and one more exactly when its finish
-- reason is the limit; no other run ends for that reason.
pub run_agent_loop-IsWithin :
    (cfg : AgentConfig) (delegates : Delegates) (input : AgentLoopInput)
    → Returns
        (IfOk (λ r. IsWithin (positive_or cfg.max_iterations 10) r.telemetry))
        []
        (run_agent_loop cfg delegates input)
unfolding run_agent_loop new_agent_telemetry
run_agent_loop-IsWithin cfg delegates input =
    Returns-bind (λ a. Unit {0}) Good [] (load_history cfg input) _ (Returns-any _ [])
      (λ u0 history p0.
        Returns-bind IsFresh Good u0 (recall_memory cfg input new_agent_telemetry) _
          (recall_memory-IsFresh cfg input new_agent_telemetry u0 (refl, refl))
          (λ u1 recalled p1.
            Returns-and_then (λ m. IsNew m.1) Within u1 recalled _ p1
              (λ m q1.
                Returns-bind IsFresh Good u1 (prefetch_context cfg input m.1) _
                  (prefetch_context-IsFresh cfg input m.1 u1 q1)
                  (λ u2 fetched p2.
                    Returns-and_then (λ m. IsNew m.1) Within u2 fetched _ p2
                      (λ p q2.
                        Returns-bind
                          (IfOk (λ s. IsWithin (positive_or cfg.max_iterations 10) s.telemetry))
                          Good u2
                          (iterate cfg input delegates
                            (record { memory_context = m.0; retriever_context = p.0 }) 0
                            (positive_or cfg.max_iterations 10)
                            (initial_state cfg input history p.1))
                          _
                          (iterate-Ends (positive_or cfg.max_iterations 10) cfg input delegates _
                            (positive_or cfg.max_iterations 10) 0 _ u2
                            (initial_state-IsOnCourse _ cfg input history p.1 (q2.0, omega arith)))
                          (λ u3 last p3.
                            Returns-and_then
                              (λ s. IsWithin (positive_or cfg.max_iterations 10) s.telemetry) Within
                              u3 last _ p3
                              (λ w q3.
                                Returns-bind Within Good u3 (finish_run cfg input w) _
                                  (finish_run-IsWithin _ cfg input u3 w q3) (λ u4 r q4. q4))))))))
  where
    Within : AgentLoopResult → Type 0
    Within r = IsWithin (positive_or cfg.max_iterations 10) r.telemetry

    Good : Result Failure AgentLoopResult → Type 0
    Good = IfOk Within
