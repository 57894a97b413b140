-- ===== src/Local/Safety/Run.antt =====
-- `RunAgentLoop` of internal/runtime/local/agent_loop.go as a whole, with the loops of the sub-agents
-- that its routes start.
use temporal_go_agent_sdk.Prelude.{
  Bool, true, false, ◌&&◌, ltb, length, drop, List, [], ◌∷◌, Text, text_eq, refl, Result, ok, err,
  Option, none, some, positive_or,
}
use temporal_go_agent_sdk.Interfaces.{Message, role_eq}
use temporal_go_agent_sdk.Tools.Failure.{Failure}
use temporal_go_agent_sdk.Base.Telemetry.{AgentTelemetry, new_agent_telemetry}
use temporal_go_agent_sdk.Local.Types.{
  AgentConfig, AgentLoopInput, Call, llm, execute, fetch_messages, recall, retrieve, store_memory,
}
use temporal_go_agent_sdk.Local.Program.{ret, ask, ◌>>=◌}
use temporal_go_agent_sdk.Local.Program.Logic.{Event, Allowed, Allowed-weaken}
use temporal_go_agent_sdk.Local.Delegation.{Delegate, Delegates}
use temporal_go_agent_sdk.Local.Loop.{
  LoopState, Contexts, conversation_memory_enabled, persist_conversation_messages,
}
use temporal_go_agent_sdk.Local.Loop.Start.{
  history_or_none, load_history, after_recall, recall_memory, prefetches, after_prefetch,
  prefetch_context, initial_state, persist_unsaved, finish_run, user_message, result_of,
  noted_store,
}
use temporal_go_agent_sdk.Local.Loop.Run.{
  and_then, iterate, run_agent_loop, Route, route, Routes, no_routes, entry, delegate_of,
  delegates_of,
}
use temporal_go_agent_sdk.Local.Safety.{Permit, Rely, Sound, IsDialog, IsDialog-append, IsPermitted}
use temporal_go_agent_sdk.Local.Safety.Frame.{
  Anything, Sound-bind, Sound-then, Sound-if, AreSound, IsSoundRun, IsSoundRoute,
}
use temporal_go_agent_sdk.Local.Safety.Loop.{
  HasDialog, HasDialogIfOk, and_then-Sound, persist-Sound, iterate-Sound,
}

history_or_none-IsDialog :
    (agent conversation_id : Text) (r : Result Failure (List Message))
    → Rely (fetch_messages agent conversation_id) r
    → IsDialog [] (history_or_none r)
history_or_none-IsDialog agent conversation_id (ok ms) h = h
history_or_none-IsDialog agent conversation_id (err f) h = tt

module _ (cfg : AgentConfig) (input : AgentLoopInput) where
  load_history-Sound : (t : List Event) → Sound (IsDialog []) t (load_history cfg input)
  unfolding load_history
  load_history-Sound t =
      Sound-if (IsDialog []) t (conversation_memory_enabled cfg input)
        (ask (fetch_messages cfg.name input.conversation_id) >>= λ r. ret (history_or_none r))
        (ret []) (λ e. (tt, λ x r. history_or_none-IsDialog cfg.name input.conversation_id x r))
        (λ e. tt)

  recall_memory-Sound :
      (t : List Event) (tel : AgentTelemetry) → Sound Anything t (recall_memory cfg input tel)
  unfolding recall_memory
  recall_memory-Sound t tel =
      Sound-if Anything t cfg.recall_enabled
        (ask (recall cfg.name input.memory_scope input.user_prompt) >>= λ r.
          ret (after_recall tel r))
        (ret (ok ([], tel))) (λ e. (tt, λ x r. tt)) (λ e. tt)

  prefetch_context-Sound :
      (t : List Event) (tel : AgentTelemetry) → Sound Anything t (prefetch_context cfg input tel)
  unfolding prefetch_context
  prefetch_context-Sound t tel =
      Sound-if Anything t (prefetches cfg.retriever_mode && cfg.has_retrievers)
        (ask (retrieve cfg.name input.user_prompt) >>= λ r. ret (after_prefetch tel r))
        (ret (ok ([], tel))) (λ e. (tt, λ x r. tt)) (λ e. tt)

  persist_unsaved-Sound :
      (t : List Event) (s : LoopState) → Sound Anything t (persist_unsaved cfg input s)
  unfolding persist_unsaved
  persist_unsaved-Sound t s =
      Sound-if Anything t
        (conversation_memory_enabled cfg input && ltb s.persisted_message_count (length s.messages))
        (persist_conversation_messages cfg.name input.conversation_id
          (drop s.persisted_message_count s.messages))
        (ret 0) (λ e. persist-Sound cfg.name input.conversation_id _ t) (λ e. tt)

  finish_run-Sound : (t : List Event) (s : LoopState) → Sound Anything t (finish_run cfg input s)
  unfolding finish_run
  finish_run-Sound t s =
      Sound-then Anything t (persist_unsaved cfg input s) _ (persist_unsaved-Sound t s) (λ u e.
        Sound-if Anything u cfg.run_end_memory_store
          (ask (store_memory cfg.name input.memory_scope s.messages) >>= λ answer.
            ret (result_of s (noted_store answer s.telemetry)))
          (ret (result_of s s.telemetry)) (λ f. (tt, λ x r. tt)) (λ f. tt))

  initial_state-HasDialog :
      (history : List Message) (tel : AgentTelemetry)
      → IsDialog [] history
      → HasDialog (initial_state cfg input history tel)
  unfolding initial_state role_eq
  initial_state-HasDialog history tel h =
      IsDialog-append [] history (user_message input.user_prompt ∷ []) h (refl, tt)

  run_agent_loop-Sound :
      (delegates : Delegates) (t : List Event)
      → AreSound delegates
      → Sound Anything t (run_agent_loop cfg delegates input)
  unfolding run_agent_loop
  run_agent_loop-Sound delegates t sound =
      Sound-bind (IsDialog []) Anything t (load_history cfg input) _ (load_history-Sound t)
        (λ u0 e0 history h.
          Sound-bind Anything Anything u0 (recall_memory cfg input new_agent_telemetry) _
            (recall_memory-Sound u0 _)
            (λ u1 e1 recalled p1.
              and_then-Sound Anything u1 recalled _ (λ f. tt)
                (λ m q1.
                  Sound-bind Anything Anything u1 (prefetch_context cfg input m.1) _
                    (prefetch_context-Sound u1 m.1)
                    (λ u2 e2 fetched p2.
                      and_then-Sound Anything u2 fetched _ (λ f. tt)
                        (λ p q2.
                          iterated u2 (record { memory_context = m.0; retriever_context = p.0 })
                            (initial_state cfg input history p.1)
                            (initial_state-HasDialog history p.1 h))))))
    where
      iterated :
          (u : List Event) (contexts : Contexts) (s : LoopState)
          → HasDialog s
          → Sound Anything u (
              iterate cfg input delegates contexts 0 (positive_or cfg.max_iterations 10) s
              >>= λ last. and_then last (λ w. finish_run cfg input w >>= λ r. ret (ok r)))
      iterated u contexts s h =
          Sound-bind HasDialogIfOk Anything u
            (iterate cfg input delegates contexts 0 (positive_or cfg.max_iterations 10) s) _
            (iterate-Sound cfg input delegates sound contexts _ 0 s u h)
            (λ v e last p.
              and_then-Sound Anything v last _ (λ f. tt)
                (λ w q.
                  Sound-bind Anything Anything v (finish_run cfg input w) _ (finish_run-Sound v w)
                    (λ x f r c. tt)))

either-IsSoundRoute :
    (b : Bool) (d e : Option Delegate)
    → IsSoundRoute d
    → IsSoundRoute e
    → IsSoundRoute (elim b [ true ↦ d | false ↦ e ])
either-IsSoundRoute true d e h k = h
either-IsSoundRoute false d e h k = k

-- The routes of the tree, from the leaves up.
mutual
  delegate_of-Sound : (r : Route) → IsSoundRun (delegate_of r).run
  delegate_of-Sound (route name none children) = tt
  delegate_of-Sound (route name (some cfg) children) = λ t input.
      run_agent_loop-Sound cfg input (delegates_of children) t (delegates_of-AreSound children)

  delegates_of-AreSound :
      (rs : Routes) (tool_name : Text) → IsSoundRoute (delegates_of rs tool_name)
  delegates_of-AreSound no_routes tool_name = tt
  delegates_of-AreSound (entry n r more) tool_name =
      either-IsSoundRoute (text_eq n tool_name) (some (delegate_of r)) (delegates_of more tool_name)
        (delegate_of-Sound r) (delegates_of-AreSound more tool_name)

-- What is asked of the messages of a call of the model.
abbrev pub SendsDialog : List Event → Call → Type 0
SendsDialog t (llm i) = IsDialog [] i.messages
SendsDialog t _ = Unit {0}

-- What is asked of the execution of a tool.
abbrev pub RunsPermitted : List Event → Call → Type 0
RunsPermitted t (execute agent i) = IsPermitted t agent i
RunsPermitted t _ = Unit {0}

Permit-SendsDialog : (t : List Event) (q : Call) → Permit t q → SendsDialog t q
Permit-SendsDialog t (llm i) h = h
Permit-SendsDialog t q h = tt

Permit-RunsPermitted : (t : List Event) (q : Call) → Permit t q → RunsPermitted t q
Permit-RunsPermitted t (execute agent i) h = h
Permit-RunsPermitted t q h = tt

-- In a run of the loop, with any tree of sub-agents, any answers and any schedule of the parallel
-- tools, the messages of each call of the model are a dialog, provided that each history that the
-- conversation store returns is one: the tool messages that follow an assistant message answer its
-- tool calls, one for each, in their order, and no other tool message stands anywhere.
pub run_agent_loop-SendsDialog :
    (cfg : AgentConfig) (routes : Routes) (input : AgentLoopInput)
    → Allowed SendsDialog Rely Anything [] (run_agent_loop cfg (delegates_of routes) input)
run_agent_loop-SendsDialog cfg routes input =
    Allowed-weaken Permit SendsDialog Rely Anything _ [] Permit-SendsDialog
      (run_agent_loop-Sound cfg input (delegates_of routes) [] (delegates_of-AreSound routes))

-- In a run of the loop, with any tree of sub-agents, any answers and any schedule of the parallel
-- tools, a tool is executed only for a call that the model asked for in an earlier answer, after an
-- earlier authorization of its name and arguments that allowed it, and, if the call needs approval,
-- after an earlier answer of approval to this call. (The run relies on histories that are dialogs.)
pub run_agent_loop-RunsPermitted :
    (cfg : AgentConfig) (routes : Routes) (input : AgentLoopInput)
    → Allowed RunsPermitted Rely Anything [] (run_agent_loop cfg (delegates_of routes) input)
run_agent_loop-RunsPermitted cfg routes input =
    Allowed-weaken Permit RunsPermitted Rely Anything _ [] Permit-RunsPermitted
      (run_agent_loop-Sound cfg input (delegates_of routes) [] (delegates_of-AreSound routes))
