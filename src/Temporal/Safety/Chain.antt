-- ===== src/Temporal/Safety/Chain.antt =====
-- AgentWorkflow of internal/runtime/temporal/agent_workflow.go as a whole, with the runs that
-- continue-as-new adds.
use temporal_go_agent_sdk.Prelude.{
  ℕ, zero, suc, ◌&&◌, List, [], ◌≡◌, refl, sym, subst, Option, none, some, Result, ok, err,
}
use temporal_go_agent_sdk.Interfaces.{Message, role_eq}
use temporal_go_agent_sdk.Effects.{ret, ◌>>=◌, and_then}
use temporal_go_agent_sdk.Effects.Logic.{Allowed, Allowed-bind, Allowed-weaken}
use temporal_go_agent_sdk.Effects.Yields.{IfOk}
use temporal_go_agent_sdk.Effects.Frame.{Anything, Allowed-if, Allowed-after, Allowed-answer}
use temporal_go_agent_sdk.Tools.Failure.{Failure}
use temporal_go_agent_sdk.Base.Telemetry.{AgentTelemetry}
use temporal_go_agent_sdk.Local.Loop.{Contexts}
use temporal_go_agent_sdk.Local.Loop.Start.{prefetches}
use temporal_go_agent_sdk.Local.Safety.{IsDialog}
use temporal_go_agent_sdk.Temporal.Types.{
  AgentWorkflowState, AgentWorkflowInput, AgentRunResult, WorkflowConfig, Activity, generate,
  execute, run_child, add_messages, recall, retrieve, store_memory, Workflow, run,
}
use temporal_go_agent_sdk.Temporal.Workflow.{
  WorkflowVars, LoopEnd, stopped, continued, conversation_memory_enabled, has_messages, iterate,
}
use temporal_go_agent_sdk.Temporal.Workflow.Run.{
  RunEnd, finished, continue_as_new, start_state, start_telemetry, noted_recall, recall_memory,
  noted_prefetch, prefetch_context, initial_vars, iterations_left, after_persist, persist_unsaved,
  noted_store, store_at_end, finish_run, run_loop, agent_workflow,
}
use temporal_go_agent_sdk.Temporal.Workflow.Chain.{after_run, run_chain}
use temporal_go_agent_sdk.Temporal.Safety.{
  Event, Permit, Open, Sound, IsPermitted, IsPermittedChild,
}
use temporal_go_agent_sdk.Temporal.Safety.Loop.{HasDialog, EndsInDialog, iterate-Sound}

-- The messages of a state are a dialog; a run without a state starts one.
abbrev pub StartsDialog : Option AgentWorkflowState → Type 0
StartsDialog none = Unit {0}
StartsDialog (some s) = IsDialog [] s.messages

-- The next run has the same input, and a state that is a dialog.
abbrev Continues : AgentWorkflowInput → RunEnd → Type 0
Continues input (finished r) = Unit {0}
Continues input (continue_as_new next) =
    (s : AgentWorkflowState) × ((next ≡ record input { state = some s }) × IsDialog [] s.messages)

start_state-IsDialog :
    (input : AgentWorkflowInput)
    → StartsDialog input.state
    → IsDialog [] (start_state input).messages
unfolding start_state role_eq
start_state-IsDialog input h = by_state input.state h
  where
    by_state :
        (s : Option AgentWorkflowState)
        → StartsDialog s
        → IsDialog [] (start_state (record input { state = s })).messages
    by_state none k = (refl, tt)
    by_state (some s) k = k

IfOk-Anything : {A : Type 0} (r : Result Failure A) → IfOk Anything r
IfOk-Anything (ok a) = tt
IfOk-Anything (err f) = tt

module _ (cfg : WorkflowConfig) (input : AgentWorkflowInput) where
  recall_memory-Sound :
      (t : List Event) (tel : AgentTelemetry)
      → Sound input (IfOk Anything) t (recall_memory cfg input tel)
  unfolding recall_memory
  recall_memory-Sound t tel =
      Allowed-if (Permit input) Open (IfOk Anything) t cfg.agent.recall_enabled
        (run (recall input.memory_scope input.user_prompt) >>= λ answer.
          and_then answer (λ r. ret (ok (r.context, noted_recall r tel))))
        (ret (ok ([], tel)))
        (λ e. (tt, λ x r. Allowed-answer (Permit input) Open Anything _ x _ (λ a p. tt))) (λ e. tt)

  prefetch_context-Sound :
      (t : List Event) (tel : AgentTelemetry)
      → Sound input (IfOk Anything) t (prefetch_context cfg input tel)
  unfolding prefetch_context
  prefetch_context-Sound t tel =
      Allowed-if (Permit input) Open (IfOk Anything) t
        (prefetches cfg.agent.retriever_mode && cfg.agent.has_retrievers)
        (run (retrieve input.user_prompt) >>= λ answer.
          and_then answer (λ r. ret (ok (r.context, noted_prefetch r tel))))
        (ret (ok ([], tel)))
        (λ e. (tt, λ x r. Allowed-answer (Permit input) Open Anything _ x _ (λ a p. tt))) (λ e. tt)

  persist_unsaved-Sound :
      (t : List Event) (messages : List Message)
      → IsDialog [] messages
      → Sound input (IfOk Anything) t (persist_unsaved cfg input messages)
  unfolding persist_unsaved
  persist_unsaved-Sound t messages h =
      Allowed-if (Permit input) Open (IfOk Anything) t
        (conversation_memory_enabled cfg input.conversation_id && has_messages messages)
        (run (add_messages input.conversation_id messages) >>= λ answer.
          ret (after_persist cfg.agent.conversation_save_on_iteration answer))
        (ret (ok tt))
        (λ e. (h, λ x r. IfOk-Anything (after_persist cfg.agent.conversation_save_on_iteration x)))
        (λ e. tt)

  store_at_end-Sound :
      (t : List Event) (v : WorkflowVars)
      → HasDialog v
      → Sound input (IfOk Anything) t (store_at_end cfg input v)
  unfolding store_at_end
  store_at_end-Sound t v h =
      Allowed-if (Permit input) Open (IfOk Anything) t cfg.agent.run_end_memory_store
        (run (store_memory input.memory_scope v.messages) >>= λ answer.
          ret (noted_store answer v.telemetry))
        (ret (ok v.telemetry)) (λ e. (h, λ x r. IfOk-Anything (noted_store x v.telemetry)))
        (λ e. tt)

  finish_run-Sound :
      (t : List Event) (last : LoopEnd)
      → EndsInDialog last
      → Sound input (IfOk (Continues input)) t (finish_run cfg input last)
  unfolding finish_run
  finish_run-Sound t (continued s) h = (s, (refl, h))
  finish_run-Sound t (stopped v) h =
      Allowed-after (Permit input) Open Anything (Continues input) t
        (persist_unsaved cfg input v.messages) _ (persist_unsaved-Sound t v.messages h)
        (λ u e a p.
          Allowed-after (Permit input) Open Anything (Continues input) u (store_at_end cfg input v)
            _ (store_at_end-Sound u v h) (λ w f b q. tt))

  run_loop-Sound :
      (t : List Event) (contexts : Contexts) (tel : AgentTelemetry)
      → StartsDialog input.state
      → Sound input (IfOk (Continues input)) t (run_loop cfg input contexts tel)
  unfolding run_loop initial_vars
  run_loop-Sound t contexts tel h =
      Allowed-after (Permit input) Open EndsInDialog (Continues input) t
        (iterate cfg input contexts (start_state input).iteration
          (iterations_left cfg.agent.max_iterations (start_state input).iteration)
          (initial_vars cfg (start_state input) tel))
        (finish_run cfg input)
        (iterate-Sound cfg input contexts _ _ _ t (start_state-IsDialog input h))
        (λ u e last p. finish_run-Sound u last p)

  agent_workflow-Sound :
      (t : List Event)
      → StartsDialog input.state
      → Sound input (IfOk (Continues input)) t (agent_workflow cfg input)
  unfolding agent_workflow
  agent_workflow-Sound t h = (
    tt,
    λ suffix r. Allowed-answer (Permit input) Open (Continues input) _ suffix _ (λ x p.
        Allowed-after (Permit input) Open Anything (Continues input) _
          (recall_memory cfg input (start_telemetry (start_state input).telemetry)) _
          (recall_memory-Sound _ _)
          (λ u e m q.
            Allowed-after (Permit input) Open Anything (Continues input) u
              (prefetch_context cfg input m.1) _ (prefetch_context-Sound u m.1)
              (λ v f p1 w. run_loop-Sound v _ p1.1 h))),
  )

  after_run-Sound :
      (t : List Event)
      (rest : AgentWorkflowInput → Workflow (Option (Result Failure AgentRunResult)))
      (end : Result Failure RunEnd)
      → IfOk (Continues input) end
      → ((s : AgentWorkflowState)
          → IsDialog [] s.messages
          → Sound input Anything t (rest (record input { state = some s })))
      → Sound input Anything t (after_run rest end)
  after_run-Sound t rest (err f) h k = tt
  after_run-Sound t rest (ok (finished r)) h k = tt
  after_run-Sound t rest (ok (continue_as_new next)) (s, (p, d)) k =
      subst (λ n. Sound input Anything t (rest n)) (sym p) (k s d)

pub run_chain-Sound :
    (fuel : ℕ) (cfg : WorkflowConfig) (input : AgentWorkflowInput) (t : List Event)
    → StartsDialog input.state
    → Sound input Anything t (run_chain fuel cfg input)
unfolding run_chain
run_chain-Sound zero cfg input t h = tt
run_chain-Sound (suc fuel) cfg input t h =
    Allowed-bind (Permit input) Open (IfOk (Continues input)) Anything t (agent_workflow cfg input)
      (after_run (run_chain fuel cfg)) (agent_workflow-Sound cfg input t h)
      (λ u e end p.
        after_run-Sound cfg input u (run_chain fuel cfg) end p
          (λ s d. run_chain-Sound fuel cfg (record input { state = some s }) u d))

-- What is asked of the messages that leave the workflow: to the model, to the conversation and to the
-- memory.
abbrev pub SendsDialog : List Event → Activity → Type 0
SendsDialog t (generate c i) = IsDialog [] i.messages
SendsDialog t (add_messages c ms) = IsDialog [] ms
SendsDialog t (store_memory s ms) = IsDialog [] ms
SendsDialog t _ = Unit {0}

Permit-SendsDialog :
    (input : AgentWorkflowInput) (t : List Event) (q : Activity)
    → Permit input t q
    → SendsDialog t q
Permit-SendsDialog input t (generate c i) h = h
Permit-SendsDialog input t (add_messages c ms) h = h
Permit-SendsDialog input t (store_memory s ms) h = h
Permit-SendsDialog input t q h = tt

-- What is asked of the tools and children that the workflow starts.
abbrev pub RunsPermitted : AgentWorkflowInput → List Event → Activity → Type 0
RunsPermitted input t (execute i) = IsPermitted t i
RunsPermitted input t (run_child q i) = IsPermittedChild input t i
RunsPermitted input t _ = Unit {0}

Permit-RunsPermitted :
    (input : AgentWorkflowInput) (t : List Event) (q : Activity)
    → Permit input t q
    → RunsPermitted input t q
Permit-RunsPermitted input t (execute i) h = h
Permit-RunsPermitted input t (run_child q i) h = h
Permit-RunsPermitted input t q h = tt

-- In a workflow and all runs that continue it, whatever the activities answer and however
-- coroutines interleave, each list of messages that the workflow hands to its activities, to call
-- the model, to add to the conversation or to store in memory, is a dialog, when the state that it
-- starts from (if any) is one: the tool messages that follow an assistant message answer its tool
-- calls, one for each, in their order, and no other tool message stands anywhere. So the workflow
-- never saves a conversation in the middle of a batch. What the activities that call the model put
-- in front, the history of the conversation, is not spoken of: it may begin in the middle of a
-- batch.
pub run_chain-SendsDialog :
    (fuel : ℕ) (cfg : WorkflowConfig) (input : AgentWorkflowInput)
    → StartsDialog input.state
    → Allowed SendsDialog Open Anything [] (run_chain fuel cfg input)
run_chain-SendsDialog fuel cfg input h =
    Allowed-weaken (Permit input) SendsDialog Open Anything _ [] (Permit-SendsDialog input)
      (run_chain-Sound fuel cfg input [] h)

-- In a workflow and all runs that continue it, whatever the activities answer and however coroutines
-- interleave, a tool or a child workflow is started only for a call that stood in `llmResult` after an
-- earlier call of the model (where its arguments may be mixed with those of answers before it, since
-- each answer is decoded into the last one), after an earlier authorization of just this name and
-- these arguments that allowed it, and, if the call needs approval, after an earlier approval of this
-- call; and a child only below the workflow's depth limit, with the call's query as its prompt. (A
-- state that it starts from is a dialog.)
pub run_chain-RunsPermitted :
    (fuel : ℕ) (cfg : WorkflowConfig) (input : AgentWorkflowInput)
    → StartsDialog input.state
    → Allowed (RunsPermitted input) Open Anything [] (run_chain fuel cfg input)
run_chain-RunsPermitted fuel cfg input h =
    Allowed-weaken (Permit input) (RunsPermitted input) Open Anything _ []
      (Permit-RunsPermitted input) (run_chain-Sound fuel cfg input [] h)
