-- ===== src/Temporal/Workflow/Run.antt =====
-- One run of `AgentWorkflow` of internal/runtime/temporal/agent_workflow.go: what it does before its
-- first iteration and after its last one.
use temporal_go_agent_sdk.Prelude.{
  ℕ, ◌+◌, ◌-◌, suc, Bool, true, false, ◌&&◌, [], ◌∷◌, List, Option, none, some, Text, ℤ, pos_part,
  Result, ok, err, if◌then◌else◌,
}
use temporal_go_agent_sdk.Interfaces.{Message}
use temporal_go_agent_sdk.Effects.{ret, ◌>>=◌, and_then}
use temporal_go_agent_sdk.Tools.Failure.{Failure}
use temporal_go_agent_sdk.Base.Telemetry.{AgentTelemetry, new_agent_telemetry}
use temporal_go_agent_sdk.Local.Types.{MemoryResult, RetrieverResult}
use temporal_go_agent_sdk.Local.Loop.{Contexts}
use temporal_go_agent_sdk.Local.Loop.Start.{user_message, prefetches, initial_budget}
use temporal_go_agent_sdk.Temporal.Types.{
  AgentWorkflowState, AgentWorkflowInput, AgentRunResult, WorkflowConfig, Ending, succeeded, failed,
  canceled, side_effect_id, add_messages, recall, retrieve, store_memory, run, Fallible,
}
use temporal_go_agent_sdk.Temporal.Workflow.{
  WorkflowVars, LoopEnd, stopped, continued, conversation_memory_enabled, has_messages, iterate,
}

-- A run returns its result or continues with another input.
pub data RunEnd : Type 0 where
  finished : AgentRunResult → RunEnd
  continue_as_new : AgentWorkflowInput → RunEnd

-- The state that the run starts from.
unfoldable pub start_state : AgentWorkflowInput → AgentWorkflowState
start_state input = elim input.state [
  | some s ↦ s
  | none ↦ record {
    iteration = 0;
    messages = user_message input.user_prompt ∷ [];
    llm_usage = none;
    telemetry = none;
  }
]

unfoldable pub start_telemetry : Option AgentTelemetry → AgentTelemetry
unfolding new_agent_telemetry
start_telemetry none = new_agent_telemetry
start_telemetry (some t) = t

abbrev pub noted_recall : MemoryResult → AgentTelemetry → AgentTelemetry
noted_recall r t = record t {
  storage = record t.storage {
    total_memory_recalls = t.storage.total_memory_recalls + r.total_recalls;
    failed_memory_recalls = t.storage.failed_memory_recalls + r.failed_recalls;
  };
}

unfoldable pub recall_memory :
    WorkflowConfig → AgentWorkflowInput → AgentTelemetry → Fallible (Text × AgentTelemetry)
recall_memory cfg input t =
    if cfg.agent.recall_enabled
    then (run (recall input.memory_scope input.user_prompt) >>= λ answer.
        and_then answer (λ r. ret (ok (r.context, noted_recall r t))))
    else ret (ok ([], t))

abbrev pub noted_prefetch : RetrieverResult → AgentTelemetry → AgentTelemetry
noted_prefetch r t = record t {
  storage = record t.storage {
    total_retriever_searches = t.storage.total_retriever_searches + r.total_searches;
    failed_retriever_searches = t.storage.failed_retriever_searches + r.failed_searches;
    prefetch_searches = t.storage.prefetch_searches + r.total_searches;
  };
}

unfoldable pub prefetch_context :
    WorkflowConfig → AgentWorkflowInput → AgentTelemetry → Fallible (Text × AgentTelemetry)
prefetch_context cfg input t =
    if prefetches cfg.agent.retriever_mode && cfg.agent.has_retrievers
    then (run (retrieve input.user_prompt) >>= λ answer.
        and_then answer (λ r. ret (ok (r.context, noted_prefetch r t))))
    else ret (ok ([], t))

-- The token budget starts anew in each run.
unfoldable pub initial_vars : WorkflowConfig → AgentWorkflowState → AgentTelemetry → WorkflowVars
unfolding initial_budget
initial_vars cfg s t = record {
  messages = s.messages;
  last_content = [];
  llm_usage = s.llm_usage;
  token_budget = initial_budget cfg.agent.max_tokens;
  telemetry = t;
}

-- `iter < maxIter`, from the iteration of the state on.
abbrev pub iterations_left : ℤ → ℕ → ℕ
iterations_left max_iterations iteration = pos_part max_iterations - iteration

abbrev pub after_persist : Bool → Option Failure → Result Failure (Unit {0})
after_persist saves_on_iteration none = ok tt
after_persist true (some f) = ok tt
after_persist false (some f) = err f

-- Adds the messages that are left; an error ends a run that does not save on each iteration.
unfoldable pub persist_unsaved :
    WorkflowConfig → AgentWorkflowInput → List Message → Fallible (Unit {0})
unfolding conversation_memory_enabled
persist_unsaved cfg input messages =
    if conversation_memory_enabled cfg input.conversation_id && has_messages messages
    then (run (add_messages input.conversation_id messages) >>= λ answer.
        ret (after_persist cfg.agent.conversation_save_on_iteration answer))
    else ret (ok tt)

abbrev pub noted_store : Ending → AgentTelemetry → Result Failure AgentTelemetry
noted_store succeeded t = ok (record t {
  storage = record t.storage { total_memory_stores = suc t.storage.total_memory_stores };
})
noted_store (failed f) t = ok (record t {
  storage = record t.storage { failed_memory_stores = suc t.storage.failed_memory_stores };
})
noted_store (canceled f) t = err f

unfoldable pub store_at_end :
    WorkflowConfig → AgentWorkflowInput → WorkflowVars → Fallible AgentTelemetry
store_at_end cfg input v =
    if cfg.agent.run_end_memory_store
    then (run (store_memory input.memory_scope v.messages) >>= λ answer.
        ret (noted_store answer v.telemetry))
    else ret (ok v.telemetry)

abbrev pub run_result : WorkflowConfig → WorkflowVars → AgentTelemetry → AgentRunResult
run_result cfg v t = record {
  content = v.last_content;
  agent_name = cfg.agent.name;
  model = cfg.model;
  llm_usage = v.llm_usage;
  telemetry = t;
}

unfoldable pub finish_run : WorkflowConfig → AgentWorkflowInput → LoopEnd → Fallible RunEnd
unfolding persist_unsaved store_at_end
finish_run cfg input (continued s) = ret (ok (continue_as_new (record input { state = some s })))
finish_run cfg input (stopped v) = persist_unsaved cfg input v.messages >>= λ persisted.
    and_then persisted (λ u. store_at_end cfg input v >>= λ noted.
    and_then noted (λ t. ret (ok (finished (run_result cfg v t)))))

-- From the contexts on.
unfoldable pub run_loop :
    WorkflowConfig → AgentWorkflowInput → Contexts → AgentTelemetry → Fallible RunEnd
unfolding start_state initial_vars iterate finish_run
run_loop cfg input contexts t =
    iterate cfg input contexts (start_state input).iteration
      (iterations_left cfg.agent.max_iterations (start_state input).iteration)
      (initial_vars cfg (start_state input) t)
    >>= λ last. and_then last (finish_run cfg input)

-- One run. The first id is the suffix of the activities' ids.
unfoldable pub agent_workflow : WorkflowConfig → AgentWorkflowInput → Fallible RunEnd
unfolding recall_memory prefetch_context run_loop
agent_workflow cfg input = run side_effect_id >>= λ suffix. and_then suffix (λ x.
    recall_memory cfg input (start_telemetry (start_state input).telemetry) >>= λ recalled.
    and_then recalled (λ m. prefetch_context cfg input m.1 >>= λ fetched.
    and_then fetched
      (λ p. run_loop cfg input (record { memory_context = m.0; retriever_context = p.0 }) p.1)))
