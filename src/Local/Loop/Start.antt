-- ===== src/Local/Loop/Start.antt =====
-- What `RunAgentLoop` does before its first iteration (history, memory recall, retriever prefetch) and
-- after its last one (persistence, memory store, result).
use Prim.Native.Nat.{suc}
use temporal_go_agent_sdk.Prelude.{
  ℕ, ◌+◌, Bool, true, false, ◌&&◌, ltb, List, [], ◌∷◌, ◌++◌, length, drop, Option, none, some, Text,
  codes, ℤ, pos, ltb_ℤ, Result, ok, err, if◌then◌else◌,
}
use temporal_go_agent_sdk.Interfaces.{MessageRole, Message}
use temporal_go_agent_sdk.Tools.Failure.{Failure, wrapped}
use temporal_go_agent_sdk.Base.Budget.{TokenBudget, new_token_budget}
use temporal_go_agent_sdk.Base.Telemetry.{AgentTelemetry}
use temporal_go_agent_sdk.Local.Types.{
  AgentConfig, AgentLoopInput, AgentLoopResult, RetrieverResult, MemoryResult, RetrieverMode,
  fetch_messages, recall, retrieve, store_memory,
}
use temporal_go_agent_sdk.Local.Program.{Program, ret, ask, ◌>>=◌, ◌>>◌}
use temporal_go_agent_sdk.Local.Loop.{
  LoopState, conversation_memory_enabled, persist_conversation_messages,
}

abbrev pub user_message : Text → Message
user_message content = record {
  role = MessageRole.user;
  content = content;
  tool_name = [];
  tool_call_id = [];
  tool_calls = [];
}

abbrev pub history_or_none : Result Failure (List Message) → List Message
history_or_none (ok ms) = ms
history_or_none (err f) = []

-- The history that the run starts with: none when it cannot be loaded.
unfoldable pub load_history : AgentConfig → AgentLoopInput → Program (List Message)
unfolding conversation_memory_enabled
load_history cfg input =
    if conversation_memory_enabled cfg input
    then (ask (fetch_messages cfg.name input.conversation_id) >>= λ r. ret (history_or_none r))
    else ret []

abbrev noted_recall : MemoryResult → AgentTelemetry → AgentTelemetry
noted_recall r t = record t {
  storage = record t.storage {
    total_memory_recalls = t.storage.total_memory_recalls + r.total_recalls;
    failed_memory_recalls = t.storage.failed_memory_recalls + r.failed_recalls;
  };
}

abbrev pub after_recall :
    AgentTelemetry → Result Failure MemoryResult → Result Failure (Text × AgentTelemetry)
after_recall t (ok r) = ok (r.context, noted_recall r t)
after_recall t (err f) = err (wrapped (codes "memory recall: ") f)

unfoldable pub recall_memory :
    AgentConfig → AgentLoopInput → AgentTelemetry → Program (Result Failure (Text × AgentTelemetry))
recall_memory cfg input t =
    if cfg.recall_enabled
    then (ask (recall cfg.name input.memory_scope input.user_prompt) >>= λ r.
        ret (after_recall t r))
    else ret (ok ([], t))

abbrev pub prefetches : RetrieverMode → Bool
prefetches RetrieverMode.prefetch = true
prefetches RetrieverMode.hybrid = true
prefetches _ = false

abbrev noted_prefetch : RetrieverResult → AgentTelemetry → AgentTelemetry
noted_prefetch r t = record t {
  storage = record t.storage {
    total_retriever_searches = t.storage.total_retriever_searches + r.total_searches;
    failed_retriever_searches = t.storage.failed_retriever_searches + r.failed_searches;
    prefetch_searches = t.storage.prefetch_searches + r.total_searches;
  };
}

abbrev pub after_prefetch :
    AgentTelemetry → Result Failure RetrieverResult → Result Failure (Text × AgentTelemetry)
after_prefetch t (ok r) = ok (r.context, noted_prefetch r t)
after_prefetch t (err f) = err (wrapped (codes "retriever prefetch: ") f)

unfoldable pub prefetch_context :
    AgentConfig → AgentLoopInput → AgentTelemetry → Program (Result Failure (Text × AgentTelemetry))
prefetch_context cfg input t =
    if prefetches cfg.retriever_mode && cfg.has_retrievers
    then (ask (retrieve cfg.name input.user_prompt) >>= λ r. ret (after_prefetch t r))
    else ret (ok ([], t))

unfoldable pub initial_budget : ℤ → Option TokenBudget
unfolding new_token_budget
initial_budget max_tokens =
    if ltb_ℤ (pos 0) max_tokens then some (new_token_budget max_tokens) else none

unfoldable pub initial_state :
    AgentConfig → AgentLoopInput → List Message → AgentTelemetry → LoopState
unfolding initial_budget
initial_state cfg input history t = record {
  messages = history ++ (user_message input.user_prompt ∷ []);
  persisted_message_count = length history;
  last_content = [];
  llm_usage = none;
  token_budget = initial_budget cfg.max_tokens;
  telemetry = t;
}

-- Adds what is not persisted yet. The result is the number of messages that failed.
unfoldable pub persist_unsaved : AgentConfig → AgentLoopInput → LoopState → Program ℕ
unfolding persist_conversation_messages conversation_memory_enabled
persist_unsaved cfg input s =
    if conversation_memory_enabled cfg input && ltb s.persisted_message_count (length s.messages)
    then persist_conversation_messages cfg.name input.conversation_id
        (drop s.persisted_message_count s.messages)
    else ret 0

unfoldable pub noted_store : Option Failure → AgentTelemetry → AgentTelemetry
noted_store none t = record t {
  storage = record t.storage { total_memory_stores = suc t.storage.total_memory_stores };
}
noted_store (some f) t = record t {
  storage = record t.storage { failed_memory_stores = suc t.storage.failed_memory_stores };
}

abbrev pub result_of : LoopState → AgentTelemetry → AgentLoopResult
result_of s t = record { content = s.last_content; llm_usage = s.llm_usage; telemetry = t }

-- From the end of the loop to the return.
unfoldable pub finish_run : AgentConfig → AgentLoopInput → LoopState → Program AgentLoopResult
unfolding persist_unsaved noted_store
finish_run cfg input s =
    persist_unsaved cfg input s
    >> (if cfg.run_end_memory_store
        then (ask (store_memory cfg.name input.memory_scope s.messages) >>= λ answer.
            ret (result_of s (noted_store answer s.telemetry)))
        else ret (result_of s s.telemetry))
