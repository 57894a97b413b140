-- ===== src/Local/Counts/Phases.antt =====
-- The parts of a run of internal/runtime/local/agent_loop.go before and beside its iterations, and what
-- they leave of the counters.
use temporal_go_agent_sdk.Prelude.{
  ℕ, ◌&&◌, List, [], ◌∷◌, Text, Option, none, some, ◌≡◌, refl, arith, Result, ok, err,
}
use temporal_go_agent_sdk.Tools.Failure.{Failure}
use temporal_go_agent_sdk.Base.Telemetry.{complete, AgentTelemetry}
use temporal_go_agent_sdk.Local.Types.{
  recall, retrieve, MemoryResult, RetrieverResult, ToolCallRequest, ToolResult, LlmResult,
  AgentConfig, AgentLoopInput,
}
use temporal_go_agent_sdk.Local.Program.{ret, ask, ◌>>=◌}
use temporal_go_agent_sdk.Local.Program.Logic.{Event}
use temporal_go_agent_sdk.Local.Loop.{LoopState, record_result, record_results}
use temporal_go_agent_sdk.Local.Loop.Start.{
  recall_memory, prefetch_context, noted_store, prefetches, after_recall, after_prefetch,
}
use temporal_go_agent_sdk.Local.Loop.Run.{after_tools}
use temporal_go_agent_sdk.Local.Counts.{Returns, IfOk, IsWithin, IsOnCourse, Returns-if}

pub record_results-counts :
    (tcs : List ToolCallRequest) (rs : List ToolResult) (t : AgentTelemetry)
    → ((record_results tcs rs t).finish_reason ≡ t.finish_reason)
      × ((record_results tcs rs t).total_llm_calls ≡ t.total_llm_calls)
unfolding record_results record_result
record_results-counts (tc ∷ tcs) (r ∷ rs) t =
    record_results-counts tcs rs (record_result tc r.failed t)
record_results-counts [] rs t = (refl, refl)
record_results-counts (tc ∷ tcs) [] t = (refl, refl)

pub after_tools-IsOnCourse :
    (n left : ℕ) (r : LlmResult) (rs : List ToolResult) (s : LoopState)
    → IsOnCourse n left s.telemetry
    → IsOnCourse n left (after_tools r rs s).telemetry
unfolding after_tools
after_tools-IsOnCourse n left r rs s h =
    let same = record_results-counts r.tool_calls rs s.telemetry in (cc, omega arith)

pub noted_store-IsWithin :
    (n : ℕ) (answer : Option Failure) (t : AgentTelemetry)
    → IsWithin n t
    → IsWithin n (noted_store answer t)
unfolding noted_store
noted_store-IsWithin n none t h = h
noted_store-IsWithin n (some f) t h = h

-- The counters that the phases before the loop leave alone.
abbrev pub IsFresh : Result Failure (Text × AgentTelemetry) → Type 0
IsFresh = IfOk (λ p. (p.1.finish_reason ≡ complete) × (p.1.total_llm_calls ≡ 0))

abbrev pub IsNew : AgentTelemetry → Type 0
IsNew t = (t.finish_reason ≡ complete) × (t.total_llm_calls ≡ 0)

pub recall_memory-IsFresh :
    (cfg : AgentConfig) (input : AgentLoopInput) (tel : AgentTelemetry) (t : List Event)
    → IsNew tel
    → Returns IsFresh t (recall_memory cfg input tel)
unfolding recall_memory
recall_memory-IsFresh cfg input tel t h =
    Returns-if IsFresh t cfg.recall_enabled
      (ask (recall cfg.name input.memory_scope input.user_prompt) >>= λ r. ret (after_recall tel r))
      (ret (ok ([], tel))) (λ e. (tt, λ x r. after x)) (λ e. h)
  where
    after : (x : Result Failure MemoryResult) → IsFresh (after_recall tel x)
    after (ok m) = h
    after (err f) = tt

pub prefetch_context-IsFresh :
    (cfg : AgentConfig) (input : AgentLoopInput) (tel : AgentTelemetry) (t : List Event)
    → IsNew tel
    → Returns IsFresh t (prefetch_context cfg input tel)
unfolding prefetch_context
prefetch_context-IsFresh cfg input tel t h =
    Returns-if IsFresh t (prefetches cfg.retriever_mode && cfg.has_retrievers)
      (ask (retrieve cfg.name input.user_prompt) >>= λ r. ret (after_prefetch tel r))
      (ret (ok ([], tel))) (λ e. (tt, λ x r. after x)) (λ e. h)
  where
    after : (x : Result Failure RetrieverResult) → IsFresh (after_prefetch tel x)
    after (ok m) = h
    after (err f) = tt
