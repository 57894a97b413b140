-- ===== src/Base/Telemetry.antt =====
-- The telemetry of one run: internal/types/telemetry.go. Times are left out. A counter grows by one
-- for each call of a run, so it does not reach 2^63.
pub mod Sums
mod Tests
use temporal_go_agent_sdk.Prelude.{
  ℕ, ◌+◌, suc, Bool, true, false, List, [], ◌∷◌, Option, none, some, Text, Dict, lookup, insert,
  if◌then◌else◌,
}

pub data FinishReason : Type 0 where
  complete max_iterations token_budget : FinishReason

pub record ToolTelemetry : Type 0 where
  pub total_calls : ℕ
  pub failed_calls : ℕ
  pub breakdown : Dict ℕ
  pub failed_breakdown : Dict ℕ

pub record StorageTelemetry : Type 0 where
  pub total_retriever_searches : ℕ
  pub failed_retriever_searches : ℕ
  pub prefetch_searches : ℕ
  pub agentic_searches : ℕ
  pub total_memory_recalls : ℕ
  pub failed_memory_recalls : ℕ
  pub total_memory_stores : ℕ
  pub failed_memory_stores : ℕ

pub record AgentTelemetry : Type 0 where
  pub total_llm_calls : ℕ
  pub finish_reason : FinishReason
  pub tools : ToolTelemetry
  pub storage : StorageTelemetry

unfoldable pub new_agent_telemetry : AgentTelemetry
new_agent_telemetry = record {
  total_llm_calls = 0;
  finish_reason = complete;
  tools = record { total_calls = 0; failed_calls = 0; breakdown = []; failed_breakdown = [] };
  storage = record {
    total_retriever_searches = 0;
    failed_retriever_searches = 0;
    prefetch_searches = 0;
    agentic_searches = 0;
    total_memory_recalls = 0;
    failed_memory_recalls = 0;
    total_memory_stores = 0;
    failed_memory_stores = 0;
  };
}

abbrev pub count_of : Option ℕ → ℕ
count_of none = 0
count_of (some n) = n

-- `m[name]++`, left out for the empty name.
unfoldable pub bump : Text → Dict ℕ → Dict ℕ
bump [] m = m
bump (c ∷ s) m = insert (c ∷ s) (suc (count_of (lookup (c ∷ s) m))) m

unfoldable pub record_call : Text → Bool → ToolTelemetry → ToolTelemetry
unfolding bump
record_call name failed t =
    if failed
    then record {
      total_calls = suc t.total_calls;
      failed_calls = suc t.failed_calls;
      breakdown = bump name t.breakdown;
      failed_breakdown = bump name t.failed_breakdown;
    }
    else record t { total_calls = suc t.total_calls; breakdown = bump name t.breakdown }
