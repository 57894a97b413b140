-- ===== src/Hooks/Run.antt =====
-- The ten hook runners: internal/hooks/llm.go, tools.go, retriever.go and memory.go.
use temporal_go_agent_sdk.Prelude.{List, none, some, Text, Result, ok, err, if◌then◌else◌}
use temporal_go_agent_sdk.Interfaces.{LlmResponse, hooks_eligible}
use temporal_go_agent_sdk.Interfaces.Requests.{LlmRequest, Document}
use temporal_go_agent_sdk.Tools.Failure.{Failure}
use temporal_go_agent_sdk.Hooks.{
  RunMeta, ToolCall, RetrieveCall, MemoryLoadCall, MemoryStoreCall, ToolOutcome, HookGroup,
  Progress, run_groups,
}

-- The value, or the error; the value so far is dropped with an error.
abbrev pub result_or : {W S : Type 0} → Progress W S → Result Failure S × W
result_or ((s, none), w) = (ok s, w)
result_or ((s, some f), w) = (err f, w)

module _ {W : Type 0} where
  unfoldable pub run_before_llm :
      List (HookGroup W) → RunMeta → LlmRequest → W → Result Failure LlmRequest × W
  unfolding run_groups
  run_before_llm groups meta req w =
      result_or (run_groups (λ r. r) (λ r out. out) (λ h. h.before_llm) meta groups req w)

  unfoldable pub run_after_llm :
      List (HookGroup W) → RunMeta → LlmResponse → W → Result Failure LlmResponse × W
  unfolding run_groups
  run_after_llm groups meta resp w =
      result_or (run_groups (λ r. r) (λ r out. out) (λ h. h.after_llm) meta groups resp w)

  unfoldable pub run_before_tool :
      List (HookGroup W) → RunMeta → ToolCall → W → Result Failure ToolCall × W
  unfolding run_groups
  run_before_tool groups meta call w =
      if hooks_eligible call.kind
      then result_or (
          run_groups (λ c. c) (λ c out. record c { args = out }) (λ h. h.before_tool) meta groups
            call w)
      else (ok call, w)

  -- The content and the error so far are returned with an error of a hook, too.
  unfoldable pub run_after_tool :
      List (HookGroup W) → RunMeta → ToolCall → ToolOutcome → W → Progress W ToolOutcome
  unfolding run_groups
  run_after_tool groups meta call outcome w =
      if hooks_eligible call.kind
      then run_groups (λ o. (call, o)) (λ o out. out) (λ h. h.after_tool) meta groups outcome w
      else ((outcome, none), w)

  unfoldable pub run_before_retrieve :
      List (HookGroup W) → RunMeta → RetrieveCall → W → Result Failure RetrieveCall × W
  unfolding run_groups
  run_before_retrieve groups meta call w = result_or (
      run_groups (λ c. c) (λ c out. record c { query = out }) (λ h. h.before_retrieve) meta groups
        call w)

  unfoldable pub run_after_retrieve :
      List (HookGroup W)
      → RunMeta
      → RetrieveCall
      → List Document
      → W
      → Result Failure (List Document) × W
  unfolding run_groups
  run_after_retrieve groups meta call documents w = result_or (
      run_groups (λ ds. (call, ds)) (λ ds out. out) (λ h. h.after_retrieve) meta groups documents w)

  unfoldable pub run_before_memory_load :
      List (HookGroup W) → RunMeta → MemoryLoadCall → W → Result Failure MemoryLoadCall × W
  unfolding run_groups
  run_before_memory_load groups meta call w = result_or (
      run_groups (λ c. c)
        (λ c out. record c {
          scope = record c.scope { tags = out.tags };
          query = out.query;
          limit = out.limit;
          min_score = out.min_score;
          kinds = out.kinds;
        })
        (λ h. h.before_memory_load) meta groups call w)

  unfoldable pub run_after_memory_load :
      List (HookGroup W) → RunMeta → MemoryLoadCall → Text → W → Result Failure Text × W
  unfolding run_groups
  run_after_memory_load groups meta call prompt_context w = result_or (
      run_groups (λ c. (call.scope, call.query, c)) (λ c out. out) (λ h. h.after_memory_load) meta
        groups prompt_context w)

  unfoldable pub run_before_memory_store :
      List (HookGroup W) → RunMeta → MemoryStoreCall → W → Result Failure MemoryStoreCall × W
  unfolding run_groups
  run_before_memory_store groups meta call w = result_or (
      run_groups (λ c. c)
        (λ c out. record c {
          scope = record c.scope { tags = out.tags };
          stored = out.stored;
          id = out.id;
        })
        (λ h. h.before_memory_store) meta groups call w)

  -- The call is the same for every hook, which can only stop the run.
  unfoldable pub run_after_memory_store :
      List (HookGroup W) → RunMeta → MemoryStoreCall → W → Result Failure MemoryStoreCall × W
  unfolding run_groups
  run_after_memory_store groups meta call w =
      result_or (run_groups (λ c. c) (λ c out. c) (λ h. h.after_memory_store) meta groups call w)
