-- ===== src/Hooks.antt =====
-- The hooks that user code adds to a run, and the loops that call them: internal/hooks/hooks.go,
-- llm.go, tools.go, retriever.go and memory.go. A hook may do anything to the world around it,
-- which is passed from each call to the next. A nil function is `none`.
pub mod Run
pub mod Order
pub mod Scope
mod Tests
use temporal_go_agent_sdk.Prelude.{
  ℕ, List, [], ◌∷◌, ◌++◌, Option, none, some, Text, Dict, ℤ, Result, ok, err,
}
use temporal_go_agent_sdk.Interfaces.{Args, LlmResponse, ToolKind}
use temporal_go_agent_sdk.Interfaces.Requests.{Float, LlmRequest, Document, MemoryRecord}
use temporal_go_agent_sdk.Tools.Failure.{Failure}
use temporal_go_agent_sdk.Local.Types.{MemoryScope, RetrieverMode}

pub record RunMeta : Type 0 where
  pub run_id : Text
  pub iteration : ℕ
  pub hooks_group : Text

pub record ToolCall : Type 0 where
  pub id : Text
  pub name : Text
  pub display_name : Text
  pub kind : ToolKind
  pub args : Args

pub record RetrieveCall : Type 0 where
  pub query : Text
  pub mode : RetrieverMode
  pub retriever_name : Text

pub record MemoryLoadCall : Type 0 where
  pub scope : MemoryScope
  pub query : Text
  pub limit : ℤ
  pub min_score : Float
  pub kinds : List Text

pub record MemoryStoreCall : Type 0 where
  pub scope : MemoryScope
  pub stored : MemoryRecord
  pub id : Text

-- A hook on an input, with the output that it returns; each input starts with the `RunMeta`.
abbrev pub Hook : Type 0 → Type 0 → Type 0 → Type 0
Hook W I O = RunMeta → I → W → Result Failure O × W

-- What `AfterTool` hooks change.
pub record ToolOutcome : Type 0 where
  pub content : Text
  pub failure : Option Failure

-- The output of a `BeforeMemoryLoad` hook, and what the hook leaves in the map `Scope.Tags` of its
-- input, which is the caller's own.
pub record LoadOptions : Type 0 where
  pub tags : Dict Text
  pub query : Text
  pub limit : ℤ
  pub min_score : Float
  pub kinds : List Text

-- The output of a `BeforeMemoryStore` hook, with `Scope.Tags` as above.
pub record StoreOptions : Type 0 where
  pub tags : Dict Text
  pub stored : MemoryRecord
  pub id : Text

pub record AgentHooks (W : Type 0) : Type 0 where
  pub before_llm : List (Option (Hook W LlmRequest LlmRequest))
  pub after_llm : List (Option (Hook W LlmResponse LlmResponse))
  pub before_tool : List (Option (Hook W ToolCall Args))
  pub after_tool : List (Option (Hook W (ToolCall × ToolOutcome) ToolOutcome))
  pub before_retrieve : List (Option (Hook W RetrieveCall Text))
  pub after_retrieve : List (Option (Hook W (RetrieveCall × List Document) (List Document)))
  pub before_memory_load : List (Option (Hook W MemoryLoadCall LoadOptions))
  pub after_memory_load : List (Option (Hook W (MemoryScope × Text × Text) Text))
  pub before_memory_store : List (Option (Hook W MemoryStoreCall StoreOptions))
  pub after_memory_store : List (Option (Hook W MemoryStoreCall (Unit {0})))

pub record HookGroup (W : Type 0) : Type 0 where
  pub name : Text
  pub hooks : AgentHooks W

unfoldable pub merge : {W : Type 0} → AgentHooks W → AgentHooks W → AgentHooks W
merge h other = record {
  before_llm = h.before_llm ++ other.before_llm;
  after_llm = h.after_llm ++ other.after_llm;
  before_tool = h.before_tool ++ other.before_tool;
  after_tool = h.after_tool ++ other.after_tool;
  before_retrieve = h.before_retrieve ++ other.before_retrieve;
  after_retrieve = h.after_retrieve ++ other.after_retrieve;
  before_memory_load = h.before_memory_load ++ other.before_memory_load;
  after_memory_load = h.after_memory_load ++ other.after_memory_load;
  before_memory_store = h.before_memory_store ++ other.before_memory_store;
  after_memory_store = h.after_memory_store ++ other.after_memory_store;
}

-- How far a chain of hooks came: the value, and the error that stopped it.
abbrev pub Progress : Type 0 → Type 0 → Type 0
Progress W S = (S × Option Failure) × W

abbrev pub go_on : {W S : Type 0} → Progress W S → (S → W → Progress W S) → Progress W S
go_on ((s, none), w) k = k s w
go_on ((s, some f), w) k = ((s, some f), w)

-- An output goes into the value by `put`; an error leaves the value.
abbrev pub settle : {W S O : Type 0} → (S → O → S) → S → Result Failure O × W → Progress W S
settle put s (ok o, w) = ((put s o, none), w)
settle put s (err f, w) = ((s, some f), w)

module _ {W I O S : Type 0} (input : S → I) (put : S → O → S) where
  -- The inner loop: the hooks of one group.
  unfoldable pub run_group : RunMeta → List (Option (Hook W I O)) → S → W → Progress W S
  run_group meta [] s w = ((s, none), w)
  run_group meta (none ∷ hooks) s w = run_group meta hooks s w
  run_group meta (some hook ∷ hooks) s w =
      go_on (settle put s (hook meta (input s) w)) (run_group meta hooks)

  -- The outer loop, over the groups.
  unfoldable pub run_groups :
      (AgentHooks W → List (Option (Hook W I O)))
      → RunMeta
      → List (HookGroup W)
      → S
      → W
      → Progress W S
  unfolding run_group
  run_groups select meta [] s w = ((s, none), w)
  run_groups select meta (g ∷ groups) s w =
      go_on (run_group (record meta { hooks_group = g.name }) (select g.hooks) s w)
        (run_groups select meta groups)
