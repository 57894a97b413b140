-- ===== src/Hooks/Tests.antt =====
-- Two groups of hooks that write their names into a log, and one that stops the run.
use temporal_go_agent_sdk.Prelude.{
  List, [], ◌∷◌, ◌++◌, Option, none, some, Text, codes, ◌≡◌, refl, ok, err,
}
use temporal_go_agent_sdk.Interfaces.{Args, native, hooks_eligible}
use temporal_go_agent_sdk.Tools.Failure.{plain}
use temporal_go_agent_sdk.Hooks.{
  RunMeta, ToolCall, RetrieveCall, MemoryLoadCall, MemoryStoreCall, AgentHooks, HookGroup, Hook,
  run_groups,
}
use temporal_go_agent_sdk.Hooks.Order.{
  all_named, call_each, run_groups-call_each, RunAlike, RunAlike-merge, merged, group_of,
}
use temporal_go_agent_sdk.Hooks.Scope.{
  OkMeets, OkMeets-before, IsSameOwner, IsSameTool, IsSameRetriever,
}
use temporal_go_agent_sdk.Hooks.Run.{
  run_before_tool, run_before_retrieve, run_before_memory_load, run_before_memory_store,
}

abbrev Log : Type 0
Log = List Text

abbrev noting : Text → Hook Log ToolCall (Args)
noting t m c w = (ok c.args, w ++ (m.hooks_group ++ t) ∷ [])

abbrev refusing : Hook Log ToolCall (Args)
refusing m c w = (err (plain (codes "no")), w)

abbrev hooks_of : List (Option (Hook Log ToolCall (Args))) → AgentHooks Log
hooks_of before = record {
  before_llm = [];
  after_llm = [];
  before_tool = before;
  after_tool = [];
  before_retrieve = [];
  after_retrieve = [];
  before_memory_load = [];
  after_memory_load = [];
  before_memory_store = [];
  after_memory_store = [];
}

abbrev audit : HookGroup Log
audit = group_of (codes "audit ") (hooks_of (some (noting (codes "1")) ∷ none ∷ []))

abbrev limits : HookGroup Log
limits =
    group_of (codes "limits ")
      (hooks_of (some (noting (codes "2")) ∷ some refusing ∷ some (noting (codes "3")) ∷ []))

abbrev meta : RunMeta
meta = record { run_id = codes "r"; iteration = 0; hooks_group = [] }

abbrev call : ToolCall
call = record {
  id = codes "c1";
  name = codes "echo";
  display_name = codes "Echo";
  kind = native;
  args = [];
}

-- The hook after the one that refuses is not called.
stops_at_error :
    run_before_tool (audit ∷ limits ∷ []) meta call []
    ≡ (err (plain (codes "no")), codes "audit 1" ∷ codes "limits 2" ∷ [])
unfolding run_before_tool hooks_eligible
stops_at_error = refl

run_groups-call_each_example :
    run_groups
      (λ c. c)
      (λ c out. record c { args = out })
      (λ h. h.before_tool)
      meta
      (audit ∷ limits ∷ [])
      call
      []
    ≡ call_each
        (λ c. c)
        (λ c out. record c { args = out })
        meta
        (all_named (λ h. h.before_tool) (audit ∷ limits ∷ []))
        call
        []
run_groups-call_each_example =
    run_groups-call_each (λ c. c) (λ c out. record c { args = out }) meta (λ h. h.before_tool)
      (audit ∷ limits ∷ []) call []

RunAlike-merge_example :
    RunAlike
      (merged (codes "one ") audit.hooks limits.hooks ∷ limits ∷ [])
      (group_of (codes "one ") audit.hooks ∷ group_of (codes "one ") limits.hooks ∷ limits ∷ [])
RunAlike-merge_example = RunAlike-merge (codes "one ") audit.hooks limits.hooks (limits ∷ [])

OkMeets-before_example :
    ((c : ToolCall) → OkMeets (IsSameTool c) (run_before_tool (audit ∷ limits ∷ []) meta c []))
    × ((c : RetrieveCall)
        → OkMeets (IsSameRetriever c) (run_before_retrieve (audit ∷ limits ∷ []) meta c []))
    × ((c : MemoryLoadCall)
        → OkMeets
            (λ d. IsSameOwner c.scope d.scope)
            (run_before_memory_load (audit ∷ limits ∷ []) meta c []))
    × ((c : MemoryStoreCall)
        → OkMeets
            (λ d. IsSameOwner c.scope d.scope)
            (run_before_memory_store (audit ∷ limits ∷ []) meta c []))
OkMeets-before_example = OkMeets-before (audit ∷ limits ∷ []) meta []
