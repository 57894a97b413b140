-- ===== src/Base/Execution/Tests.antt =====
-- A native tool whose arguments a hook changes, a retriever, and a tool that asks its authorizer. The
-- world is the list of the runs.
use temporal_go_agent_sdk.Prelude.{
  false, List, [], ◌∷◌, Option, none, some, Text, codes, ◌≡◌, refl, ok, text_eq,
}
use temporal_go_agent_sdk.Interfaces.{Args, str, ToolKind, retriever, hooks_eligible}
use temporal_go_agent_sdk.Hooks.{HookGroup}
use temporal_go_agent_sdk.Hooks.Run.{run_before_tool, run_before_retrieve}
use temporal_go_agent_sdk.Strings.{has_prefix}
use temporal_go_agent_sdk.Local.Types.{ExecuteToolInput}
use temporal_go_agent_sdk.Base.Request.{Tool}
use temporal_go_agent_sdk.Base.Retriever.{retriever_tool_name, retriever_name_from_tool_name}
use temporal_go_agent_sdk.Base.Retriever.Names.{retriever_name_from_tool_name-retriever_tool_name}
use temporal_go_agent_sdk.Base.Execution.{ToolRuntime, execute_tool}
use temporal_go_agent_sdk.Base.Execution.Authorize.{authorize_tool}
use temporal_go_agent_sdk.Base.Execution.Once.{RunsOnce, execute_tool-RunsOnce}
use temporal_go_agent_sdk.Base.Execution.Permission.{Warranted, authorize_tool-Warranted}

abbrev Log : Type 0
Log = List (Tool × Args)

abbrev named : Text → Option ToolKind → Tool
named name kind = record {
  name = name;
  display_name = [];
  description = [];
  parameters = [];
  declared_kind = kind;
  approval_required = false;
}

abbrev grep : Tool
grep = named (codes "grep") none

abbrev kb : Tool
kb = named (codes "retriever_kb") (some retriever)

abbrev tools : List Tool
tools = grep ∷ kb ∷ []

abbrev safe_args : Args
safe_args = (codes "path", str (codes "/safe")) ∷ []

abbrev group : HookGroup Log
group = record {
  name = codes "policy";
  hooks = record {
    before_llm = [];
    after_llm = [];
    before_tool = none ∷ some (λ meta call w. (ok safe_args, w)) ∷ [];
    after_tool = [];
    before_retrieve = [];
    after_retrieve = [];
    before_memory_load = [];
    after_memory_load = [];
    before_memory_store = [];
    after_memory_store = [];
  };
}

abbrev runtime : ToolRuntime Log
runtime = record {
  hooks = group ∷ [];
  execute = λ tool args w. (
    ok (record { content = codes "done"; type_name = codes "string"; documents = some [] }),
    (tool, args) ∷ w,
  );
  authorizer = λ tool. some (λ args w. (ok (record { allow = false; reason = codes " no " }), w));
  score_text = λ f. codes "0.50";
}

abbrev call_of : Text → Args → ExecuteToolInput
call_of name args = record {
  tool_name = name;
  args = args;
  tool_call_id = codes "c";
  run_id = codes "r";
  iteration = 0;
}

abbrev grep_call : ExecuteToolInput
grep_call = call_of (codes "grep") ((codes "path", str (codes "/etc")) ∷ [])

-- The tool runs on the arguments of the hook.
hooked_run : execute_tool runtime grep_call tools [] ≡ (ok (codes "done"), (grep, safe_args) ∷ [])
unfolding execute_tool run_before_tool text_eq hooks_eligible
hooked_run = refl

-- The retriever runs on the trimmed query alone, and no document makes an empty answer.
retrieval :
    execute_tool runtime
      (call_of
        (codes "retriever_kb")
        ((codes "k", str (codes "9")) ∷ (codes "query", str (codes " go ")) ∷ []))
      tools
      []
    ≡ (ok [], (kb, (codes "query", str (codes "go")) ∷ []) ∷ [])
unfolding execute_tool text_eq has_prefix run_before_retrieve
retrieval = refl

execute_tool-RunsOnce_example :
    RunsOnce runtime grep_call (λ w. w) tools [] (execute_tool runtime grep_call tools [])
execute_tool-RunsOnce_example =
    execute_tool-RunsOnce runtime grep_call (λ w. w)
      (((tt, ((λ meta i w. refl), tt)), tt, tt, tt), tt) (λ tool args w. refl) tools []

authorize_tool-Warranted_example :
    Warranted runtime tools
      (codes "grep")
      safe_args
      []
      (authorize_tool runtime tools (codes "grep") safe_args [])
authorize_tool-Warranted_example =
    authorize_tool-Warranted runtime tools (codes "grep") safe_args []

retriever_name_from_tool_name-retriever_tool_name_example :
    retriever_name_from_tool_name (retriever_tool_name (codes " kb ")) ≡ some (codes "kb")
unfolding retriever_name_from_tool_name retriever_tool_name
retriever_name_from_tool_name-retriever_tool_name_example =
    retriever_name_from_tool_name-retriever_tool_name (codes " kb ")
