-- ===== src/Base/Execution.antt =====
-- Running and authorizing a tool: executeTool, executeRetrieverTool and AuthorizeTool of
-- internal/runtime/base/runtime.go, the hooks around them of hooks.go, and FormatRetrieverDocs of
-- utils.go. The tools, the hooks and `fmt` for a score act as parameters; tools and hooks change a
-- world that is passed on. Logs, metrics and spans are left out.
pub mod World
pub mod Arguments
pub mod Once
pub mod Authorize
pub mod Permission
mod Tests
use temporal_go_agent_sdk.Prelude.{
  ℕ, ◌+◌, Bool, true, false, List, [], ◌∷◌, ◌++◌, Option, none, some, Text, codes, pos, Result, ok,
  err, if◌then◌else◌,
}
use temporal_go_agent_sdk.Strings.{trim_space}
use temporal_go_agent_sdk.Interfaces.{
  Args, str, ToolKind, native, mcp, a2a, sub_agent, retriever, memory, hooks_eligible,
}
use temporal_go_agent_sdk.Interfaces.Requests.{Float, Document}
use temporal_go_agent_sdk.Tools.Envelope.{quote}
use temporal_go_agent_sdk.Tools.Failure.{Failure, plain}
use temporal_go_agent_sdk.Tools.Results.{decimal}
use temporal_go_agent_sdk.Local.Types.{ExecuteToolInput, AuthorizeResult, agentic}
use temporal_go_agent_sdk.Hooks.{RunMeta, ToolCall, RetrieveCall, ToolOutcome, HookGroup, Progress}
use temporal_go_agent_sdk.Hooks.Run.{
  run_before_tool, run_after_tool, run_before_retrieve, run_after_retrieve,
}
use temporal_go_agent_sdk.Base.Request.{Tool, kind_of, find_tool_by_name, or_name}
use temporal_go_agent_sdk.Base.Retriever.{
  retriever_tool_param_query, retriever_name_from_tool_name, retriever_tool_param_query_value,
}

-- What a tool returns: the text that `ToolResultContent` makes of it, the name of its type (`%T`),
-- and the documents where it is a `[]interfaces.Document`.
pub record ToolAnswer : Type 0 where
  pub content : Text
  pub type_name : Text
  pub documents : Option (List Document)

pub record ToolAuthorizationDecision : Type 0 where
  pub allow : Bool
  pub reason : Text

-- `execute` and `authorizer` are the methods of the tools; a tool that is no `ToolAuthorizer` has
-- `none`. `score_text` is `%.2f`.
pub record ToolRuntime (W : Type 0) : Type 0 where
  pub hooks : List (HookGroup W)
  pub execute : Tool → Args → W → Result Failure ToolAnswer × W
  pub authorizer : Tool → Option (Args → W → Result Failure ToolAuthorizationDecision × W)
  pub score_text : Float → Text

-- A failure ends the operation.
abbrev pub and_next :
    {W A B : Type 0} → Result Failure A × W → (A → W → Result Failure B × W) → Result Failure B × W
and_next (ok a, w) k = k a w
and_next (err f, w) k = (err f, w)

-- The test `len(rt.AgentConfig.Hooks) == 0`.
abbrev pub with_hooks : {W A : Type 0} → List (HookGroup W) → A → A → A
with_hooks [] a b = a
with_hooks (_ ∷ _) a b = b

abbrev pub unknown_tool : Text → Failure
unknown_tool name = plain (codes "unknown tool: " ++ name)

abbrev newline : ℕ
newline = b'\n'

abbrev format_from : (Float → Text) → ℕ → List Document → Text
format_from score i [] = []
format_from score i (d ∷ docs) =
    codes "["
    ++ decimal (pos i)
    ++ codes "] "
    ++ d.content
    ++ newline ∷ codes "(source: "
    ++ d.source
    ++ codes ", score: "
    ++ score d.score
    ++ codes ")"
    ++ newline ∷ newline ∷ format_from score (i + 1) docs

-- `FormatRetrieverDocs`; documents are counted from 1.
unfoldable pub format_retriever_docs : (Float → Text) → List Document → Text
unfolding decimal
format_retriever_docs score docs = format_from score 1 docs

-- `content` and `execErr` after `tool.Execute`.
abbrev pub outcome_of : Result Failure ToolAnswer → ToolOutcome
outcome_of (ok answer) = record { content = answer.content; failure = none }
outcome_of (err f) = record { content = []; failure = some f }

abbrev pub content_or : Option Failure → Text → Result Failure Text
content_or none content = ok content
content_or (some f) content = err f

-- An error of a hook comes first, then `execErr`.
abbrev pub settled : {W : Type 0} → Progress W ToolOutcome → Result Failure Text × W
settled ((o, some f), w) = (err f, w)
settled ((o, none), w) = (content_or o.failure o.content, w)

module _ {W : Type 0} (rt : ToolRuntime W) (input : ExecuteToolInput) where
  abbrev pub hook_run_meta : RunMeta
  hook_run_meta = record { run_id = input.run_id; iteration = input.iteration; hooks_group = [] }

  unfoldable pub tool_call_for_hooks : Tool → ToolCall
  unfolding kind_of
  tool_call_for_hooks tool = record {
    id = input.tool_call_id;
    name = input.tool_name;
    display_name = or_name tool.display_name input.tool_name;
    kind = kind_of tool;
    args = input.args;
  }

  unfoldable pub run_before_tool_hooks : Tool → W → Result Failure ToolCall × W
  unfolding tool_call_for_hooks run_before_tool
  run_before_tool_hooks tool w =
      with_hooks rt.hooks (ok (tool_call_for_hooks tool), w)
        (run_before_tool rt.hooks hook_run_meta (tool_call_for_hooks tool) w)

  unfoldable pub run_after_tool_hooks : ToolCall → ToolOutcome → W → Progress W ToolOutcome
  unfolding run_after_tool
  run_after_tool_hooks call outcome w =
      with_hooks rt.hooks ((outcome, none), w)
        (run_after_tool rt.hooks hook_run_meta call outcome w)

  unfoldable pub run_before_retrieve_hooks : Text → Text → W → Result Failure RetrieveCall × W
  unfolding run_before_retrieve
  run_before_retrieve_hooks query retriever_name w =
      let call : RetrieveCall = record {
        query = query;
        mode = agentic;
        retriever_name = retriever_name;
      } in
      with_hooks rt.hooks (ok call, w) (run_before_retrieve rt.hooks hook_run_meta call w)

  unfoldable pub run_after_retrieve_hooks :
      RetrieveCall → List Document → W → Result Failure (List Document) × W
  unfolding run_after_retrieve
  run_after_retrieve_hooks call docs w =
      with_hooks rt.hooks (ok docs, w) (run_after_retrieve rt.hooks hook_run_meta call docs w)

  abbrev invalid_name : Tool → Failure
  invalid_name tool = plain (codes "retriever tool: invalid tool name " ++ quote tool.name)

  abbrev unexpected_type : Text → Failure
  unexpected_type type_name = plain (codes "retriever tool: unexpected result type " ++ type_name)

  abbrev pub query_args : Text → Args
  query_args query = (retriever_tool_param_query, str query) ∷ []

  -- `result.([]interfaces.Document)` and what follows.
  unfoldable pub format_documents :
      RetrieveCall → ToolAnswer → Option (List Document) → W → Result Failure Text × W
  unfolding run_after_retrieve_hooks format_retriever_docs
  format_documents call answer none w = (err (unexpected_type answer.type_name), w)
  format_documents call answer (some docs) w =
      and_next (run_after_retrieve_hooks call docs w)
        (λ found v. (ok (format_retriever_docs rt.score_text found), v))

  unfoldable pub format_answer : RetrieveCall → ToolAnswer → W → Result Failure Text × W
  unfolding format_documents
  format_answer call answer w = format_documents call answer answer.documents w

  unfoldable pub retrieve_with : Tool → Text → Text → W → Result Failure Text × W
  unfolding run_before_retrieve_hooks format_answer
  retrieve_with tool name query w =
      and_next (run_before_retrieve_hooks query name w)
        (λ call v. and_next (rt.execute tool (query_args call.query) v) (format_answer call))

  -- The two early returns on the tool's name and on its arguments.
  abbrev pub retrieve_named : Tool → Option Text → Result Failure Text → W → Result Failure Text × W
  retrieve_named tool none query w = (err (invalid_name tool), w)
  retrieve_named tool (some name) (err f) w = (err f, w)
  retrieve_named tool (some name) (ok query) w = retrieve_with tool name query w

  unfoldable pub execute_retriever_tool : Tool → Args → W → Result Failure Text × W
  unfolding retriever_name_from_tool_name retriever_tool_param_query_value retrieve_with
  execute_retriever_tool tool args w =
      retrieve_named tool (retriever_name_from_tool_name tool.name)
        (retriever_tool_param_query_value args) w

  unfoldable pub execute_plain : Tool → Args → W → Result Failure Text × W
  execute_plain tool args w = and_next (rt.execute tool args w) (λ answer v. (ok answer.content, v))

  abbrev pub after_execute : ToolCall → Result Failure ToolAnswer × W → Result Failure Text × W
  after_execute call (r, w) = settled (run_after_tool_hooks call (outcome_of r) w)

  unfoldable pub execute_hooked : Tool → W → Result Failure Text × W
  unfolding run_before_tool_hooks run_after_tool_hooks
  execute_hooked tool w =
      and_next (run_before_tool_hooks tool w)
        (λ call v. after_execute call (rt.execute tool call.args v))

  -- The test for `runHooks`.
  abbrev pub run_hooks : ToolKind → Bool
  run_hooks kind = with_hooks rt.hooks false (hooks_eligible kind)

  unfoldable pub execute_default : Tool → ToolKind → W → Result Failure Text × W
  unfolding execute_hooked execute_plain
  execute_default tool kind w =
      if run_hooks kind then execute_hooked tool w else execute_plain tool input.args w

  -- The `switch` on the kind. No hooks run on the call of a retriever, which is not eligible.
  unfoldable pub execute_found : Tool → ToolKind → W → Result Failure Text × W
  unfolding execute_retriever_tool execute_default
  execute_found tool retriever w = execute_retriever_tool tool input.args w
  execute_found tool kind w = execute_default tool kind w

  abbrev pub execute_resolved : Option Tool → W → Result Failure Text × W
  execute_resolved none w = (err (unknown_tool input.tool_name), w)
  execute_resolved (some tool) w = execute_found tool (kind_of tool) w

  unfoldable pub execute_tool : List Tool → W → Result Failure Text × W
  unfolding find_tool_by_name kind_of execute_found
  execute_tool tools w = execute_resolved (find_tool_by_name tools input.tool_name) w
