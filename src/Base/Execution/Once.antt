-- ===== src/Base/Execution/Once.antt =====
-- How often a tool runs for one call of the model, and on which arguments: executeTool of
-- internal/runtime/base/runtime.go.
use temporal_go_agent_sdk.Prelude.{
  true, false, List, ◌∷◌, Option, none, some, Text, ◌≡◌, ◌⊎◌, inl, inr, refl, ap, ◌∙◌, Result, ok,
  err, All,
}
use temporal_go_agent_sdk.Interfaces.{
  Args, ToolKind, native, mcp, a2a, sub_agent, retriever, memory, hooks_eligible,
}
use temporal_go_agent_sdk.Interfaces.Requests.{Document}
use temporal_go_agent_sdk.Tools.Failure.{Failure}
use temporal_go_agent_sdk.Local.Types.{ExecuteToolInput}
use temporal_go_agent_sdk.Hooks.{ToolCall, RetrieveCall, ToolOutcome, Progress}
use temporal_go_agent_sdk.Base.Request.{Tool, kind_or_native, kind_of, find_tool_by_name}
use temporal_go_agent_sdk.Base.Request.Calls.{IsFirstNamed, Found, find_tool_by_name-Found}
use temporal_go_agent_sdk.Base.Retriever.{
  retriever_name_from_tool_name, retriever_tool_param_query_value,
}
use temporal_go_agent_sdk.Base.Execution.{
  ToolAnswer, ToolRuntime, and_next, query_args, run_before_tool_hooks, run_after_tool_hooks,
  run_before_retrieve_hooks, run_after_retrieve_hooks, format_documents, format_answer,
  retrieve_with, retrieve_named, execute_resolved, execute_retriever_tool, outcome_of, settled,
  after_execute, execute_plain, execute_hooked, execute_default, execute_found, execute_tool,
}
use temporal_go_agent_sdk.Base.Execution.Arguments.{
  LeftByHooks, AsksFor, HandedOver, hooks_or_none, run_hooks-none, run_hooks-some,
  run_hooks-ineligible, LeftByHooks-none, LeftByHooks-before, AsksFor-before,
}
use temporal_go_agent_sdk.Base.Execution.World.{
  GroupKeeps, keeps-run_before_tool_hooks, keeps-run_after_tool_hooks,
  keeps-run_before_retrieve_hooks, keeps-run_after_retrieve_hooks,
}

abbrev pub IsErr : {A : Type 0} → Result Failure A → Type 0
IsErr (ok a) = ⊥
IsErr (err f) = Unit {0}

module _ {W : Type 0} (rt : ToolRuntime W) (input : ExecuteToolInput)
    (runs : W → List (Tool × Args)) where
  -- Nothing runs, and the result is an error; or the tool runs once.
  abbrev pub Runs : Tool → (Args → Type 0) → W → Result Failure Text × W → Type 0
  Runs tool H w (r, v) =
      (IsErr r × (runs v ≡ runs w)) ⊎ ((args : Args) × (H args × (runs v ≡ (tool, args) ∷ runs w)))

  -- The same for the first tool of the name that the model called.
  abbrev pub RunsOnce : List Tool → W → Result Failure Text × W → Type 0
  RunsOnce tools w (r, v) =
      (IsErr r × (runs v ≡ runs w))
      ⊎ ((tool : Tool) × ((args : Args) × (IsFirstNamed input.tool_name tool tools
              × HandedOver rt input tool w tool.declared_kind args
              × (runs v ≡ (tool, args) ∷ runs w))))

  runs-and_next :
      {A B : Type 0} (p : Result Failure A × W) (k : A → W → Result Failure B × W)
      → ((a : A) (v : W) → runs (k a v).1 ≡ runs v)
      → runs (and_next p k).1 ≡ runs p.1
  runs-and_next (ok a, v) k h = h a v
  runs-and_next (err f, v) k h = refl

  -- A stop, or one more step, where the first leaves the runs alone.
  Runs-and_next :
      {A : Type 0} (tool : Tool) (H : Args → Type 0) (w : W) (p : Result Failure A × W)
      (k : A → W → Result Failure Text × W)
      → runs p.1 ≡ runs w
      → ((a : A) (v : W) → p ≡ (ok a, v) → runs v ≡ runs w → Runs tool H w (k a v))
      → Runs tool H w (and_next p k)
  Runs-and_next tool H w (ok a, v) k h step = step a v refl h
  Runs-and_next tool H w (err f, v) k h step = inl (tt, h)

  runs-settled : (p : Progress W ToolOutcome) → runs (settled p).1 ≡ runs p.1
  runs-settled ((o, some f), v) = refl
  runs-settled ((o, none), v) = refl

  module _ (keeps : All (GroupKeeps runs) rt.hooks)
      (records : (tool : Tool) (args : Args) (w : W)
        → runs (rt.execute tool args w).1 ≡ (tool, args) ∷ runs w) where
    runs-after_execute :
        (call : ToolCall) (p : Result Failure ToolAnswer × W)
        → runs (after_execute rt input call p).1 ≡ runs p.1
    runs-after_execute call (r, v) =
        runs-settled (run_after_tool_hooks rt input call (outcome_of r) v)
        ∙ keeps-run_after_tool_hooks runs rt input keeps call (outcome_of r) v

    Runs-execute_plain :
        (H : Args → Type 0) (tool : Tool) (w : W)
        → H input.args
        → Runs tool H w (execute_plain rt input tool input.args w)
    unfolding execute_plain
    Runs-execute_plain H tool w h = inr (
      input.args,
      (h, runs-and_next (rt.execute tool input.args w) _ (λ a v. refl) ∙ records tool input.args w),
    )

    Runs-execute_hooked :
        (H : Args → Type 0) (tool : Tool) (w : W)
        → ((call : ToolCall) (v : W)
            → run_before_tool_hooks rt input tool w ≡ (ok call, v)
            → H call.args)
        → Runs tool H w (execute_hooked rt input tool w)
    unfolding execute_hooked
    Runs-execute_hooked H tool w left =
        Runs-and_next tool H w (run_before_tool_hooks rt input tool w) _
          (keeps-run_before_tool_hooks runs rt input keeps tool w)
          (λ call v p h. inr (
            call.args,
            (
              left call v p,
              runs-after_execute call (rt.execute tool call.args v)
                  ∙ records tool call.args v
                  ∙ ap (◌∷◌ (tool, call.args)) h,
            ),
          ))

    -- A kind of tool that hooks are for.
    Runs-eligible :
        (tool : Tool) (kind : ToolKind) (w : W)
        → hooks_eligible kind ≡ true
        → kind_of tool ≡ kind
        → Runs tool (LeftByHooks rt input tool w) w (execute_default rt input tool kind w)
    unfolding execute_default
    Runs-eligible tool kind w e k = elim (hooks_or_none rt.hooks) [
      | inl z ↦ rw (run_hooks-none rt input kind z) (
          Runs-execute_plain (LeftByHooks rt input tool w) tool w
            (LeftByHooks-none rt input tool w z))
      | inr (g, (gs, z)) ↦ rw (run_hooks-some rt input kind g gs z ∙ e) (
          Runs-execute_hooked (LeftByHooks rt input tool w) tool w
            (λ call v p. LeftByHooks-before rt input tool w call v (ap hooks_eligible k ∙ e) p))
    ]

    Runs-ineligible :
        (tool : Tool) (kind : ToolKind) (w : W)
        → hooks_eligible kind ≡ false
        → Runs tool (λ args. args ≡ input.args) w (execute_default rt input tool kind w)
    unfolding execute_default
    Runs-ineligible tool kind w e =
        rw (run_hooks-ineligible rt input kind e)
          (Runs-execute_plain (λ args. args ≡ input.args) tool w refl)

    runs-format_answer :
        (call : RetrieveCall) (answer : ToolAnswer) (w : W)
        → runs (format_answer rt input call answer w).1 ≡ runs w
    unfolding format_answer format_documents
    runs-format_answer call answer w = from answer.documents
      where
        from :
            (docs : Option (List Document))
            → runs (format_documents rt input call answer docs w).1 ≡ runs w
        from none = refl
        from (some docs) =
            runs-and_next (run_after_retrieve_hooks rt input call docs w) _ (λ a v. refl)
            ∙ keeps-run_after_retrieve_hooks runs rt input keeps call docs w

    Runs-retrieve_with :
        (tool : Tool) (name query : Text) (w : W)
        → retriever_name_from_tool_name tool.name ≡ some name
        → retriever_tool_param_query_value input.args ≡ ok query
        → Runs tool (AsksFor rt input tool w) w (retrieve_with rt input tool name query w)
    unfolding retrieve_with
    Runs-retrieve_with tool name query w n q =
        Runs-and_next tool _ w (run_before_retrieve_hooks rt input query name w) _
          (keeps-run_before_retrieve_hooks runs rt input keeps query name w)
          (λ call v p h. inr (
            query_args rt input call.query,
            (
              AsksFor-before rt input tool w name query call v n q p,
              runs-and_next (rt.execute tool (query_args rt input call.query) v)
                    (format_answer rt input call) (runs-format_answer call)
                  ∙ records tool (query_args rt input call.query) v
                  ∙ ap (◌∷◌ (tool, query_args rt input call.query)) h,
            ),
          ))

    Runs-retrieve_named :
        (tool : Tool) (name : Option Text) (query : Result Failure Text) (w : W)
        → retriever_name_from_tool_name tool.name ≡ name
        → retriever_tool_param_query_value input.args ≡ query
        → Runs tool (AsksFor rt input tool w) w (retrieve_named rt input tool name query w)
    Runs-retrieve_named tool none query w n q = inl (tt, refl)
    Runs-retrieve_named tool (some name) (err f) w n q = inl (tt, refl)
    Runs-retrieve_named tool (some name) (ok query) w n q = Runs-retrieve_with tool name query w n q

    Runs-execute_found :
        (tool : Tool) (declared : Option ToolKind) (w : W)
        → tool.declared_kind ≡ declared
        → Runs tool
            (HandedOver rt input tool w declared)
            w
            (execute_found rt input tool (kind_or_native declared) w)
    unfolding execute_found execute_retriever_tool hooks_eligible kind_of
    Runs-execute_found tool none w e = Runs-eligible tool native w refl (ap kind_or_native e)
    Runs-execute_found tool (some native) w e =
        Runs-eligible tool native w refl (ap kind_or_native e)
    Runs-execute_found tool (some mcp) w e = Runs-eligible tool mcp w refl (ap kind_or_native e)
    Runs-execute_found tool (some retriever) w e =
        Runs-retrieve_named tool (retriever_name_from_tool_name tool.name)
          (retriever_tool_param_query_value input.args) w refl refl
    Runs-execute_found tool (some a2a) w e = Runs-ineligible tool a2a w refl
    Runs-execute_found tool (some sub_agent) w e = Runs-ineligible tool sub_agent w refl
    Runs-execute_found tool (some memory) w e = Runs-ineligible tool memory w refl

    RunsOnce-Runs :
        (tools : List Tool) (tool : Tool) (w : W) (p : Result Failure Text × W)
        → IsFirstNamed input.tool_name tool tools
        → Runs tool (HandedOver rt input tool w tool.declared_kind) w p
        → RunsOnce tools w p
    RunsOnce-Runs tools tool w (r, v) first (inl stop) = inl stop
    RunsOnce-Runs tools tool w (r, v) first (inr (args, (handed, one))) =
        inr (tool, (args, (first, handed, one)))

    RunsOnce-execute_resolved :
        (tools : List Tool) (o : Option Tool) (w : W)
        → Found input.tool_name tools o
        → RunsOnce tools w (execute_resolved rt input o w)
    unfolding kind_of
    RunsOnce-execute_resolved tools none w h = inl (tt, refl)
    RunsOnce-execute_resolved tools (some tool) w h =
        RunsOnce-Runs tools tool w (execute_found rt input tool (kind_of tool) w) h
          (Runs-execute_found tool tool.declared_kind w refl)

-- For one call of the model at most one tool runs, once, and it is the first of the name that the
-- model called, where the runs are recorded by the tools and left alone by the hooks. For a native or
-- MCP tool, its arguments are what all hooks before tools, called one after the other in the order of
-- registration, make of the model's, and none of them failed; for a retriever they are the query
-- alone, which is the model's without white space around it, as all hooks before a retrieval make of
-- it; for any other tool they are the model's. If nothing runs, the result is an error.
pub execute_tool-RunsOnce :
    {W : Type 0} (rt : ToolRuntime W) (input : ExecuteToolInput) (runs : W → List (Tool × Args))
    → All (GroupKeeps runs) rt.hooks
    → ((tool : Tool) (args : Args) (w : W)
        → runs (rt.execute tool args w).1 ≡ (tool, args) ∷ runs w)
    → (tools : List Tool) (w : W) → RunsOnce rt input runs tools w (execute_tool rt input tools w)
unfolding execute_tool
execute_tool-RunsOnce rt input runs keeps records tools w =
    RunsOnce-execute_resolved rt input runs keeps records tools
      (find_tool_by_name tools input.tool_name) w (find_tool_by_name-Found tools input.tool_name)
