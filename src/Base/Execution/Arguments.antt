-- ===== src/Base/Execution/Arguments.antt =====
-- The arguments that a tool is to run on: the hooks called one by one on what the model gave.
-- executeTool and executeRetrieverTool of internal/runtime/base/runtime.go.
use temporal_go_agent_sdk.Prelude.{
  true, false, List, [], ◌∷◌, Option, none, some, Text, codes, lookup, ◌≡◌, ◌⊎◌, inl, inr, refl, ap,
  sym, subst, ◌∙◌, ok, if◌then◌else◌,
}
use temporal_go_agent_sdk.Strings.{trim_space}
use temporal_go_agent_sdk.Interfaces.{
  Args, Value, str, other, ToolKind, native, mcp, a2a, sub_agent, retriever, memory, hooks_eligible,
}
use temporal_go_agent_sdk.Local.Types.{ExecuteToolInput, agentic}
use temporal_go_agent_sdk.Hooks.{ToolCall, RetrieveCall, HookGroup, Progress, run_groups}
use temporal_go_agent_sdk.Hooks.Run.{result_or, run_before_tool, run_before_retrieve}
use temporal_go_agent_sdk.Hooks.Order.{all_named, call_each, run_groups-call_each}
use temporal_go_agent_sdk.Base.Request.{Tool, kind_of}
use temporal_go_agent_sdk.Base.Retriever.{
  retriever_tool_param_query, retriever_name_from_tool_name, query_of_text, query_of_value,
  retriever_tool_param_query_value,
}
use temporal_go_agent_sdk.Base.Execution.{
  ToolRuntime, with_hooks, hook_run_meta, query_args, run_hooks, tool_call_for_hooks,
  run_before_tool_hooks, run_before_retrieve_hooks,
}

module _ {W : Type 0} (rt : ToolRuntime W) (input : ExecuteToolInput) (tool : Tool) (w : W) where
  -- All hooks before tools, one after the other, on the call as the model made it.
  abbrev pub LeftByHooks : Args → Type 0
  LeftByHooks args =
      (asked left : ToolCall) × ((v : W) × ((asked.id ≡ input.tool_call_id)
          × (asked.name ≡ input.tool_name)
          × (asked.args ≡ input.args)
          × (call_each (λ c. c) (λ c out. record c { args = out }) (hook_run_meta rt input)
                (all_named (λ h. h.before_tool) rt.hooks) asked w
              ≡ ((left, none), v))
          × (args ≡ left.args)))

  -- All hooks before retrievals, on the model's query.
  abbrev pub AsksFor : Args → Type 0
  AsksFor args =
      (name given : Text) × ((left : RetrieveCall) × ((v : W) × ((retriever_name_from_tool_name
                tool.name
              ≡ some name)
            × (lookup (codes "query") input.args ≡ some (str given))
            × (call_each (λ c. c) (λ c out. record c { query = out }) (hook_run_meta rt input)
                  (all_named (λ h. h.before_retrieve) rt.hooks)
                  (record { query = trim_space given; mode = agentic; retriever_name = name }) w
                ≡ ((left, none), v))
            × (args ≡ (codes "query", str left.query) ∷ []))))

  -- By the kind that the tool declares.
  abbrev pub HandedOver : Option ToolKind → Args → Type 0
  HandedOver none args = LeftByHooks args
  HandedOver (some native) args = LeftByHooks args
  HandedOver (some mcp) args = LeftByHooks args
  HandedOver (some retriever) args = AsksFor args
  HandedOver (some a2a) args = args ≡ input.args
  HandedOver (some sub_agent) args = args ≡ input.args
  HandedOver (some memory) args = args ≡ input.args

pub hooks_or_none :
    {W : Type 0} (hs : List (HookGroup W))
    → (hs ≡ []) ⊎ ((g : HookGroup W) × ((gs : List (HookGroup W)) × (hs ≡ g ∷ gs)))
hooks_or_none [] = inl refl
hooks_or_none (g ∷ gs) = inr (g, (gs, refl))

result_or-ok :
    {W S : Type 0} (p : Progress W S) (s : S) (v : W) → result_or p ≡ (ok s, v) → p ≡ ((s, none), v)
result_or-ok ((t, none), u) s v h = cc
result_or-ok ((t, some f), u) s v h = cc

module _ {W : Type 0} (rt : ToolRuntime W) (input : ExecuteToolInput) where
  pub run_hooks-none : (kind : ToolKind) → rt.hooks ≡ [] → run_hooks rt input kind ≡ false
  run_hooks-none kind e = ap (λ hs. with_hooks hs false (hooks_eligible kind)) e

  pub run_hooks-some :
      (kind : ToolKind) (g : HookGroup W) (gs : List (HookGroup W))
      → rt.hooks ≡ g ∷ gs
      → run_hooks rt input kind ≡ hooks_eligible kind
  run_hooks-some kind g gs e = ap (λ hs. with_hooks hs false (hooks_eligible kind)) e

  pub run_hooks-ineligible :
      (kind : ToolKind) → hooks_eligible kind ≡ false → run_hooks rt input kind ≡ false
  run_hooks-ineligible kind e = from rt.hooks
    where
      from : (hs : List (HookGroup W)) → with_hooks hs false (hooks_eligible kind) ≡ false
      from [] = refl
      from (g ∷ gs) = e

  before_tool-each :
      (hs : List (HookGroup W)) (c : ToolCall) (w : W) (left : ToolCall) (v : W)
      → hooks_eligible c.kind ≡ true
      → with_hooks hs (ok c, w) (run_before_tool hs (hook_run_meta rt input) c w) ≡ (ok left, v)
      → call_each
          (λ d. d)
          (λ d out. record d { args = out })
          (hook_run_meta rt input)
          (all_named (λ h. h.before_tool) hs)
          c
          w
        ≡ ((left, none), v)
  unfolding run_before_tool
  before_tool-each [] c w left v e h = result_or-ok ((c, none), w) left v h
  before_tool-each (g ∷ gs) c w left v e h =
      let put =
        run_groups (λ d. d) (λ (d : ToolCall) (out : Args). record d { args = out })
          (λ h. h.before_tool) (hook_run_meta rt input) (g ∷ gs) c w in
      sym (run_groups-call_each _ _ (hook_run_meta rt input) (λ h. h.before_tool) (g ∷ gs) c w)
      ∙ result_or-ok put left v (sym (ap (λ b. if b then result_or put else (ok c, w)) e) ∙ h)

  before_retrieve-each :
      (hs : List (HookGroup W)) (c : RetrieveCall) (w : W) (left : RetrieveCall) (v : W)
      → with_hooks hs (ok c, w) (run_before_retrieve hs (hook_run_meta rt input) c w) ≡ (ok left, v)
      → call_each
          (λ d. d)
          (λ d out. record d { query = out })
          (hook_run_meta rt input)
          (all_named (λ h. h.before_retrieve) hs)
          c
          w
        ≡ ((left, none), v)
  unfolding run_before_retrieve
  before_retrieve-each [] c w left v h = result_or-ok ((c, none), w) left v h
  before_retrieve-each (g ∷ gs) c w left v h =
      sym (run_groups-call_each _ _ (hook_run_meta rt input) (λ h. h.before_retrieve) (g ∷ gs) c w)
      ∙ result_or-ok _ left v h

  module _ (tool : Tool) (w : W) where
    pub LeftByHooks-none : rt.hooks ≡ [] → LeftByHooks rt input tool w input.args
    unfolding tool_call_for_hooks
    LeftByHooks-none e =
        let c = tool_call_for_hooks rt input tool in
        (
          c,
          c,
          (
            w,
            (
              refl,
              refl,
              refl,
              ap
                  (λ hs.
                    call_each (λ d. d) (λ d out. record d { args = out }) (hook_run_meta rt input)
                      (all_named (λ h. h.before_tool) hs) c w)
                  e,
              refl,
            ),
          ),
        )

    pub LeftByHooks-before :
        (call : ToolCall) (v : W)
        → hooks_eligible (kind_of tool) ≡ true
        → run_before_tool_hooks rt input tool w ≡ (ok call, v)
        → LeftByHooks rt input tool w call.args
    unfolding run_before_tool_hooks tool_call_for_hooks
    LeftByHooks-before call v e p = (
      tool_call_for_hooks rt input tool,
      call,
      (
        v,
        (
          refl,
          refl,
          refl,
          before_tool-each rt.hooks (tool_call_for_hooks rt input tool) w call v e p,
          refl,
        ),
      ),
    )

    query-given :
        (o : Option Value) (query : Text)
        → query_of_value o ≡ ok query
        → (given : Text) × ((o ≡ some (str given)) × (query ≡ trim_space given))
    query-given none query h = cc
    query-given (some (other t)) query h = cc
    query-given (some (str t)) query h = (t, (refl, from (trim_space t) h))
      where
        from : (s : Text) → query_of_text s ≡ ok query → query ≡ s
        from [] k = cc
        from (c ∷ s) k = cc

    pub AsksFor-before :
        (name query : Text) (call : RetrieveCall) (v : W)
        → retriever_name_from_tool_name tool.name ≡ some name
        → retriever_tool_param_query_value input.args ≡ ok query
        → run_before_retrieve_hooks rt input query name w ≡ (ok call, v)
        → AsksFor rt input tool w (query_args rt input call.query)
    unfolding run_before_retrieve_hooks retriever_tool_param_query_value
    AsksFor-before name query call v n q p =
        let (given, (found, e)) =
          query-given (lookup retriever_tool_param_query input.args) query q in
        (
          name,
          given,
          (
            call,
            (
              v,
              (
                n,
                found,
                subst
                    (λ s.
                      call_each (λ d. d) (λ d out. record d { query = out })
                        (hook_run_meta rt input) (all_named (λ h. h.before_retrieve) rt.hooks)
                        (record { query = s; mode = agentic; retriever_name = name }) w
                      ≡ ((call, none), v))
                    e
                    (before_retrieve-each rt.hooks
                      (record { query = query; mode = agentic; retriever_name = name }) w call v p),
                refl,
              ),
            ),
          ),
        )
