-- ===== src/Base/Execution/World.antt =====
-- What the hooks around a tool do to the world, where each of them leaves a part of it alone:
-- internal/runtime/base/hooks.go.
use temporal_go_agent_sdk.Prelude.{
  true, false, List, [], ◌∷◌, Option, none, some, Text, ◌≡◌, refl, ◌∙◌, Bool, Result, ok, err, All,
  if◌then◌else◌,
}
use temporal_go_agent_sdk.Interfaces.{hooks_eligible}
use temporal_go_agent_sdk.Interfaces.Requests.{Document}
use temporal_go_agent_sdk.Tools.Failure.{Failure}
use temporal_go_agent_sdk.Local.Types.{ExecuteToolInput}
use temporal_go_agent_sdk.Hooks.{
  RunMeta, ToolCall, RetrieveCall, ToolOutcome, AgentHooks, HookGroup, Hook, Progress, go_on,
  settle, run_group, run_groups,
}
use temporal_go_agent_sdk.Hooks.Run.{
  result_or, run_before_tool, run_after_tool, run_before_retrieve, run_after_retrieve,
}
use temporal_go_agent_sdk.Base.Request.{Tool}
use temporal_go_agent_sdk.Base.Execution.{
  ToolRuntime, with_hooks, hook_run_meta, tool_call_for_hooks, run_before_tool_hooks,
  run_after_tool_hooks, run_before_retrieve_hooks, run_after_retrieve_hooks,
}

module _ {W L : Type 0} (f : W → L) where
  -- The hook leaves that part of the world.
  abbrev pub HookKeeps : {I O : Type 0} → Option (Hook W I O) → Type 0
  HookKeeps none = Unit {0}
  HookKeeps {I = I} (some hook) = (meta : RunMeta) (i : I) (w : W) → f (hook meta i w).1 ≡ f w

  -- So do all the hooks around tools and retrievals.
  abbrev pub GroupKeeps : HookGroup W → Type 0
  GroupKeeps g =
      All HookKeeps g.hooks.before_tool
      × All HookKeeps g.hooks.after_tool
      × All HookKeeps g.hooks.before_retrieve
      × All HookKeeps g.hooks.after_retrieve

  keeps-go_on :
      {S : Type 0} (p : Progress W S) (k : S → W → Progress W S) (w : W)
      → f p.1 ≡ f w
      → ((s : S) (v : W) → f (k s v).1 ≡ f v)
      → f (go_on p k).1 ≡ f w
  keeps-go_on ((s, none), v) k w h step = step s v ∙ h
  keeps-go_on ((s, some e), v) k w h step = h

  keeps-settle :
      {S O : Type 0} (put : S → O → S) (s : S) (r : Result Failure O × W)
      → f (settle put s r).1 ≡ f r.1
  keeps-settle put s (ok o, w) = refl
  keeps-settle put s (err e, w) = refl

  pub keeps-result_or : {S : Type 0} (p : Progress W S) → f (result_or p).1 ≡ f p.1
  keeps-result_or ((s, none), w) = refl
  keeps-result_or ((s, some e), w) = refl

  keeps-if :
      {X : Type 0} (b : Bool) (p q : X × W) (w : W)
      → f p.1 ≡ f w
      → f q.1 ≡ f w
      → f (if b then p else q).1 ≡ f w
  keeps-if true p q w h k = h
  keeps-if false p q w h k = k

  module _ {I O S : Type 0} (input : S → I) (put : S → O → S) where
    keeps-run_group :
        (meta : RunMeta) (hooks : List (Option (Hook W I O)))
        → All HookKeeps hooks
        → (s : S) (w : W) → f (run_group input put meta hooks s w).1 ≡ f w
    unfolding run_group
    keeps-run_group meta [] h s w = refl
    keeps-run_group meta (none ∷ hooks) h s w = keeps-run_group meta hooks h.1 s w
    keeps-run_group meta (some hook ∷ hooks) h s w =
        keeps-go_on (settle put s (hook meta (input s) w)) (run_group input put meta hooks) w
          (keeps-settle put s (hook meta (input s) w) ∙ h.0 meta (input s) w)
          (λ t v. keeps-run_group meta hooks h.1 t v)

    keeps-run_groups :
        (select : AgentHooks W → List (Option (Hook W I O)))
        → ((g : HookGroup W) → GroupKeeps g → All HookKeeps (select g.hooks))
        → (meta : RunMeta) (groups : List (HookGroup W)) → All GroupKeeps groups
        → (s : S) (w : W) → f (run_groups input put select meta groups s w).1 ≡ f w
    unfolding run_groups
    keeps-run_groups select pick meta [] h s w = refl
    keeps-run_groups select pick meta (g ∷ groups) h s w =
        keeps-go_on
          (run_group input put (record meta { hooks_group = g.name }) (select g.hooks) s w)
          (run_groups input put select meta groups) w
          (keeps-run_group (record meta { hooks_group = g.name }) (select g.hooks) (pick g h.0) s w)
          (λ t v. keeps-run_groups select pick meta groups h.1 t v)

  module _ (meta : RunMeta) (groups : List (HookGroup W)) (h : All GroupKeeps groups) where
    keeps-run_before_tool : (c : ToolCall) (w : W) → f (run_before_tool groups meta c w).1 ≡ f w
    unfolding run_before_tool
    keeps-run_before_tool c w =
        keeps-if (hooks_eligible c.kind) _ (ok c, w) w
          (keeps-result_or _
            ∙ keeps-run_groups _ _ (λ g. g.before_tool) (λ g k. k.0) meta groups h c w)
          refl

    keeps-run_after_tool :
        (c : ToolCall) (o : ToolOutcome) (w : W) → f (run_after_tool groups meta c o w).1 ≡ f w
    unfolding run_after_tool
    keeps-run_after_tool c o w =
        keeps-if (hooks_eligible c.kind) _ ((o, none), w) w
          (keeps-run_groups _ _ (λ g. g.after_tool) (λ g k. k.1) meta groups h o w) refl

    keeps-run_before_retrieve :
        (c : RetrieveCall) (w : W) → f (run_before_retrieve groups meta c w).1 ≡ f w
    unfolding run_before_retrieve
    keeps-run_before_retrieve c w =
        keeps-result_or _
        ∙ keeps-run_groups _ _ (λ g. g.before_retrieve) (λ g k. k.2) meta groups h c w

    keeps-run_after_retrieve :
        (c : RetrieveCall) (ds : List Document) (w : W)
        → f (run_after_retrieve groups meta c ds w).1 ≡ f w
    unfolding run_after_retrieve
    keeps-run_after_retrieve c ds w =
        keeps-result_or _
        ∙ keeps-run_groups _ _ (λ g. g.after_retrieve) (λ g k. k.3) meta groups h ds w

  keeps-with_hooks :
      {X : Type 0} (hs : List (HookGroup W)) (p q : X × W) (w : W)
      → f p.1 ≡ f w
      → f q.1 ≡ f w
      → f (with_hooks hs p q).1 ≡ f w
  keeps-with_hooks [] p q w h k = h
  keeps-with_hooks (g ∷ hs) p q w h k = k

  module _ (rt : ToolRuntime W) (input : ExecuteToolInput) (h : All GroupKeeps rt.hooks) where
    pub keeps-run_before_tool_hooks :
        (tool : Tool) (w : W) → f (run_before_tool_hooks rt input tool w).1 ≡ f w
    unfolding run_before_tool_hooks
    keeps-run_before_tool_hooks tool w = keeps-with_hooks rt.hooks _ _ w refl (
        keeps-run_before_tool (hook_run_meta rt input) rt.hooks h
          (tool_call_for_hooks rt input tool) w)

    pub keeps-run_after_tool_hooks :
        (c : ToolCall) (o : ToolOutcome) (w : W) → f (run_after_tool_hooks rt input c o w).1 ≡ f w
    unfolding run_after_tool_hooks
    keeps-run_after_tool_hooks c o w =
        keeps-with_hooks rt.hooks _ _ w refl
          (keeps-run_after_tool (hook_run_meta rt input) rt.hooks h c o w)

    pub keeps-run_before_retrieve_hooks :
        (query name : Text) (w : W) → f (run_before_retrieve_hooks rt input query name w).1 ≡ f w
    unfolding run_before_retrieve_hooks
    keeps-run_before_retrieve_hooks query name w =
        keeps-with_hooks rt.hooks _ _ w refl
          (keeps-run_before_retrieve (hook_run_meta rt input) rt.hooks h _ w)

    pub keeps-run_after_retrieve_hooks :
        (c : RetrieveCall) (ds : List Document) (w : W)
        → f (run_after_retrieve_hooks rt input c ds w).1 ≡ f w
    unfolding run_after_retrieve_hooks
    keeps-run_after_retrieve_hooks c ds w =
        keeps-with_hooks rt.hooks _ _ w refl
          (keeps-run_after_retrieve (hook_run_meta rt input) rt.hooks h c ds w)
