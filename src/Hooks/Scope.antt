-- ===== src/Hooks/Scope.antt =====
-- What hooks cannot change: the identity of a tool call, the retriever that is asked, and the scope
-- of a memory. internal/hooks/tools.go, retriever.go and memory.go.
use temporal_go_agent_sdk.Prelude.{
  Bool, true, false, List, [], ◌∷◌, Option, none, some, ◌≡◌, refl, ap, Text, Dict, Result, ok, err,
  if◌then◌else◌,
}
use temporal_go_agent_sdk.Interfaces.{hooks_eligible}
use temporal_go_agent_sdk.Tools.Failure.{Failure}
use temporal_go_agent_sdk.Local.Types.{MemoryScope}
use temporal_go_agent_sdk.Hooks.{
  RunMeta, ToolCall, RetrieveCall, MemoryLoadCall, MemoryStoreCall, AgentHooks, HookGroup, Hook,
  Progress, go_on, settle, run_group, run_groups,
}
use temporal_go_agent_sdk.Hooks.Run.{
  result_or, run_before_tool, run_before_retrieve, run_before_memory_load, run_before_memory_store,
}

-- A value that is returned, rather than an error, satisfies the predicate.
abbrev pub OkMeets : {W S : Type 0} → (S → Type 0) → Result Failure S × W → Type 0
OkMeets P (ok s, w) = P s
OkMeets P (err f, w) = Unit {0}

-- The value so far satisfies the predicate.
abbrev Holds : {W S : Type 0} → (S → Type 0) → Progress W S → Type 0
Holds P ((s, e), w) = P s

Holds-go_on :
    {W S : Type 0} (P : S → Type 0) (p : Progress W S) (k : S → W → Progress W S)
    → Holds P p
    → ((s : S) (w : W) → P s → Holds P (k s w))
    → Holds P (go_on p k)
Holds-go_on P ((s, none), w) k h step = step s w h
Holds-go_on P ((s, some f), w) k h step = h

OkMeets-Holds :
    {W S : Type 0} (P : S → Type 0) (p : Progress W S) → Holds P p → OkMeets P (result_or p)
OkMeets-Holds P ((s, none), w) h = h
OkMeets-Holds P ((s, some f), w) h = tt

OkMeets-if :
    {W S : Type 0} (P : S → Type 0) (b : Bool) (p q : Result Failure S × W)
    → OkMeets P p
    → OkMeets P q
    → OkMeets P (if b then p else q)
OkMeets-if P true p q h k = h
OkMeets-if P false p q h k = k

module _ {W I O S : Type 0} (P : S → Type 0) (input : S → I) (put : S → O → S)
    (keeps : (s : S) (o : O) → P s → P (put s o)) where
  Holds-settle : (s : S) (r : Result Failure O × W) → P s → Holds P (settle put s r)
  Holds-settle s (ok o, w) h = keeps s o h
  Holds-settle s (err f, w) h = h

  Holds-run_group :
      (meta : RunMeta) (hooks : List (Option (Hook W I O))) (s : S) (w : W)
      → P s
      → Holds P (run_group input put meta hooks s w)
  unfolding run_group
  Holds-run_group meta [] s w h = h
  Holds-run_group meta (none ∷ hooks) s w h = Holds-run_group meta hooks s w h
  Holds-run_group meta (some hook ∷ hooks) s w h =
      Holds-go_on P (settle put s (hook meta (input s) w)) _
        (Holds-settle s (hook meta (input s) w) h) (λ t v k. Holds-run_group meta hooks t v k)

  Holds-run_groups :
      (select : AgentHooks W → List (Option (Hook W I O))) (meta : RunMeta)
      (groups : List (HookGroup W)) (s : S) (w : W)
      → P s
      → Holds P (run_groups input put select meta groups s w)
  unfolding run_groups
  Holds-run_groups select meta [] s w h = h
  Holds-run_groups select meta (g ∷ groups) s w h =
      Holds-go_on P
        (run_group input put (record meta { hooks_group = g.name }) (select g.hooks) s w) _
        (Holds-run_group (record meta { hooks_group = g.name }) (select g.hooks) s w h)
        (λ t v k. Holds-run_groups select meta groups t v k)

-- Only the arguments differ.
abbrev pub IsSameTool : ToolCall → ToolCall → Type 0
IsSameTool c d = d ≡ record c { args = d.args }

-- Only the query differs.
abbrev pub IsSameRetriever : RetrieveCall → RetrieveCall → Type 0
IsSameRetriever c d = d ≡ record c { query = d.query }

-- Only the tags differ.
abbrev pub IsSameOwner : MemoryScope → MemoryScope → Type 0
IsSameOwner c d = d ≡ record c { tags = d.tags }

retagged :
    (c d : MemoryScope) (tags : Dict Text)
    → IsSameOwner c d
    → IsSameOwner c (record d { tags = tags })
retagged c d tags p = ap (λ (x : MemoryScope). record x { tags = tags }) p

-- The hooks that run before an operation cannot turn it into another one: whatever they return, and
-- whatever they write into the tags of a scope, which they share, the tool call that comes out
-- differs from the one that went in by its arguments only, the retrieval by its query only, and the
-- memories are loaded from and stored in the scope of the same tenant, user and agent, whose tags may
-- differ.
pub OkMeets-before :
    {W : Type 0} (groups : List (HookGroup W)) (meta : RunMeta) (w : W)
    → ((c : ToolCall) → OkMeets (IsSameTool c) (run_before_tool groups meta c w))
      × ((c : RetrieveCall) → OkMeets (IsSameRetriever c) (run_before_retrieve groups meta c w))
      × ((c : MemoryLoadCall)
          → OkMeets (λ d. IsSameOwner c.scope d.scope) (run_before_memory_load groups meta c w))
      × ((c : MemoryStoreCall)
          → OkMeets (λ d. IsSameOwner c.scope d.scope) (run_before_memory_store groups meta c w))
unfolding run_before_tool run_before_retrieve run_before_memory_load run_before_memory_store
OkMeets-before groups meta w = (
  λ c.
      OkMeets-if (IsSameTool c) (hooks_eligible c.kind) _ _
        (OkMeets-Holds (IsSameTool c) _ (
          Holds-run_groups (IsSameTool c) _ _ (λ s o p i. record (p i) { args = o })
            (λ h. h.before_tool) meta groups c w refl))
        refl,
  λ c. OkMeets-Holds (IsSameRetriever c) _ (
      Holds-run_groups (IsSameRetriever c) _ _ (λ s o p i. record (p i) { query = o })
        (λ h. h.before_retrieve) meta groups c w refl),
  λ c.
      OkMeets-Holds (λ d. IsSameOwner c.scope d.scope) _
        (Holds-run_groups (λ d. IsSameOwner c.scope d.scope) _ _
          (λ s o p. retagged c.scope s.scope o.tags p) (λ h. h.before_memory_load) meta groups c w
          refl),
  λ c.
      OkMeets-Holds (λ d. IsSameOwner c.scope d.scope) _
        (Holds-run_groups (λ d. IsSameOwner c.scope d.scope) _ _
          (λ s o p. retagged c.scope s.scope o.tags p) (λ h. h.before_memory_store) meta groups c w
          refl),
)
