-- ===== src/Hooks/Order.antt =====
-- The order in which internal/hooks calls hooks, and what merging two sets of hooks does to it.
use temporal_go_agent_sdk.Prelude.{
  List, [], ◌∷◌, ◌++◌, Option, none, some, Text, ◌≡◌, refl, ap, ◌∙◌, sym, ok, if◌then◌else◌,
}
use temporal_go_agent_sdk.Interfaces.{LlmResponse, hooks_eligible}
use temporal_go_agent_sdk.Interfaces.Requests.{LlmRequest, Document}
use temporal_go_agent_sdk.Hooks.{
  RunMeta, ToolCall, RetrieveCall, MemoryLoadCall, MemoryStoreCall, ToolOutcome, AgentHooks,
  HookGroup, Hook, Progress, go_on, settle, run_group, run_groups, merge,
}
use temporal_go_agent_sdk.Hooks.Run.{
  result_or, run_before_llm, run_after_llm, run_before_tool, run_after_tool, run_before_retrieve,
  run_after_retrieve, run_before_memory_load, run_after_memory_load, run_before_memory_store,
  run_after_memory_store,
}

-- The functions of one group that are not nil, each with the name of the group.
abbrev pub named : {W I O : Type 0} → Text → List (Option (Hook W I O)) → List (Text × Hook W I O)
named n [] = []
named n (none ∷ hooks) = named n hooks
named n (some hook ∷ hooks) = (n, hook) ∷ named n hooks

abbrev pub all_named :
    {W I O : Type 0}
    → (AgentHooks W → List (Option (Hook W I O)))
    → List (HookGroup W)
    → List (Text × Hook W I O)
all_named select [] = []
all_named select (g ∷ groups) = named g.name (select g.hooks) ++ all_named select groups

-- One loop over a plain list of functions, which ends at the first error.
abbrev pub call_each :
    {W I O S : Type 0}
    → (S → I)
    → (S → O → S)
    → RunMeta
    → List (Text × Hook W I O)
    → S
    → W
    → Progress W S
call_each input put meta [] s w = ((s, none), w)
call_each input put meta ((n, hook) ∷ hooks) s w =
    go_on (settle put s (hook (record meta { hooks_group = n }) (input s) w))
      (call_each input put meta hooks)

go_on_assoc :
    {W S : Type 0} (p : Progress W S) (k l : S → W → Progress W S)
    → go_on (go_on p k) l ≡ go_on p (λ s w. go_on (k s w) l)
go_on_assoc ((s, none), w) k l = refl
go_on_assoc ((s, some f), w) k l = refl

go_on-ap :
    {W S : Type 0} (p : Progress W S) (k l : S → W → Progress W S)
    → ((s : S) (w : W) → k s w ≡ l s w)
    → go_on p k ≡ go_on p l
go_on-ap ((s, none), w) k l h = h s w
go_on-ap ((s, some f), w) k l h = refl

module _ {W I O S : Type 0} (input : S → I) (put : S → O → S) (meta : RunMeta) where
  run_group-named :
      (n : Text) (hooks : List (Option (Hook W I O))) (more : List (Text × Hook W I O)) (s : S)
      (w : W)
      → go_on
          (run_group input put (record meta { hooks_group = n }) hooks s w)
          (call_each input put meta more)
        ≡ call_each input put meta (named n hooks ++ more) s w
  unfolding run_group
  run_group-named n [] more s w = refl
  run_group-named n (none ∷ hooks) more s w = run_group-named n hooks more s w
  run_group-named n (some hook ∷ hooks) more s w =
      go_on_assoc (settle put s (hook (record meta { hooks_group = n }) (input s) w)) _ _
      ∙ go_on-ap (settle put s (hook (record meta { hooks_group = n }) (input s) w)) _ _
          (λ t v. run_group-named n hooks more t v)

  -- Nested over groups and their hooks, the loops call every function that is not nil once, in the
  -- order of registration, with the name of its group; each gets the value that the one before it
  -- left, and after the first error no other is called.
  pub run_groups-call_each :
      (select : AgentHooks W → List (Option (Hook W I O))) (groups : List (HookGroup W)) (s : S)
      (w : W)
      → run_groups input put select meta groups s w
        ≡ call_each input put meta (all_named select groups) s w
  unfolding run_groups
  run_groups-call_each select [] s w = refl
  run_groups-call_each select (g ∷ groups) s w =
      go_on-ap (run_group input put (record meta { hooks_group = g.name }) (select g.hooks) s w) _ _
        (λ t v. run_groups-call_each select groups t v)
      ∙ run_group-named g.name (select g.hooks) (all_named select groups) s w

  -- Groups with the same functions under the same names run alike.
  run_groups-same :
      (select : AgentHooks W → List (Option (Hook W I O))) (groups others : List (HookGroup W))
      (s : S) (w : W)
      → all_named select groups ≡ all_named select others
      → run_groups input put select meta groups s w ≡ run_groups input put select meta others s w
  run_groups-same select groups others s w p =
      run_groups-call_each select groups s w
      ∙ (ap (λ hs. call_each input put meta hs s w) p
          ∙ sym (run_groups-call_each select others s w))

-- Whatever is run, two lists of groups do the same.
abbrev pub RunAlike : {W : Type 0} → List (HookGroup W) → List (HookGroup W) → Type 0
RunAlike {W} gs hs =
    ((m : RunMeta) (x : LlmRequest) (w : W) → run_before_llm gs m x w ≡ run_before_llm hs m x w)
    × ((m : RunMeta) (x : LlmResponse) (w : W) → run_after_llm gs m x w ≡ run_after_llm hs m x w)
    × ((m : RunMeta) (x : ToolCall) (w : W) → run_before_tool gs m x w ≡ run_before_tool hs m x w)
    × ((m : RunMeta) (x : ToolCall) (o : ToolOutcome) (w : W)
        → run_after_tool gs m x o w ≡ run_after_tool hs m x o w)
    × ((m : RunMeta) (x : RetrieveCall) (w : W)
        → run_before_retrieve gs m x w ≡ run_before_retrieve hs m x w)
    × ((m : RunMeta) (x : RetrieveCall) (ds : List Document) (w : W)
        → run_after_retrieve gs m x ds w ≡ run_after_retrieve hs m x ds w)
    × ((m : RunMeta) (x : MemoryLoadCall) (w : W)
        → run_before_memory_load gs m x w ≡ run_before_memory_load hs m x w)
    × ((m : RunMeta) (x : MemoryLoadCall) (c : Text) (w : W)
        → run_after_memory_load gs m x c w ≡ run_after_memory_load hs m x c w)
    × ((m : RunMeta) (x : MemoryStoreCall) (w : W)
        → run_before_memory_store gs m x w ≡ run_before_memory_store hs m x w)
    × ((m : RunMeta) (x : MemoryStoreCall) (w : W)
        → run_after_memory_store gs m x w ≡ run_after_memory_store hs m x w)

named-append :
    {W I O : Type 0} (n : Text) (xs ys : List (Option (Hook W I O))) (zs : List (Text × Hook W I O))
    → named n (xs ++ ys) ++ zs ≡ named n xs ++ (named n ys ++ zs)
named-append n [] ys zs = refl
named-append n (none ∷ xs) ys zs = named-append n xs ys zs
named-append n (some hook ∷ xs) ys zs = ap (◌∷◌ (n, hook)) (named-append n xs ys zs)

abbrev pub merged : {W : Type 0} → Text → AgentHooks W → AgentHooks W → HookGroup W
merged n h other = record { name = n; hooks = merge h other }

abbrev pub group_of : {W : Type 0} → Text → AgentHooks W → HookGroup W
group_of n h = record { name = n; hooks = h }

run_groups-merge :
    {W I O S : Type 0} (input : S → I) (put : S → O → S) (meta : RunMeta)
    (select : AgentHooks W → List (Option (Hook W I O))) (n : Text) (h other : AgentHooks W)
    (gs : List (HookGroup W)) (s : S) (w : W)
    → select (merge h other) ≡ select h ++ select other
    → run_groups input put select meta (merged n h other ∷ gs) s w
      ≡ run_groups input put select meta (group_of n h ∷ group_of n other ∷ gs) s w
run_groups-merge input put meta select n h other gs s w p =
    run_groups-same input put meta select (merged n h other ∷ gs)
      (group_of n h ∷ group_of n other ∷ gs) s w
      (ap (λ xs. named n xs ++ all_named select gs) p
        ∙ named-append n (select h) (select other) (all_named select gs))

-- A group of merged hooks does, for each of the ten kinds of hook, what two groups of the same name
-- do one after the other; with other groups behind them.
pub RunAlike-merge :
    {W : Type 0} (n : Text) (h other : AgentHooks W) (gs : List (HookGroup W))
    → RunAlike (merged n h other ∷ gs) (group_of n h ∷ group_of n other ∷ gs)
unfolding merge run_before_llm run_after_llm run_before_tool run_after_tool run_before_retrieve
    run_after_retrieve run_before_memory_load run_after_memory_load run_before_memory_store
    run_after_memory_store
RunAlike-merge n h other gs = (
  λ m x w. ap result_or (run_groups-merge _ _ m (λ a. a.before_llm) n h other gs x w refl),
  λ m x w. ap result_or (run_groups-merge _ _ m (λ a. a.after_llm) n h other gs x w refl),
  λ m x w.
      ap (λ r. if hooks_eligible x.kind then result_or r else (ok x, w))
        (run_groups-merge _ _ m (λ a. a.before_tool) n h other gs x w refl),
  λ m x o w.
      ap (λ r. if hooks_eligible x.kind then r else ((o, none), w))
        (run_groups-merge _ _ m (λ a. a.after_tool) n h other gs o w refl),
  λ m x w. ap result_or (run_groups-merge _ _ m (λ a. a.before_retrieve) n h other gs x w refl),
  λ m x ds w. ap result_or (run_groups-merge _ _ m (λ a. a.after_retrieve) n h other gs ds w refl),
  λ m x w. ap result_or (run_groups-merge _ _ m (λ a. a.before_memory_load) n h other gs x w refl),
  λ m x c w. ap result_or (run_groups-merge _ _ m (λ a. a.after_memory_load) n h other gs c w refl),
  λ m x w. ap result_or (run_groups-merge _ _ m (λ a. a.before_memory_store) n h other gs x w refl),
  λ m x w. ap result_or (run_groups-merge _ _ m (λ a. a.after_memory_store) n h other gs x w refl),
)
