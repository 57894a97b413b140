-- ===== src/Temporal/Safety/Depth.antt =====
-- How deep workflows of internal/runtime/temporal/agent_workflow.go nest: `childInput` of
-- delegateToSubAgent sets no `MaxSubAgentDepth`.
use temporal_go_agent_sdk.Prelude.{
  ℕ, ◌+◌, ◌<◌, true, false, List, [], Text, pos, leb_ℤ, add_int64, two_63, ◌≡◌, ap, arith,
}
use temporal_go_agent_sdk.Effects.Logic.{Allowed, Allowed-weaken}
use temporal_go_agent_sdk.Effects.Frame.{Anything}
use temporal_go_agent_sdk.Local.Types.{ToolCallRequest}
use temporal_go_agent_sdk.Temporal.Types.{
  SubAgentRoute, AgentWorkflowInput, WorkflowConfig, Activity, run_child,
}
use temporal_go_agent_sdk.Temporal.ToolCall.{child_input}
use temporal_go_agent_sdk.Temporal.Workflow.Chain.{run_chain}
use temporal_go_agent_sdk.Temporal.Safety.{Event, Permit, Open}
use temporal_go_agent_sdk.Temporal.Safety.Chain.{run_chain-Sound}

abbrev pub StartsNoChild : List Event → Activity → Type 0
StartsNoChild t (run_child q i) = ⊥
StartsNoChild t _ = Unit {0}

-- A limit of zero is reached at any depth that is not negative.
limit_reached : (n : ℕ) → n + 1 < two_63 → leb_ℤ (pos 0) (add_int64 (pos n) (pos 1)) ≡ true
limit_reached n h = ground arith

module _ (input : AgentWorkflowInput) (tc : ToolCallRequest) (r : SubAgentRoute)
    (suffix : Text) where
  Permit-StartsNoChild :
      (n : ℕ) (t : List Event) (q : Activity)
      → input.sub_agent_depth ≡ pos n
      → n + 1 < two_63
      → Permit (child_input input tc r suffix) t q
      → StartsNoChild t q
  unfolding child_input
  Permit-StartsNoChild n t (run_child q i) p b h =
      let d = h.1.0 in
      let e = limit_reached n b in
      let f : leb_ℤ (pos 0) (add_int64 input.sub_agent_depth (pos 1)) ≡ false = d in
      let g = ap (λ x. leb_ℤ (pos 0) (add_int64 x (pos 1))) p in cc
  Permit-StartsNoChild n t q p b h = tt

  -- A delegated workflow never delegates. Started with the input that a workflow makes for its child,
  -- with any route and so with any child routes, a workflow and all runs that continue it start no
  -- child workflow at all, whatever the activities answer, when the depth of the workflow that
  -- delegates is not negative and below the largest int.
  pub run_chain-StartsNoChild :
      (fuel : ℕ) (cfg : WorkflowConfig) (n : ℕ)
      → input.sub_agent_depth ≡ pos n
      → n + 1 < two_63
      → Allowed StartsNoChild Open Anything [] (run_chain fuel cfg (child_input input tc r suffix))
  unfolding child_input
  run_chain-StartsNoChild fuel cfg n p b =
      Allowed-weaken (Permit (child_input input tc r suffix)) StartsNoChild Open Anything _ []
        (λ t q h. Permit-StartsNoChild n t q p b h)
        (run_chain-Sound fuel cfg (child_input input tc r suffix) [] tt)
