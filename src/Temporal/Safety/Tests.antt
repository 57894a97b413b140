-- ===== src/Temporal/Safety/Tests.antt =====
-- The promises of the workflow of internal/runtime/temporal/agent_workflow.go on concrete input.
use temporal_go_agent_sdk.Prelude.{false, [], ◌∷◌, codes, refl, inl, ok, arith}
use temporal_go_agent_sdk.Effects.Logic.{Allowed}
use temporal_go_agent_sdk.Effects.Frame.{Anything}
use temporal_go_agent_sdk.Local.Types.{parallel, ExecuteLlmInput}
use temporal_go_agent_sdk.Local.Examples.{search_call, helper_call}
use temporal_go_agent_sdk.Local.Safety.Batch.{Settles}
use temporal_go_agent_sdk.Temporal.Types.{generate}
use temporal_go_agent_sdk.Temporal.Batch.{execute_tools}
use temporal_go_agent_sdk.Temporal.ToolCall.{child_input}
use temporal_go_agent_sdk.Temporal.Workflow.{llm_input}
use temporal_go_agent_sdk.Temporal.Workflow.Chain.{run_chain}
use temporal_go_agent_sdk.Temporal.Safety.{Event, Open, Sound}
use temporal_go_agent_sdk.Temporal.Safety.Batch.{execute_batch-Sound}
use temporal_go_agent_sdk.Temporal.Safety.Chain.{
  SendsDialog, RunsPermitted, run_chain-SendsDialog, run_chain-RunsPermitted,
}
use temporal_go_agent_sdk.Temporal.Safety.Depth.{StartsNoChild, run_chain-StartsNoChild}
use temporal_go_agent_sdk.Temporal.Examples.{worker, first_input, helper_route, first_answer}

abbrev question : ExecuteLlmInput
question =
    llm_input worker first_input (record { memory_context = []; retriever_context = [] })
      (codes "m") 0 false []

abbrev asked : Event
asked = (generate (codes "c1") question, ok first_answer)

execute_batch-Sound_example :
    Sound first_input
      (Settles parallel (search_call ∷ (helper_call ∷ [])))
      (asked ∷ [])
      (execute_tools parallel first_input (codes "m") 0 (search_call ∷ (helper_call ∷ [])))
execute_batch-Sound_example =
    execute_batch-Sound first_input (codes "m") 0 parallel (asked ∷ [])
      (search_call ∷ (helper_call ∷ []))
      (λ tc m. (codes "c1", (question, (first_answer, (inl refl, m)))))

run_chain-SendsDialog_example :
    Allowed SendsDialog Open Anything [] (run_chain 3 worker first_input)
run_chain-SendsDialog_example = run_chain-SendsDialog 3 worker first_input tt

run_chain-RunsPermitted_example :
    Allowed (RunsPermitted first_input) Open Anything [] (run_chain 3 worker first_input)
run_chain-RunsPermitted_example = run_chain-RunsPermitted 3 worker first_input tt

run_chain-StartsNoChild_example :
    Allowed StartsNoChild Open Anything []
      (run_chain 3 worker (child_input first_input helper_call helper_route (codes "s")))
run_chain-StartsNoChild_example =
    run_chain-StartsNoChild first_input helper_call helper_route (codes "s") 3 worker 0 refl
      (omega arith)
