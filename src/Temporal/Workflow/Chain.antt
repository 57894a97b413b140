-- ===== src/Temporal/Workflow/Chain.antt =====
-- The chain of runs that continue-as-new makes of one workflow: AgentWorkflow of
-- internal/runtime/temporal/agent_workflow.go, which Temporal starts again with the next input.
use temporal_go_agent_sdk.Prelude.{
  ℕ, zero, suc, ◌+◌, ◌≤◌, ◌<◌, false, ◌||◌, ◌==◌, ==_iff, leb, List, [], ◌∷◌, Option, none, some,
  Text, ◌≡◌, refl, arith, Result, ok, err,
}
use temporal_go_agent_sdk.Effects.{ret, ◌>>=◌, and_then}
use temporal_go_agent_sdk.Effects.Yields.{
  Yields, IfOk, Yields-bind, Yields-any, Yields-and_then, Yields-after, Yields-if,
}
use temporal_go_agent_sdk.Tools.Failure.{Failure}
use temporal_go_agent_sdk.Local.Types.{ToolCallRequest, LlmResult}
use temporal_go_agent_sdk.Local.Loop.{Contexts}
use temporal_go_agent_sdk.Temporal.Types.{
  AgentWorkflowInput, AgentRunResult, WorkflowConfig, generate, side_effect_id, Workflow, run,
  Fallible,
}
use temporal_go_agent_sdk.Temporal.Batch.{execute_tools}
use temporal_go_agent_sdk.Temporal.Workflow.{
  WorkflowVars, LoopEnd, stopped, continued, llm_input, final_call, carried, continue_or,
  save_on_iteration, after_tools, after_answer, after_call, account, iterate, budget_stops,
  agent_workflow_history_length, agent_workflow_history_size_bytes,
}
use temporal_go_agent_sdk.Temporal.Workflow.Run.{
  RunEnd, finished, continue_as_new, start_state, start_telemetry, recall_memory, prefetch_context,
  iterations_left, finish_run, persist_unsaved, store_at_end, run_loop, agent_workflow,
}

-- The end of a run, and the rest of the chain.
abbrev pub after_run :
    (AgentWorkflowInput → Workflow (Option (Result Failure AgentRunResult)))
    → Result Failure RunEnd
    → Workflow (Option (Result Failure AgentRunResult))
after_run rest (err f) = ret (some (err f))
after_run rest (ok (finished r)) = ret (some (ok r))
after_run rest (ok (continue_as_new next)) = rest next

-- At most so many runs; `none` is a chain that goes on after them.
unfoldable pub run_chain :
    ℕ → WorkflowConfig → AgentWorkflowInput → Workflow (Option (Result Failure AgentRunResult))
unfolding agent_workflow
run_chain zero cfg input = ret none
run_chain (suc fuel) cfg input = agent_workflow cfg input >>= after_run (run_chain fuel cfg)

-- A run that continues has gone on by at least one iteration, and has more to do.
abbrev IsAhead : ℕ → ℕ → LoopEnd → Type 0
IsAhead iteration bound (stopped v) = Unit {0}
IsAhead iteration bound (continued s) = (iteration < s.iteration) × (s.iteration < bound)

continue_or-IsAhead :
    (first iteration bound : ℕ) (next : WorkflowVars → Fallible LoopEnd) (v : WorkflowVars)
    → first ≤ iteration
    → suc iteration < bound
    → ((w : WorkflowVars) → Yields (IfOk (IsAhead first bound)) (next w))
    → Yields (IfOk (IsAhead first bound)) (continue_or iteration next v)
unfolding continue_or
continue_or-IsAhead first iteration bound next v p q h = λ info.
    Yields-if (IfOk (IsAhead first bound))
      (leb agent_workflow_history_length info.0 || leb agent_workflow_history_size_bytes info.1)
      (ret (ok (continued (carried (suc iteration) v)))) (next v) (λ e. (omega arith, q)) (λ e. h v)

module _ (cfg : WorkflowConfig) (input : AgentWorkflowInput) (contexts : Contexts) where
  final_call-IsAhead :
      (first bound : ℕ) (message_id : Text) (iteration : ℕ) (v : WorkflowVars)
      → Yields (IfOk (IsAhead first bound)) (final_call cfg input contexts message_id iteration v)
  unfolding final_call
  final_call-IsAhead first bound message_id iteration v = λ answer.
      Yields-and_then (λ r. Unit {0}) (IsAhead first bound) answer _ (any answer) (λ r u. tt)
    where
      any : (r : Result Failure LlmResult) → IfOk (λ r. Unit {0}) r
      any (ok r) = tt
      any (err f) = tt

  after_answer-IsAhead :
      (first iteration left bound : ℕ) (message_id : Text) (r : LlmResult) (v : WorkflowVars)
      (next : WorkflowVars → Fallible LoopEnd) (calls : List ToolCallRequest)
      → first ≤ iteration
      → iteration + suc left ≡ bound
      → ((w : WorkflowVars) → Yields (IfOk (IsAhead first bound)) (next w))
      → Yields
          (IfOk (IsAhead first bound))
          (after_answer cfg input contexts iteration left message_id r v next calls)
  unfolding after_answer
  after_answer-IsAhead first iteration left bound message_id r v next [] p q h = tt
  after_answer-IsAhead first iteration left bound message_id r v next (tc ∷ tcs) p q h =
      Yields-if (IfOk (IsAhead first bound)) (left == 0)
        (final_call cfg input contexts message_id iteration v)
        (execute_tools cfg.agent.tool_execution_mode input message_id iteration r.tool_calls
          >>= λ results. and_then results (λ rs.
            save_on_iteration cfg input (after_tools r rs v) >>= continue_or iteration next))
        (λ e. final_call-IsAhead first bound message_id iteration v)
        (λ e. Yields-after (IsAhead first bound) _ _ (λ rs.
          Yields-bind (λ w. Unit {0}) (IfOk (IsAhead first bound)) _ _
            (Yields-any (save_on_iteration cfg input (after_tools r rs v)))
            (λ w u.
              continue_or-IsAhead first iteration bound next w p (ground (arith, ==_iff left 0))
                h)))

  iterate-IsAhead :
      (first iteration left bound : ℕ) (v : WorkflowVars)
      → first ≤ iteration
      → iteration + left ≡ bound
      → Yields (IfOk (IsAhead first bound)) (iterate cfg input contexts iteration left v)
  unfolding iterate after_call
  iterate-IsAhead first iteration zero bound v p q = tt
  iterate-IsAhead first iteration (suc left) bound v p q =
      Yields-after (IsAhead first bound) (run side_effect_id) _ (λ message_id.
        Yields-after (IsAhead first bound)
          (run (
            generate input.conversation_id
              (llm_input cfg input contexts message_id iteration false v.messages)))
          _
          (λ r.
            Yields-if (IfOk (IsAhead first bound))
              (budget_stops r.usage (account r.usage v).token_budget) _
              (after_answer cfg input contexts iteration left message_id r (account r.usage v)
                (λ w. iterate cfg input contexts (suc iteration) left w) r.tool_calls)
              (λ e. tt)
              (λ e.
                after_answer-IsAhead first iteration left bound message_id r (account r.usage v)
                  (λ w. iterate cfg input contexts (suc iteration) left w) r.tool_calls p q
                  (λ w.
                    iterate-IsAhead first (suc iteration) left bound w (omega arith)
                      (omega arith)))))

-- The iteration at which a run starts.
unfoldable pub first_iteration : AgentWorkflowInput → ℕ
unfolding start_state
first_iteration input = (start_state input).iteration

-- A run that continues: the next one starts later, and below the limit.
abbrev Advances : ℕ → ℕ → RunEnd → Type 0
Advances first bound (finished r) = Unit {0}
Advances first bound (continue_as_new next) =
    (first < first_iteration next) × (first_iteration next < bound)

-- A result or an error.
abbrev pub HasEnded : Option (Result Failure AgentRunResult) → Type 0
HasEnded r = (a : Result Failure AgentRunResult) × (r ≡ some a)

module _ (cfg : WorkflowConfig) where
  finish_run-Advances :
      (input : AgentWorkflowInput) (first bound : ℕ) (last : LoopEnd)
      → IsAhead first bound last
      → Yields (IfOk (Advances first bound)) (finish_run cfg input last)
  unfolding finish_run first_iteration start_state
  finish_run-Advances input first bound (continued s) h = h
  finish_run-Advances input first bound (stopped v) h =
      Yields-after (Advances first bound) (persist_unsaved cfg input v.messages) _
        (λ u. Yields-after (Advances first bound) (store_at_end cfg input v) _ (λ t. tt))

  agent_workflow-Advances :
      (input : AgentWorkflowInput)
      → Yields
          (IfOk (
            Advances (first_iteration input) (
              first_iteration input
              + iterations_left cfg.agent.max_iterations (first_iteration input))))
          (agent_workflow cfg input)
  unfolding agent_workflow run_loop first_iteration
  agent_workflow-Advances input =
      let first = (start_state input).iteration in
      let bound = first + iterations_left cfg.agent.max_iterations first in
      Yields-after (Advances first bound) (run side_effect_id) _ (λ x.
        Yields-after (Advances first bound)
          (recall_memory cfg input (start_telemetry (start_state input).telemetry)) _
          (λ m. Yields-after (Advances first bound) (prefetch_context cfg input m.1) _ (λ p.
            Yields-bind (IfOk (IsAhead first bound)) (IfOk (Advances first bound)) _ _
              (iterate-IsAhead cfg input _ first first
                (iterations_left cfg.agent.max_iterations first) bound _ (omega arith) refl)
              (λ last h.
                Yields-and_then (IsAhead first bound) (Advances first bound) last _ h
                  (λ l k. finish_run-Advances input first bound l k)))))

  after_run-ends :
      (first left : ℕ)
      (rest : AgentWorkflowInput → Workflow (Option (Result Failure AgentRunResult)))
      (end : Result Failure RunEnd)
      → IfOk (Advances first (first + left)) end
      → ((next : AgentWorkflowInput)
          → first < first_iteration next
          → first_iteration next < first + left
          → Yields HasEnded (rest next))
      → Yields HasEnded (after_run rest end)
  after_run-ends first left rest (err f) k h = (err f, refl)
  after_run-ends first left rest (ok (finished r)) k h = (ok r, refl)
  after_run-ends first left rest (ok (continue_as_new next)) k h = h next k.0 k.1

  -- A workflow ends. Each run that continues as new hands on a later iteration, below the limit, so
  -- that the chain of runs from any input, whatever all activities answer, ends with a result or an
  -- error within as many runs as iterations are left, and one.
  pub run_chain-ends :
      (fuel : ℕ) (input : AgentWorkflowInput)
      → iterations_left cfg.agent.max_iterations (first_iteration input) < fuel
      → Yields HasEnded (run_chain fuel cfg input)
  unfolding run_chain
  run_chain-ends zero input h = let e : ⊥ = omega arith in elim e [ ]
  run_chain-ends (suc fuel) input h =
      Yields-bind _ HasEnded (agent_workflow cfg input) (after_run (run_chain fuel cfg))
        (agent_workflow-Advances input)
        (λ end k.
          after_run-ends (first_iteration input)
            (iterations_left cfg.agent.max_iterations (first_iteration input)) (run_chain fuel cfg)
            end k (λ next p q. run_chain-ends fuel next (omega arith)))
