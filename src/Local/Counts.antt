-- ===== src/Local/Counts.antt =====
-- How often a run of internal/runtime/local/agent_loop.go calls the model, by the reason it ends for.
pub mod Tally
pub mod Quiet
pub mod Exact
pub mod Phases
pub mod Run
mod Tests
use Prim.Native.Nat.{zero, suc}
use temporal_go_agent_sdk.Prelude.{
  ℕ, ◌+◌, ◌≤◌, Bool, true, false, ◌&&◌, ◌==◌, ==_iff, ltb, length, drop, List, [], ◌∷◌, ◌++◌, Text,
  Option, none, some, ◌≡◌, ◌⊎◌, inl, inr, refl, arith, Result, ok, err, if◌then◌else◌, positive_or,
}
use temporal_go_agent_sdk.Interfaces.{Message}
use temporal_go_agent_sdk.Tools.Failure.{Failure}
use temporal_go_agent_sdk.Base.Telemetry.{
  FinishReason, complete, max_iterations, token_budget, AgentTelemetry, new_agent_telemetry,
}
use temporal_go_agent_sdk.Local.Types.{
  recall, retrieve, store_memory, MemoryResult, RetrieverResult, ToolCallRequest, ToolResult,
  LlmResult, AgentConfig, AgentLoopInput, AgentLoopResult, Call, Answer,
}
use temporal_go_agent_sdk.Local.Program.{Program, ret, call, ask, ◌>>=◌, ◌>>◌}
use temporal_go_agent_sdk.Local.Program.Logic.{Event, Extends, Allowed, Allowed-bind}
use temporal_go_agent_sdk.Local.Delegation.{Delegates}
use temporal_go_agent_sdk.Local.Loop.{
  LoopState, Contexts, conversation_memory_enabled, persist_conversation_messages, record_result,
  record_results, count_llm_call, account, budget_stops, answer_with, llm_input, finish_for,
}
use temporal_go_agent_sdk.Local.Loop.Start.{
  load_history, recall_memory, prefetch_context, initial_state, persist_unsaved, finish_run,
  noted_store, result_of, prefetches, after_recall, after_prefetch,
}
use temporal_go_agent_sdk.Local.Loop.Run.{
  and_then, execute_tools, after_tools, save_on_iteration, final_error, final_state, final_call,
  call_error, after_answer, after_call, iterate, run_agent_loop,
}

-- Every result satisfies a predicate, whatever the answers.
abbrev pub Returns : {A : Type 0} → (A → Type 0) → List Event → Program A → Type 0
Returns P t m = Allowed (λ u q. Unit {0}) (λ q x. Unit {0}) P t m

abbrev pub IfOk : {A : Type 0} → (A → Type 0) → Result Failure A → Type 0
IfOk P (ok a) = P a
IfOk P (err f) = Unit {0}

-- The final call without tools is one more than the limit, and only it.
abbrev pub IsWithin : ℕ → AgentTelemetry → Type 0
IsWithin n t =
    ((t.finish_reason ≡ max_iterations) × (t.total_llm_calls ≡ suc n))
    ⊎ (((t.finish_reason ≡ complete) ⊎ (t.finish_reason ≡ token_budget)) × (t.total_llm_calls ≤ n))

-- With so many iterations left.
abbrev pub IsOnCourse : ℕ → ℕ → AgentTelemetry → Type 0
IsOnCourse n left t = (t.finish_reason ≡ complete) × (t.total_llm_calls + left ≡ n)

pub Returns-bind :
    {A B : Type 0} (P : A → Type 0) (S : B → Type 0) (t : List Event) (m : Program A)
    (f : A → Program B)
    → Returns P t m
    → ((u : List Event) (a : A) → P a → Returns S u (f a))
    → Returns S t (m >>= f)
Returns-bind P S t m f h k =
    Allowed-bind (λ u q. Unit {0}) (λ q x. Unit {0}) P S t m f h (λ u e a p. k u a p)

pub Returns-if :
    {A : Type 0} (S : A → Type 0) (t : List Event) (b : Bool) (m n : Program A)
    → (b ≡ true → Returns S t m)
    → (b ≡ false → Returns S t n)
    → Returns S t (if b then m else n)
Returns-if S t true m n h k = h refl
Returns-if S t false m n h k = k refl

pub Returns-any : {A : Type 0} (m : Program A) (t : List Event) → Returns (λ a. Unit {0}) t m
Returns-any (ret a) t = tt
Returns-any (call q k) t = (tt, λ x r. Returns-any (k x) ((q, x) ∷ t))

pub Returns-and_then :
    {A B : Type 0} (P : A → Type 0) (S : B → Type 0) (t : List Event) (r : Result Failure A)
    (f : A → Program (Result Failure B))
    → IfOk P r
    → ((a : A) → P a → Returns (IfOk S) t (f a))
    → Returns (IfOk S) t (and_then r f)
Returns-and_then P S t (ok a) f h k = k a h
Returns-and_then P S t (err e) f h k = tt

pub IfOk-any : {A : Type 0} (r : Result Failure A) → IfOk (λ a. Unit {0}) r
IfOk-any (ok a) = tt
IfOk-any (err f) = tt
