-- ===== src/Temporal/Safety.antt =====
-- What the workflow of internal/runtime/temporal/agent_workflow.go promises about the activities and
-- child workflows that it starts: the messages that it sends, and the permission of what it runs.
pub mod ToolCall
pub mod Batch
pub mod Loop
pub mod Chain
pub mod Depth
mod Tests
use temporal_go_agent_sdk.Prelude.{
  Bool, true, false, List, [], ◌∷◌, Text, pos, leb_ℤ, ◌≡◌, ◌⊎◌, inl, inr, Option, none, some,
  Result, ok, err,
}
use temporal_go_agent_sdk.Interfaces.{Message, approved}
use temporal_go_agent_sdk.Effects.Logic
use temporal_go_agent_sdk.Effects.Logic.{Known, Extends, Allowed, IsMonotone}
use temporal_go_agent_sdk.Local.Types.{
  ToolCallRequest, LlmResult, ExecuteLlmInput, ExecuteToolInput, AuthorizeResult,
}
use temporal_go_agent_sdk.Local.Delegation.{sub_agent_query}
use temporal_go_agent_sdk.Local.Safety.{IsDialog, Member, IsFor}
use temporal_go_agent_sdk.Temporal.Types.{
  AgentWorkflowInput, Activity, Reply, generate, authorize, approve, execute, run_child,
  add_messages, store_memory, Workflow,
}

abbrev pub Event : Type 0
Event = Logic.Event Activity Reply

-- The call stood in an answer of the model, as the variable `llmResult` holds it: its arguments may be
-- those of the model with more from earlier answers (see the comment at `Activity`).
abbrev pub Requested : List Event → ToolCallRequest → Type 0
Requested t tc =
    (c : Text) × ((i : ExecuteLlmInput) × ((r : LlmResult) × (Known (generate c i, ok r) t
          × Member tc r.tool_calls)))

abbrev pub Authorized : List Event → ToolCallRequest → Type 0
Authorized t tc =
    (r : AuthorizeResult) × (Known (authorize tc.tool_name tc.args, ok r) t × (r.allowed ≡ true))

-- An approval activity for the call answered so, or the call needs none.
abbrev pub Approved : List Event → ToolCallRequest → Type 0
Approved t tc = (tc.needs_approval ≡ false) ⊎ ((n : Text) × Known (approve tc n, ok approved) t)

abbrev pub IsCleared : List Event → ToolCallRequest → Type 0
IsCleared t tc = Requested t tc × (Authorized t tc × Approved t tc)

-- A child runs for a cleared call, below the depth limit, from the start, and without a limit of its
-- own.
abbrev pub IsPermittedChild : AgentWorkflowInput → List Event → AgentWorkflowInput → Type 0
IsPermittedChild input t child =
    ((tc : ToolCallRequest) × (IsCleared t tc × (child.user_prompt ≡ sub_agent_query tc.args)))
    × ((leb_ℤ input.max_sub_agent_depth input.sub_agent_depth ≡ false)
        × ((child.state ≡ none) × (child.max_sub_agent_depth ≡ pos 0)))

abbrev pub IsPermitted : List Event → ExecuteToolInput → Type 0
IsPermitted t i = (tc : ToolCallRequest) × (IsFor tc i × IsCleared t tc)

abbrev pub Permit : AgentWorkflowInput → List Event → Activity → Type 0
Permit input t (generate c i) = IsDialog [] i.messages
Permit input t (execute i) = IsPermitted t i
Permit input t (run_child q i) = IsPermittedChild input t i
Permit input t (add_messages c ms) = IsDialog [] ms
Permit input t (store_memory s ms) = IsDialog [] ms
Permit input t _ = Unit {0}

-- Nothing is asked of the answers.
abbrev pub Open : (q : Activity) → Reply q → Type 0
Open q x = Unit {0}

abbrev pub Sound :
    {A : Type 0} → AgentWorkflowInput → (A → Type 0) → List Event → Workflow A → Type 0
Sound input P t m = Allowed (Permit input) Open P t m

pub Requested-extend :
    (s t : List Event) (tc : ToolCallRequest) → Extends s t → Requested s tc → Requested t tc
Requested-extend s t tc e (c, (i, (r, (k, m)))) = (c, (i, (r, (e _ k, m))))

pub Authorized-extend :
    (s t : List Event) (tc : ToolCallRequest) → Extends s t → Authorized s tc → Authorized t tc
Authorized-extend s t tc e (r, (k, a)) = (r, (e _ k, a))

Approved-extend :
    (s t : List Event) (tc : ToolCallRequest) → Extends s t → Approved s tc → Approved t tc
Approved-extend s t tc e (inl n) = inl n
Approved-extend s t tc e (inr (n, k)) = inr (n, e _ k)

pub IsCleared-extend :
    (s t : List Event) (tc : ToolCallRequest) → Extends s t → IsCleared s tc → IsCleared t tc
IsCleared-extend s t tc e (r, (a, p)) =
    (Requested-extend s t tc e r, (Authorized-extend s t tc e a, Approved-extend s t tc e p))

pub Permit-mono : (input : AgentWorkflowInput) → IsMonotone (Permit input)
Permit-mono input s t (execute i) e (tc, (f, c)) = (tc, (f, IsCleared-extend s t tc e c))
Permit-mono input s t (run_child q i) e ((tc, (c, p)), d) =
    ((tc, (IsCleared-extend s t tc e c, p)), d)
Permit-mono input s t q e h = h
