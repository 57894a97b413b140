-- ===== src/Local/Safety.antt =====
-- What the loop of internal/runtime/local/agent_loop.go promises about each call that it makes: the
-- messages of a call of the model, and the permission of a call of a tool.
pub mod Frame
pub mod SingleTool
pub mod Batch
pub mod Loop
pub mod Run
mod Tests
use temporal_go_agent_sdk.Prelude.{
  Bool, true, false, List, [], ◌∷◌, ◌++◌, Text, ◌≡◌, ◌⊎◌, inl, inr, Result, ok, err,
}
use temporal_go_agent_sdk.Interfaces.{MessageRole, role_eq, Message, ToolCall, Args, approved}
use temporal_go_agent_sdk.Local.Types.{
  Call, Answer, llm, execute, authorize, await, fetch_messages, ToolCallRequest, LlmResult,
  ExecuteLlmInput, ExecuteToolInput, AuthorizeResult,
}
use temporal_go_agent_sdk.Local.Program.{Program}
use temporal_go_agent_sdk.Local.Program.Logic.{Event, Known, Extends, Allowed, IsMonotone}

-- A tool message that answers a call.
abbrev pub Answers : ToolCall → Message → Type 0
Answers c m =
    (m.role ≡ MessageRole.tool) × (m.tool_call_id ≡ c.tool_call_id) × (m.tool_name ≡ c.tool_name)

-- A dialog in which calls wait for their answers: these come first, in the order of the calls and
-- with nothing between; a message of another role stands where none waits; and each message's calls
-- are answered right after it.
abbrev pub IsDialog : List ToolCall → List Message → Type 0
IsDialog [] [] = Unit {0}
IsDialog [] (m ∷ ms) = (role_eq m.role MessageRole.tool ≡ false) × IsDialog m.tool_calls ms
IsDialog (c ∷ cs) [] = ⊥
IsDialog (c ∷ cs) (m ∷ ms) = Answers c m × IsDialog cs ms

abbrev pub Member : ToolCallRequest → List ToolCallRequest → Type 0
Member tc [] = ⊥
Member tc (d ∷ ds) = (tc ≡ d) ⊎ Member tc ds

-- The model asked for the call in one of its answers.
abbrev pub Requested : List Event → ToolCallRequest → Type 0
Requested t tc =
    (i : ExecuteLlmInput) × ((r : LlmResult) × (Known (llm i, ok r) t × Member tc r.tool_calls))

abbrev pub Authorized : List Event → Text → ToolCallRequest → Type 0
Authorized t agent tc =
    (r : AuthorizeResult) × (Known (authorize agent tc.tool_name tc.args, ok r) t
      × (r.allowed ≡ true))

-- Approval was given under some token, or the call needs none.
abbrev pub Approved : List Event → ToolCallRequest → Type 0
Approved t tc =
    (tc.needs_approval ≡ false) ⊎ ((token : Text) × Known (await token tc, ok approved) t)

abbrev pub IsFor : ToolCallRequest → ExecuteToolInput → Type 0
IsFor tc i = (i.tool_name ≡ tc.tool_name) × (i.args ≡ tc.args) × (i.tool_call_id ≡ tc.tool_call_id)

abbrev pub IsPermitted : List Event → Text → ExecuteToolInput → Type 0
IsPermitted t agent i =
    (tc : ToolCallRequest) × (IsFor tc i
      × (Requested t tc × (Authorized t agent tc × Approved t tc)))

abbrev pub Permit : List Event → Call → Type 0
Permit t (llm i) = IsDialog [] i.messages
Permit t (execute agent i) = IsPermitted t agent i
Permit t _ = Unit {0}

-- What the loop relies on: a stored history is a dialog.
abbrev pub Rely : (q : Call) → Answer q → Type 0
Rely (fetch_messages a c) (ok ms) = IsDialog [] ms
Rely (fetch_messages a c) (err f) = Unit {0}
Rely q x = Unit {0}

abbrev pub Sound : {A : Type 0} → (A → Type 0) → List Event → Program A → Type 0
Sound P t m = Allowed Permit Rely P t m

pub Requested-extend :
    (s t : List Event) (tc : ToolCallRequest) → Extends s t → Requested s tc → Requested t tc
Requested-extend s t tc e (i, (r, (k, m))) = (i, (r, (e _ k, m)))

pub Authorized-extend :
    (s t : List Event) (agent : Text) (tc : ToolCallRequest)
    → Extends s t
    → Authorized s agent tc
    → Authorized t agent tc
Authorized-extend s t agent tc e (r, (k, a)) = (r, (e _ k, a))

pub Approved-extend :
    (s t : List Event) (tc : ToolCallRequest) → Extends s t → Approved s tc → Approved t tc
Approved-extend s t tc e (inl n) = inl n
Approved-extend s t tc e (inr (token, k)) = inr (token, e _ k)

pub Permit-mono : IsMonotone Permit
Permit-mono s t (execute agent i) e (tc, (f, (r, (a, p)))) = (
  tc,
  (
    f,
    (Requested-extend s t tc e r, (Authorized-extend s t agent tc e a, Approved-extend s t tc e p)),
  ),
)
Permit-mono s t q e h = h

-- Answers to the waiting calls, and then a dialog.
pub IsDialog-append :
    (cs : List ToolCall) (xs ys : List Message)
    → IsDialog cs xs
    → IsDialog [] ys
    → IsDialog cs (xs ++ ys)
IsDialog-append [] [] ys h k = k
IsDialog-append [] (m ∷ xs) ys h k = (h.0, IsDialog-append m.tool_calls xs ys h.1 k)
IsDialog-append (c ∷ cs) [] ys h k = elim h [ ]
IsDialog-append (c ∷ cs) (m ∷ xs) ys h k = (h.0, IsDialog-append cs xs ys h.1 k)
