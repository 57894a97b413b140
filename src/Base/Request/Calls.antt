-- ===== src/Base/Request/Calls.antt =====
-- What becomes of the tool calls in a model's answer: llmResponseToResult of
-- internal/runtime/base/runtime.go.
use temporal_go_agent_sdk.Prelude.{
  Bool, true, false, List, [], ◌∷◌, ◌++◌, Option, none, some, Text, codes, text_eq, text_eq_iff,
  Bool-cases, ◌≡◌, ◌⊎◌, inl, inr, refl, Result, ok, err, if◌then◌else◌, All,
}
use temporal_go_agent_sdk.Interfaces.{ToolCall, ToolKind, native, LlmResponse}
use temporal_go_agent_sdk.Tools.Failure.{Failure, plain}
use temporal_go_agent_sdk.Local.Types.{ToolCallRequest, LlmResult}
use temporal_go_agent_sdk.Base.Request.{
  Tool, RequestConfig, kind_or_native, approval_by, kind_of, requires_approval, find_tool_by_name,
  resolved, resolve_calls, llm_response_to_result,
}

-- The first tool of that name.
abbrev pub IsFirstNamed : Text → Tool → List Tool → Type 0
IsFirstNamed n t [] = ⊥
IsFirstNamed n t (u ∷ us) = ((u.name ≡ n) × (u ≡ t)) ⊎ (((u.name ≡ n) → ⊥) × IsFirstNamed n t us)

abbrev pub IsUnknown : Text → List Tool → Type 0
IsUnknown n tools = All (λ (t : Tool). t.name ≡ n → ⊥) tools

-- The kind that the tool declares, and a native tool where it declares none.
abbrev pub IsOfKind : ToolKind → Option ToolKind → Type 0
IsOfKind k none = k ≡ native
IsOfKind k (some declared) = k ≡ declared

-- A policy decides alone; without one the tool does.
abbrev pub NeedsApproval : Bool → Tool → Option (Tool → Bool) → Type 0
NeedsApproval b t none = b ≡ t.approval_required
NeedsApproval b t (some policy) = b ≡ policy t

-- A request asks for what the model called, with the kind and the need of approval of the tool.
abbrev pub Describes : RequestConfig → ToolCall → Tool → ToolCallRequest → Type 0
Describes rt tc t r =
    (r.tool_call_id ≡ tc.tool_call_id)
    × (r.tool_name ≡ tc.tool_name)
    × (r.args ≡ tc.args)
    × IsOfKind r.tool_kind t.declared_kind
    × NeedsApproval r.needs_approval t rt.tool_approval_policy

-- One request for each call that is not nil, in order.
abbrev pub Matches :
    RequestConfig → List Tool → List (Option ToolCall) → List ToolCallRequest → Type 0
Matches rt tools [] [] = Unit {0}
Matches rt tools [] (r ∷ rs) = ⊥
Matches rt tools (none ∷ calls) rs = Matches rt tools calls rs
Matches rt tools (some tc ∷ calls) [] = ⊥
Matches rt tools (some tc ∷ calls) (r ∷ rs) =
    ((t : Tool) × (IsFirstNamed tc.tool_name t tools × Describes rt tc t r))
    × Matches rt tools calls rs

-- Some call names no tool, and the error says which.
abbrev pub Misses : List Tool → List (Option ToolCall) → Failure → Type 0
Misses tools [] f = ⊥
Misses tools (none ∷ calls) f = Misses tools calls f
Misses tools (some tc ∷ calls) f =
    (IsUnknown tc.tool_name tools × (f ≡ plain (codes "unknown tool: " ++ tc.tool_name)))
    ⊎ Misses tools calls f

abbrev pub Outcome :
    RequestConfig
    → List Tool
    → List (Option ToolCall)
    → Result Failure (List ToolCallRequest)
    → Type 0
Outcome rt tools calls (ok rs) = Matches rt tools calls rs
Outcome rt tools calls (err f) = Misses tools calls f

abbrev pub Found : Text → List Tool → Option Tool → Type 0
Found n tools none = IsUnknown n tools
Found n tools (some t) = IsFirstNamed n t tools

Found-step :
    (n : Text) (t : Tool) (tools : List Tool) (o : Option Tool)
    → (t.name ≡ n → ⊥)
    → Found n tools o
    → Found n (t ∷ tools) o
Found-step n t tools none d h = (d, h)
Found-step n t tools (some u) d h = inr (d, h)

Found-if :
    (n : Text) (t : Tool) (tools : List Tool) (b : Bool)
    → text_eq t.name n ≡ b
    → Found n tools (find_tool_by_name tools n)
    → Found n (t ∷ tools) (if b then some t else find_tool_by_name tools n)
Found-if n t tools true p h = inl ((text_eq_iff t.name n).0 p, refl)
Found-if n t tools false p h =
    Found-step n t tools (find_tool_by_name tools n)
      (λ q. elim (Bool-cases (text_eq t.name n)) [
        | inl r ↦ cc
        | inr r ↦ let e = (text_eq_iff t.name n).1 q in cc
      ])
      h

pub find_tool_by_name-Found :
    (tools : List Tool) (n : Text) → Found n tools (find_tool_by_name tools n)
unfolding find_tool_by_name
find_tool_by_name-Found [] n = tt
find_tool_by_name-Found (t ∷ tools) n =
    Found-if n t tools (text_eq t.name n) refl (find_tool_by_name-Found tools n)

kind_of-IsOfKind : (t : Tool) → IsOfKind (kind_of t) t.declared_kind
unfolding kind_of
kind_of-IsOfKind t = from t.declared_kind
  where
    from : (o : Option ToolKind) → IsOfKind (kind_or_native o) o
    from none = refl
    from (some k) = refl

requires_approval-NeedsApproval :
    (rt : RequestConfig) (t : Tool)
    → NeedsApproval (requires_approval rt t) t rt.tool_approval_policy
unfolding requires_approval
requires_approval-NeedsApproval rt t = from rt.tool_approval_policy
  where
    from : (o : Option (Tool → Bool)) → NeedsApproval (approval_by t o) t o
    from none = refl
    from (some policy) = refl

Outcome-resolved :
    (rt : RequestConfig) (tools : List Tool) (tc : ToolCall) (calls : List (Option ToolCall))
    (o : Option Tool) (rest : Result Failure (List ToolCallRequest))
    → Found tc.tool_name tools o
    → Outcome rt tools calls rest
    → Outcome rt tools (some tc ∷ calls) (resolved rt tc o rest)
Outcome-resolved rt tools tc calls none rest h k = inl (h, refl)
Outcome-resolved rt tools tc calls (some t) (ok rs) h k =
    ((t, (h, (refl, refl, refl, kind_of-IsOfKind t, requires_approval-NeedsApproval rt t))), k)
Outcome-resolved rt tools tc calls (some t) (err f) h k = inr k

resolve_calls-Outcome :
    (rt : RequestConfig) (tools : List Tool) (calls : List (Option ToolCall))
    → Outcome rt tools calls (resolve_calls rt tools calls)
unfolding resolve_calls
resolve_calls-Outcome rt tools [] = tt
resolve_calls-Outcome rt tools (none ∷ calls) = resolve_calls-Outcome rt tools calls
resolve_calls-Outcome rt tools (some tc ∷ calls) =
    Outcome-resolved rt tools tc calls (find_tool_by_name tools tc.tool_name)
      (resolve_calls rt tools calls) (find_tool_by_name-Found tools tc.tool_name)
      (resolve_calls-Outcome rt tools calls)

abbrev pub ResultOf : RequestConfig → List Tool → LlmResponse → Result Failure LlmResult → Type 0
ResultOf rt tools resp (ok r) =
    (r.content ≡ resp.content)
    × (r.usage ≡ resp.usage)
    × Matches rt tools resp.tool_calls r.tool_calls
ResultOf rt tools resp (err f) = Misses tools resp.tool_calls f

-- An answer of the model becomes a result with its text and usage, and with one request for each of
-- its tool calls that is not nil, in order: the request has the call's id, name and arguments, and
-- the kind of the first tool of that name and its need of approval, by the policy or, without one,
-- by the tool. It is an error instead exactly where a call names no tool, and the error names the
-- call.
pub llm_response_to_result-ResultOf :
    (rt : RequestConfig) (tools : List Tool) (resp : LlmResponse)
    → ResultOf rt tools resp (llm_response_to_result rt resp tools)
unfolding llm_response_to_result
llm_response_to_result-ResultOf rt tools resp =
    from (resolve_calls rt tools resp.tool_calls) (resolve_calls-Outcome rt tools resp.tool_calls)
  where
    from :
        (r : Result Failure (List ToolCallRequest))
        → Outcome rt tools resp.tool_calls r
        → ResultOf rt tools resp (elim r [
          | ok calls ↦
              ok (record { content = resp.content; tool_calls = calls; usage = resp.usage })
          | err f ↦ err f
        ])
    from (ok calls) h = (refl, refl, h)
    from (err f) h = h
