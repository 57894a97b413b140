-- ===== src/Base/Execution/Permission.antt =====
-- When a tool is allowed: AuthorizeTool of internal/runtime/base/runtime.go.
use temporal_go_agent_sdk.Prelude.{
  Bool, true, false, List, [], Option, none, some, Text, ◌≡◌, ◌⊎◌, inl, inr, refl, Result, ok, err,
}
use temporal_go_agent_sdk.Interfaces.{Args}
use temporal_go_agent_sdk.Tools.Failure.{Failure}
use temporal_go_agent_sdk.Strings.{trim_space}
use temporal_go_agent_sdk.Local.Types.{AuthorizeResult}
use temporal_go_agent_sdk.Base.Request.{Tool, find_tool_by_name}
use temporal_go_agent_sdk.Base.Request.Calls.{
  IsFirstNamed, IsUnknown, Found, find_tool_by_name-Found,
}
use temporal_go_agent_sdk.Base.Execution.{ToolAuthorizationDecision, ToolRuntime, unknown_tool}
use temporal_go_agent_sdk.Base.Execution.Authorize.{
  authorize_result, decided, asked, authorize_found, authorize_tool,
}

module _ {W : Type 0} (rt : ToolRuntime W) (tools : List Tool) (tool_name : Text) (args : Args)
    (w : W) where
  -- The tool's authorizer was asked about the arguments, and so it answered.
  abbrev pub Said : Tool → Result Failure ToolAuthorizationDecision × W → Type 0
  Said tool answer =
      (authorize : Args → W → Result Failure ToolAuthorizationDecision × W) × ((rt.authorizer tool
          ≡ some authorize)
        × (authorize args w ≡ answer))

  -- A tool is allowed because it has no authorizer, or by its authorizer; it is denied by its
  -- authorizer alone, whose reason is given.
  abbrev pub Grounds : Tool → Bool → Text → W → Type 0
  Grounds tool true reason v =
      (reason ≡ [])
      × (((rt.authorizer tool ≡ none) × (v ≡ w))
          ⊎ ((words : Text) × Said tool (ok (record { allow = true; reason = words }), v)))
  Grounds tool false reason v =
      (words : Text) × ((reason ≡ trim_space words)
        × Said tool (ok (record { allow = false; reason = words }), v))

  abbrev pub Warranted : Result Failure AuthorizeResult × W → Type 0
  Warranted (ok r, v) =
      (tool : Tool) × (IsFirstNamed tool_name tool tools × Grounds tool r.allowed r.reason v)
  Warranted (err f, v) =
      (IsUnknown tool_name tools × (f ≡ unknown_tool tool_name) × (v ≡ w))
      ⊎ ((tool : Tool) × (IsFirstNamed tool_name tool tools × Said tool (err f, v)))

  Warranted-decision :
      (tool : Tool) (authorize : Args → W → Result Failure ToolAuthorizationDecision × W)
      (allow : Bool) (words : Text) (v : W)
      → IsFirstNamed tool_name tool tools
      → rt.authorizer tool ≡ some authorize
      → authorize args w ≡ (ok (record { allow = allow; reason = words }), v)
      → Warranted (ok (authorize_result (record { allow = allow; reason = words })), v)
  unfolding authorize_result
  Warranted-decision tool authorize true words v first a p =
      (tool, (first, (refl, inr (words, (authorize, (a, p))))))
  Warranted-decision tool authorize false words v first a p =
      (tool, (first, (words, (refl, (authorize, (a, p))))))

  Warranted-decided :
      (tool : Tool) (authorize : Args → W → Result Failure ToolAuthorizationDecision × W)
      (answer : Result Failure ToolAuthorizationDecision × W)
      → IsFirstNamed tool_name tool tools
      → rt.authorizer tool ≡ some authorize
      → authorize args w ≡ answer
      → Warranted (decided answer)
  Warranted-decided tool authorize (ok d, v) first a p =
      Warranted-decision tool authorize d.allow d.reason v first a p
  Warranted-decided tool authorize (err f, v) first a p = inr (tool, (first, (authorize, (a, p))))

  Warranted-asked :
      (tool : Tool) (o : Option (Args → W → Result Failure ToolAuthorizationDecision × W))
      → IsFirstNamed tool_name tool tools
      → rt.authorizer tool ≡ o
      → Warranted (asked o args w)
  Warranted-asked tool none first a = (tool, (first, (refl, inl (a, refl))))
  Warranted-asked tool (some authorize) first a =
      Warranted-decided tool authorize (authorize args w) first a refl

  Warranted-authorize_found :
      (o : Option Tool)
      → Found tool_name tools o
      → Warranted (authorize_found rt tool_name o args w)
  Warranted-authorize_found none h = inl (h, refl, refl)
  Warranted-authorize_found (some tool) h = Warranted-asked tool (rt.authorizer tool) h refl

-- Whatever AuthorizeTool answers has its grounds: a tool is allowed only if it is the first of that
-- name and has no authorizer, or its authorizer, asked about these arguments, allows it; it is
-- denied only by its authorizer, with the authorizer's reason; and an error is the authorizer's, or
-- says that no tool has the name. The world changes by the authorizer alone.
pub authorize_tool-Warranted :
    {W : Type 0} (rt : ToolRuntime W) (tools : List Tool) (tool_name : Text) (args : Args) (w : W)
    → Warranted rt tools tool_name args w (authorize_tool rt tools tool_name args w)
unfolding authorize_tool
authorize_tool-Warranted rt tools tool_name args w =
    Warranted-authorize_found rt tools tool_name args w (find_tool_by_name tools tool_name)
      (find_tool_by_name-Found tools tool_name)
