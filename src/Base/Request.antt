-- ===== src/Base/Request.antt =====
-- The request to the model, and what its answer says about tools: internal/runtime/base/runtime.go
-- and utils.go, `KindOf` of internal/types/tool.go and `ToolToSpec` of pkg/interfaces/tool.go.
pub mod Calls
mod Tests
use temporal_go_agent_sdk.Prelude.{
  Bool, true, false, List, [], ◌∷◌, ◌++◌, map, Option, none, some, Text, codes, text_eq, pos, ltb_ℤ,
  Result, ok, err, if◌then◌else◌,
}
use temporal_go_agent_sdk.Interfaces.{Args, Message, ToolCall, ToolKind, native, LlmResponse}
use temporal_go_agent_sdk.Interfaces.Requests.{ResponseFormat, LlmSampling, ToolSpec, LlmRequest}
use temporal_go_agent_sdk.Tools.Failure.{Failure, plain}
use temporal_go_agent_sdk.Local.Types.{ToolCallRequest, LlmResult}

-- What the runtime reads of a tool. `declared_kind` is `none` where the tool is no
-- `ToolKindProvider` or answers with the empty kind, and `approval_required` is false where it is no
-- `ToolApproval`.
pub record Tool : Type 0 where
  pub name : Text
  pub display_name : Text
  pub description : Text
  pub parameters : Args
  pub declared_kind : Option ToolKind
  pub approval_required : Bool

-- What the requests read of `AgentSpec` and `AgentConfig`.
pub record RequestConfig : Type 0 where
  pub system_prompt : Text
  pub response_format : Option ResponseFormat
  pub sampling : Option LlmSampling
  pub tool_approval_policy : Option (Tool → Bool)

abbrev pub kind_or_native : Option ToolKind → ToolKind
kind_or_native none = native
kind_or_native (some k) = k

unfoldable pub kind_of : Tool → ToolKind
kind_of t = kind_or_native t.declared_kind

unfoldable pub tool_to_spec : Tool → ToolSpec
tool_to_spec t = record { name = t.name; description = t.description; parameters = t.parameters }

unfoldable pub tools_to_specs : List Tool → List ToolSpec
unfolding tool_to_spec
tools_to_specs tools = map tool_to_spec tools

unfoldable pub find_tool_by_name : List Tool → Text → Option Tool
find_tool_by_name [] tool_name = none
find_tool_by_name (t ∷ tools) tool_name =
    if text_eq t.name tool_name then some t else find_tool_by_name tools tool_name

abbrev or_else : {A : Type 0} → Option A → Option A → Option A
or_else (some a) b = some a
or_else none b = b

unfoldable pub apply_llm_sampling : Option LlmSampling → LlmRequest → LlmRequest
apply_llm_sampling none req = req
apply_llm_sampling (some s) req = record req {
  temperature = or_else s.temperature req.temperature;
  max_tokens = if ltb_ℤ (pos 0) s.max_tokens then s.max_tokens else req.max_tokens;
  top_p = or_else s.top_p req.top_p;
  top_k = or_else s.top_k req.top_k;
  reasoning = or_else s.reasoning req.reasoning;
}

-- A context that is not empty goes behind the prompt, under its heading.
abbrev pub with_context : Text → Text → Text → Text
with_context heading [] prompt = prompt
with_context heading (c ∷ context) prompt = prompt ++ (heading ++ (c ∷ context))

abbrev pub memories_heading : Text
memories_heading = b'\n' ∷ b'\n' ∷ (codes "Relevant Memories:" ++ b'\n' ∷ [])

abbrev pub context_heading : Text
context_heading = b'\n' ∷ b'\n' ∷ (codes "Relevant Context:" ++ b'\n' ∷ [])

unfoldable pub build_llm_request :
    RequestConfig → List Message → Bool → Text → Text → List Tool → LlmRequest
unfolding apply_llm_sampling tools_to_specs
build_llm_request rt messages skip_tools memory_context retriever_context tools =
    record (apply_llm_sampling rt.sampling (record {
      system_message =
          with_context context_heading retriever_context
            (with_context memories_heading memory_context rt.system_prompt);
      response_format = rt.response_format;
      tools = [];
      messages = messages;
      temperature = none;
      max_tokens = pos 0;
      top_p = none;
      top_k = none;
      reasoning = none;
    })) { tools = if skip_tools then [] else tools_to_specs tools }

abbrev pub approval_by : Tool → Option (Tool → Bool) → Bool
approval_by t none = t.approval_required
approval_by t (some policy) = policy t

unfoldable pub requires_approval : RequestConfig → Tool → Bool
requires_approval rt t = approval_by t rt.tool_approval_policy

abbrev pub or_name : Text → Text → Text
or_name [] name = name
or_name (c ∷ s) name = c ∷ s

abbrev pub call_request : RequestConfig → ToolCall → Tool → ToolCallRequest
call_request rt tc tool = record {
  tool_call_id = tc.tool_call_id;
  tool_name = tc.tool_name;
  tool_display_name = or_name tool.display_name tc.tool_name;
  tool_kind = kind_of tool;
  args = tc.args;
  needs_approval = requires_approval rt tool;
}

abbrev in_front :
    ToolCallRequest → Result Failure (List ToolCallRequest) → Result Failure (List ToolCallRequest)
in_front c (ok cs) = ok (c ∷ cs)
in_front c (err f) = err f

abbrev resolved :
    RequestConfig
    → ToolCall
    → Option Tool
    → Result Failure (List ToolCallRequest)
    → Result Failure (List ToolCallRequest)
resolved rt tc none rest = err (plain (codes "unknown tool: " ++ tc.tool_name))
resolved rt tc (some tool) rest = in_front (call_request rt tc tool) rest

-- The loop over the calls, of which nil ones are skipped.
unfoldable pub resolve_calls :
    RequestConfig → List Tool → List (Option ToolCall) → Result Failure (List ToolCallRequest)
unfolding find_tool_by_name
resolve_calls rt tools [] = ok []
resolve_calls rt tools (none ∷ calls) = resolve_calls rt tools calls
resolve_calls rt tools (some tc ∷ calls) =
    resolved rt tc (find_tool_by_name tools tc.tool_name) (resolve_calls rt tools calls)

unfoldable pub llm_response_to_result :
    RequestConfig → LlmResponse → List Tool → Result Failure LlmResult
unfolding resolve_calls
llm_response_to_result rt resp tools = elim (resolve_calls rt tools resp.tool_calls) [
  | ok calls ↦ ok (record { content = resp.content; tool_calls = calls; usage = resp.usage })
  | err f ↦ err f
]
