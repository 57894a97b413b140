-- ===== src/Base/Request/Tests.antt =====
-- Two tools of one name and a policy that asks about one of them.
use temporal_go_agent_sdk.Prelude.{true, [], ◌∷◌, none, some, Text, codes, text_eq, ◌≡◌, refl, err}
use temporal_go_agent_sdk.Interfaces.{LlmResponse, mcp}
use temporal_go_agent_sdk.Tools.Failure.{plain}
use temporal_go_agent_sdk.Base.Request.{Tool, RequestConfig, llm_response_to_result}
use temporal_go_agent_sdk.Base.Request.Calls.{ResultOf, llm_response_to_result-ResultOf}

abbrev echo : Tool
echo = record {
  name = codes "echo";
  display_name = [];
  description = codes "says it again";
  parameters = [];
  declared_kind = none;
  approval_required = true;
}

abbrev remote_echo : Tool
remote_echo = record echo { declared_kind = some mcp }

abbrev config : RequestConfig
config = record {
  system_prompt = codes "Be brief.";
  response_format = none;
  sampling = none;
  tool_approval_policy = none;
}

abbrev asks : Text → LlmResponse
asks name = record {
  content = codes "hm";
  usage = none;
  tool_calls = none ∷ some (record { tool_call_id = codes "c1"; tool_name = name; args = [] }) ∷ [];
}

llm_response_to_result-ResultOf_example :
    ResultOf config
      (echo ∷ remote_echo ∷ [])
      (asks (codes "echo"))
      (llm_response_to_result config (asks (codes "echo")) (echo ∷ remote_echo ∷ []))
llm_response_to_result-ResultOf_example =
    llm_response_to_result-ResultOf config (echo ∷ remote_echo ∷ []) (asks (codes "echo"))

unknown_call :
    llm_response_to_result config (asks (codes "shout")) (echo ∷ [])
    ≡ err (plain (codes "unknown tool: shout"))
unfolding llm_response_to_result text_eq
unknown_call = refl
