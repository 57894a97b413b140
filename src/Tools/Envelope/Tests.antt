-- ===== src/Tools/Envelope/Tests.antt =====
-- Envelopes of concrete outputs.
use temporal_go_agent_sdk.Prelude.{◌+◌, ◌≡◌, refl, codes, ◌++◌}
use temporal_go_agent_sdk.Strings.{occurs}
use temporal_go_agent_sdk.Tools.Envelope.{
  ToolResultStatus, tool_result_close, tool_result_close_escaped, render_tool_result_envelope,
}
use temporal_go_agent_sdk.Tools.Envelope.Delimiter.{occurs-render_tool_result_envelope}

smuggled :
    render_tool_result_envelope (codes "a\"b") ToolResultStatus.ok tool_result_close
    ≡ codes "<tool_result name=\"a\\\"b\" status=\"ok\">\n"
      ++ (tool_result_close_escaped ++ (codes "\n" ++ tool_result_close))
unfolding render_tool_result_envelope
smuggled = refl

occurs-render_tool_result_envelope_example :
    occurs tool_result_close
      (render_tool_result_envelope (codes "echo") ToolResultStatus.ok tool_result_close)
    ≡ occurs tool_result_close (codes "echo") + 1
occurs-render_tool_result_envelope_example =
    occurs-render_tool_result_envelope (codes "echo") ToolResultStatus.ok tool_result_close
