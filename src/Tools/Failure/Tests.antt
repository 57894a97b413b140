-- ===== src/Tools/Failure/Tests.antt =====
-- Concrete errors.
use temporal_go_agent_sdk.Prelude.{◌≡◌, refl, codes, some}
use temporal_go_agent_sdk.Tools.Failure.{
  Failure, plain, wrapped, tool_panicked, error_text, model_facing_tool_error_text,
  msg_tool_unavailable,
}
use temporal_go_agent_sdk.Tools.Failure.Boundary.{model_facing-error_text}

refused_connection :
    model_facing_tool_error_text (some (plain (codes "dial TCP: refused"))) ≡ msg_tool_unavailable
unfolding model_facing_tool_error_text
refused_connection = refl

abbrev crash : Failure
crash = wrapped (codes "tool \"x\": ") tool_panicked

model_facing-error_text_example :
    model_facing_tool_error_text (some (plain (error_text crash)))
    ≡ model_facing_tool_error_text (some crash)
model_facing-error_text_example = model_facing-error_text crash tt
