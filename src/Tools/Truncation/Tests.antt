-- ===== src/Tools/Truncation/Tests.antt =====
-- Truncation of concrete outputs.
use temporal_go_agent_sdk.Prelude.{◌≤◌, ◌≡◌, ◌++◌, refl, some, Text, codes, pos, arith, length, ◌⊎◌}
use temporal_go_agent_sdk.Tools.Truncation.{
  truncate_tool_output, truncate_tool_output_with_warning, estimate_tokens,
}
use temporal_go_agent_sdk.Tools.Truncation.Bounds.{
  IsCut, truncate_tool_output-IsCut, estimate_tokens-truncate_tool_output,
  warning_without_truncation,
}

abbrev ten : Text
ten = codes "abcd efgh "

abbrev long : Text
long = ten ++ (ten ++ (ten ++ (ten ++ (ten ++ (ten ++ (ten ++ (ten ++ (ten ++ (ten ++ ten)))))))))

cut_at_a_space : length (truncate_tool_output long (pos 25)) ≡ 102
unfolding truncate_tool_output
cut_at_a_space = refl

truncate_tool_output-IsCut_example :
    (truncate_tool_output long (pos 25) ≡ long) ⊎ IsCut long 25 (truncate_tool_output long (pos 25))
truncate_tool_output-IsCut_example = truncate_tool_output-IsCut long 25

estimate_tokens-truncate_tool_output_example :
    estimate_tokens (truncate_tool_output long (pos 25)) ≤ 25
estimate_tokens-truncate_tool_output_example =
    estimate_tokens-truncate_tool_output long 25 (omega arith)

warning_without_truncation_example :
    truncate_tool_output_with_warning ten (pos 1)
    ≡ (ten, some (record { from_tokens = 2; to_tokens = 2 }))
unfolding estimate_tokens
warning_without_truncation_example =
    warning_without_truncation ten 1 (omega arith) (omega arith) (omega arith)
