-- ===== src/Tools/Truncation.antt =====
-- Truncation of tool output: internal/runtime/base/tool_truncation.go. The limit is an int.
pub mod Bounds
mod Tests
use temporal_go_agent_sdk.Prelude.{
  ℕ, ◌*◌, ◌/◌, ◌+◌, Bool, true, false, List, [], ◌∷◌, ◌++◌, Option, none, some, Text, codes, ltb,
  leb, if◌then◌else◌, length, take, ℤ, pos, negsuc,
}
use temporal_go_agent_sdk.Strings.{last_index}

abbrev pub chars_per_token : ℕ
chars_per_token = 4

abbrev pub min_truncation_length : ℕ
min_truncation_length = 100

abbrev pub truncation_marker : Text
truncation_marker = codes "..."

unfoldable pub estimate_tokens : Text → ℕ
estimate_tokens s = length s / chars_per_token

abbrev pub max_chars : ℕ → ℕ
max_chars max_tokens =
    if ltb (max_tokens * chars_per_token) min_truncation_length
    then min_truncation_length
    else max_tokens * chars_per_token

-- The word boundary, if one lies in the second half.
abbrev pub cut_at : Option ℕ → ℕ → ℕ
cut_at none chars = chars
cut_at (some last_space) chars = if ltb (chars / 2) last_space then last_space else chars

abbrev pub cut : Text → ℕ → Text
cut content chars = let kept = take chars content in take (cut_at (last_index 32 kept) chars) kept

unfoldable pub truncate_tool_output : Text → ℤ → Text
unfolding estimate_tokens last_index
truncate_tool_output content (negsuc n) = content
truncate_tool_output content (pos max_tokens) =
    if leb max_tokens 0
    then content
    else if leb (estimate_tokens content) max_tokens
    then content
    else if leb (length content) (max_chars max_tokens)
    then content
    else cut content (max_chars max_tokens) ++ truncation_marker

-- The numbers in a warning's text; `none` is the empty warning.
pub record Warning : Type 0 where
  pub from_tokens : ℕ
  pub to_tokens : ℕ

abbrev warned : Text → Text → Text × Option Warning
warned content truncated = (
  truncated,
  some (record { from_tokens = estimate_tokens content; to_tokens = estimate_tokens truncated }),
)

unfoldable pub truncate_tool_output_with_warning : Text → ℤ → Text × Option Warning
unfolding truncate_tool_output
truncate_tool_output_with_warning content (negsuc n) = (content, none)
truncate_tool_output_with_warning content (pos max_tokens) =
    if leb max_tokens 0
    then (content, none)
    else if leb (estimate_tokens content) max_tokens
    then (content, none)
    else warned content (truncate_tool_output content (pos max_tokens))
