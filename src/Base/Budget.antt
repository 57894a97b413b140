-- ===== src/Base/Budget.antt =====
-- The token budget of internal/runtime/base/token_budget.go, and the usage sums of utils.go.
-- Token counts are int64, and sums wrap around.
pub mod Limit
mod Tests
use temporal_go_agent_sdk.Prelude.{
  Bool, true, false, ◌&&◌, ◌||◌, Option, none, some, ℤ, pos, add_int64, wrap_int64, ◌-ℤ◌, ltb_ℤ,
  leb_ℤ, if◌then◌else◌,
}
use temporal_go_agent_sdk.Interfaces.{LlmUsage}

pub record TokenUsage : Type 0 where
  pub prompt_tokens : ℤ
  pub completion_tokens : ℤ
  pub total_tokens : ℤ

pub record TokenBudget : Type 0 where
  pub max_tokens : ℤ
  pub usage : TokenUsage
  pub exceeded : Bool

abbrev pub no_usage : TokenUsage
no_usage = record { prompt_tokens = pos 0; completion_tokens = pos 0; total_tokens = pos 0 }

unfoldable pub new_token_budget : ℤ → TokenBudget
new_token_budget max_tokens = record { max_tokens = max_tokens; usage = no_usage; exceeded = false }

abbrev pub sum_usage : TokenUsage → TokenUsage → TokenUsage
sum_usage a b = record {
  prompt_tokens = add_int64 a.prompt_tokens b.prompt_tokens;
  completion_tokens = add_int64 a.completion_tokens b.completion_tokens;
  total_tokens = add_int64 a.total_tokens b.total_tokens;
}

abbrev pub charge : TokenUsage → TokenBudget → TokenBudget
charge total b = record b {
  usage = total;
  exceeded =
      if ltb_ℤ (pos 0) b.max_tokens && ltb_ℤ b.max_tokens total.total_tokens
      then true
      else b.exceeded;
}

unfoldable pub add_usage : Option TokenUsage → TokenBudget → TokenBudget
add_usage none b = b
add_usage (some u) b = charge (sum_usage b.usage u) b

unfoldable pub is_exceeded : TokenBudget → Bool
is_exceeded b = b.exceeded

unfoldable pub current_usage : TokenBudget → TokenUsage
current_usage b = b.usage

unfoldable pub remaining : TokenBudget → ℤ
remaining b =
    if leb_ℤ b.max_tokens (pos 0)
    then pos 0
    else let left = wrap_int64 (b.max_tokens -ℤ b.usage.total_tokens) in
      if ltb_ℤ left (pos 0) then pos 0 else left

unfoldable pub convert_from_llm_usage : Option LlmUsage → TokenUsage
convert_from_llm_usage none = no_usage
convert_from_llm_usage (some u) = record {
  prompt_tokens = u.prompt_tokens;
  completion_tokens = u.completion_tokens;
  total_tokens = u.total_tokens;
}

unfoldable pub merge_llm_usage : Option LlmUsage → Option LlmUsage → Option LlmUsage
merge_llm_usage acc none = acc
merge_llm_usage none (some add) = some add
merge_llm_usage (some acc) (some add) = some (record {
  prompt_tokens = add_int64 acc.prompt_tokens add.prompt_tokens;
  completion_tokens = add_int64 acc.completion_tokens add.completion_tokens;
  total_tokens = add_int64 acc.total_tokens add.total_tokens;
  cached_prompt_tokens = add_int64 acc.cached_prompt_tokens add.cached_prompt_tokens;
  reasoning_tokens = add_int64 acc.reasoning_tokens add.reasoning_tokens;
})
