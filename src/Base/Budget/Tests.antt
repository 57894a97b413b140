-- ===== src/Base/Budget/Tests.antt =====
-- A budget of 100 tokens.
use temporal_go_agent_sdk.Prelude.{ℕ, ◌-◌, ◌≡◌, ◌&&◌, List, [], ◌∷◌, pos, ltb, arith}
use temporal_go_agent_sdk.Base.Budget.{new_token_budget, is_exceeded, remaining}
use temporal_go_agent_sdk.Base.Budget.Limit.{add_all, add_all_budget, total}

abbrev reports : List (ℕ × ℕ × ℕ)
reports = (40, 10, 50) ∷ (50, 10, 60) ∷ []

add_all_budget_example :
    (is_exceeded (add_all reports (new_token_budget (pos 100)))
      ≡ ltb 0 100 && ltb 100 (total reports))
    × (remaining (add_all reports (new_token_budget (pos 100))) ≡ pos (100 - total reports))
add_all_budget_example = add_all_budget reports 100 (omega arith) (omega arith)
