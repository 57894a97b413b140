-- ===== src/Base/Budget/Limit.antt =====
-- When a budget counts as exceeded.
use temporal_go_agent_sdk.Prelude.{
  ℕ, ◌+◌, ◌-◌, ◌<◌, ◌≡◌, refl, ◌&&◌, List, [], ◌∷◌, some, pos, two_63, ltb, arith, add_int64,
}
use temporal_go_agent_sdk.Base.Budget.{
  TokenUsage, TokenBudget, new_token_budget, add_usage, is_exceeded, remaining,
}

-- A report of a provider that counts from 0 up.
abbrev pub report : ℕ × ℕ × ℕ → TokenUsage
report r = record { prompt_tokens = pos r.0; completion_tokens = pos r.1; total_tokens = pos r.2 }

abbrev pub add_all : List (ℕ × ℕ × ℕ) → TokenBudget → TokenBudget
add_all [] b = b
add_all (r ∷ rs) b = add_all rs (add_usage (some (report r)) b)

abbrev pub total : List (ℕ × ℕ × ℕ) → ℕ
total [] = 0
total (r ∷ rs) = r.2 + total rs

add_int64_pos : (a b : ℕ) → a + b < two_63 → add_int64 (pos a) (pos b) ≡ pos (a + b)
add_int64_pos a b h = ground arith

-- After reports that sum to `used`, within the range of int64.
record Charged (limit used : ℕ) (b : TokenBudget) : Type 0 where
  max_is : b.max_tokens ≡ pos limit
  total_is : b.usage.total_tokens ≡ pos used
  flag_is : b.exceeded ≡ ltb 0 limit && ltb limit used

add_usage-Charged :
    (limit used : ℕ) (r : ℕ × ℕ × ℕ) (b : TokenBudget)
    → Charged limit used b
    → used + r.2 < two_63
    → Charged limit (used + r.2) (add_usage (some (report r)) b)
unfolding add_usage
add_usage-Charged limit used r b c h =
    let sum : add_int64 b.usage.total_tokens (pos r.2) ≡ pos (used + r.2) =
      rw c.total_is (add_int64_pos used r.2 h) in
    record {
      max_is = c.max_is;
      total_is = sum;
      flag_is = rw (sum, c.max_is, c.flag_is) (ground arith);
    }

add_all-Charged :
    (rs : List (ℕ × ℕ × ℕ)) (limit used : ℕ) (b : TokenBudget)
    → Charged limit used b
    → used + total rs < two_63
    → Charged limit (used + total rs) (add_all rs b)
add_all-Charged [] limit used b c h = let e : used + 0 ≡ used = omega arith in rw e c
add_all-Charged (r ∷ rs) limit used b c h =
    let e : used + (r.2 + total rs) ≡ used + r.2 + total rs = omega arith in
    rw e (
      add_all-Charged rs limit (used + r.2) (add_usage (some (report r)) b)
        (add_usage-Charged limit used r b c (omega arith)) (omega arith))

new-Charged : (limit : ℕ) → Charged limit 0 (new_token_budget (pos limit))
unfolding new_token_budget
new-Charged limit = record { max_is = refl; total_is = refl; flag_is = ground arith }

-- While the reported counts sum to less than 2^63, a budget with a positive limit is exceeded
-- exactly when their sum is above the limit, and `Remaining` is the limit less the sum, or 0.
pub add_all_budget :
    (rs : List (ℕ × ℕ × ℕ)) (limit : ℕ)
    → limit < two_63
    → total rs < two_63
    → (is_exceeded (add_all rs (new_token_budget (pos limit)))
        ≡ ltb 0 limit && ltb limit (total rs))
      × (remaining (add_all rs (new_token_budget (pos limit))) ≡ pos (limit - total rs))
unfolding is_exceeded remaining
add_all_budget rs limit l h =
    let c = add_all-Charged rs limit 0 _ (new-Charged limit) (omega arith) in
    let e : 0 + total rs ≡ total rs = omega arith in
    (rw (c.flag_is, e), rw (c.max_is, c.total_is, e) (ground arith))
