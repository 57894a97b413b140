-- ===== src/Base/Telemetry/Sums.antt =====
-- The breakdowns of a run's tool calls add up to its counters.
use temporal_go_agent_sdk.Prelude.{
  ℕ, ◌+◌, suc, ◌≡◌, ◌≢◌, refl, Bool, List, [], ◌∷◌, Text, Dict, lookup, insert, text_eq, arith,
  Bool-cases, inl, inr,
}
use temporal_go_agent_sdk.Base.Telemetry.{ToolTelemetry, count_of, bump, record_call}

abbrev pub sum_counts : Dict ℕ → ℕ
sum_counts [] = 0
sum_counts ((k, n) ∷ m) = n + sum_counts m

sum_counts-insert :
    (k : Text) (m : Dict ℕ)
    → sum_counts (insert k (suc (count_of (lookup k m))) m) ≡ suc (sum_counts m)
unfolding insert lookup
sum_counts-insert k [] = refl
sum_counts-insert k ((j, n) ∷ m) = elim (Bool-cases (text_eq j k)) [
  | inl same ↦ ground (arith, same)
  | inr other ↦ ground (arith, other, sum_counts-insert k m)
]

sum_counts-bump :
    (name : Text) (m : Dict ℕ) → name ≢ [] → sum_counts (bump name m) ≡ suc (sum_counts m)
unfolding bump
sum_counts-bump [] m h = absurd (h refl)
sum_counts-bump (c ∷ s) m h = sum_counts-insert (c ∷ s) m

abbrev pub record_all : List (Text × Bool) → ToolTelemetry → ToolTelemetry
record_all [] t = t
record_all ((name, failed) ∷ cs) t = record_all cs (record_call name failed t)

abbrev pub AllNamed : List (Text × Bool) → Type 0
AllNamed [] = Unit {0}
AllNamed ((name, failed) ∷ cs) = (name ≢ []) × AllNamed cs

-- The two counters are the sums of the two breakdowns, as far as calls have names.
pub record IsBalanced (t : ToolTelemetry) : Type 0 where
  pub calls : t.total_calls ≡ sum_counts t.breakdown
  pub failures : t.failed_calls ≡ sum_counts t.failed_breakdown

record_call-IsBalanced :
    (name : Text) (failed : Bool) (t : ToolTelemetry)
    → name ≢ []
    → IsBalanced t
    → IsBalanced (record_call name failed t)
unfolding record_call
record_call-IsBalanced name failed t h v =
    ground (arith, sum_counts-bump name t.breakdown h, sum_counts-bump name t.failed_breakdown h)

-- Recording calls of named tools keeps the counters equal to the sums of their breakdowns.
pub record_all-IsBalanced :
    (cs : List (Text × Bool)) (t : ToolTelemetry)
    → AllNamed cs
    → IsBalanced t
    → IsBalanced (record_all cs t)
record_all-IsBalanced [] t h v = v
record_all-IsBalanced ((name, failed) ∷ cs) t h v =
    record_all-IsBalanced cs (record_call name failed t) h.1
      (record_call-IsBalanced name failed t h.0 v)
