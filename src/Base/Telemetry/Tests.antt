-- ===== src/Base/Telemetry/Tests.antt =====
-- The telemetry of internal/types/telemetry.go on concrete calls.
use temporal_go_agent_sdk.Prelude.{Bool, true, false, List, [], ◌∷◌, Text, codes, refl}
use temporal_go_agent_sdk.Base.Telemetry.{ToolTelemetry}
use temporal_go_agent_sdk.Base.Telemetry.Sums.{record_all, record_all-IsBalanced, IsBalanced}

abbrev no_calls : ToolTelemetry
no_calls = record { total_calls = 0; failed_calls = 0; breakdown = []; failed_breakdown = [] }

abbrev three_calls : List (Text × Bool)
three_calls = (codes "search", false) ∷ (codes "fetch", true) ∷ (codes "search", true) ∷ []

record_all-IsBalanced_example : IsBalanced (record_all three_calls no_calls)
record_all-IsBalanced_example =
    record_all-IsBalanced three_calls no_calls ((λ p. cc), ((λ p. cc), ((λ p. cc), tt)))
      (record { calls = refl; failures = refl })
