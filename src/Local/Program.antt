-- ===== src/Local/Program.antt =====
-- The programs of the loop, on the calls that it makes; goroutines that run side by side take turns
-- by a schedule.
pub mod Logic
use temporal_go_agent_sdk.Prelude.{List, length}
use temporal_go_agent_sdk.Effects.{Interaction}
pub use temporal_go_agent_sdk.Effects.{ret, call, ◌>>=◌, ◌>>◌}
unfoldable pub use temporal_go_agent_sdk.Effects.{run_all, interleave}
use temporal_go_agent_sdk.Local.Types.{Call, Answer, schedule}

abbrev pub Program : Type 0 → Type 0
Program A = Interaction Call Answer A

abbrev pub ask : (q : Call) → Program (Answer q)
ask q = call q ret

unfoldable pub side_by_side : {A : Type 0} → List (Program A) → Program (List A)
unfolding interleave
side_by_side ms = call (schedule (length ms)) (λ is. interleave is ms)
