-- ===== src/Local/Program/Logic.antt =====
-- The logic of programs, on the calls of the loop.
use temporal_go_agent_sdk.Prelude.{ℕ, List, ◌∷◌}
use temporal_go_agent_sdk.Effects.Logic
use temporal_go_agent_sdk.Effects.Logic.{Extends-one, Allowed-interleave, AllAllowed-extend}
pub use temporal_go_agent_sdk.Effects.Logic.{
  Known, Extends, Allowed, AllAllowed, AllMeet, IsMonotone, Allowed-bind, Allowed-run_all,
  Allowed-weaken,
}
use temporal_go_agent_sdk.Local.Types.{Call, Answer, schedule}
use temporal_go_agent_sdk.Local.Program.{Program, side_by_side}

-- A call with its answer; a trace has the last one first.
abbrev pub Event : Type 0
Event = Logic.Event Call Answer

module _ (G : List Event → Call → Type 0) (R : (q : Call) → Answer q → Type 0) where
  module _ (mono : IsMonotone G) {A : Type 0} where
    -- Whatever the schedule, results stand in the order of the programs, and each is its program's.
    pub Allowed-side_by_side :
        (Ps : List (A → Type 0)) (t : List Event) (ms : List (Program A))
        → ((u : List Event) (n : ℕ) → G u (schedule n))
        → AllAllowed G R Ps t ms
        → Allowed G R (AllMeet Ps) t (side_by_side ms)
    unfolding side_by_side
    Allowed-side_by_side Ps t ms g h = (
      g t _,
      λ is r. Allowed-interleave G R mono is Ps ((schedule _, is) ∷ t) ms (
          AllAllowed-extend G R mono Ps t ((schedule _, is) ∷ t) ms (Extends-one (schedule _, is) t)
            h),
    )
