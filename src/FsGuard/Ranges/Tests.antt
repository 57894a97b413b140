-- ===== src/FsGuard/Ranges/Tests.antt =====
-- The theorems on line ranges at concrete ranges.
use temporal_go_agent_sdk.Prelude.{ℕ, ◌≤◌, ◌≡◌, ◌↔◌, refl, inl, true, ◌||◌, List, [], ◌∷◌, arith}
use temporal_go_agent_sdk.FsGuard.Ranges.{max_int, LineRange, merge_ranges, covers, holds_span}
use temporal_go_agent_sdk.FsGuard.Ranges.Cover.{covers-merge_ranges}
use temporal_go_agent_sdk.FsGuard.Ranges.Normal.{IsNormal, merge_ranges-IsNormal, holds_span_iff}

abbrev lines : ℕ → ℕ → LineRange
lines a b = record { start = a; end = b }

abbrev earlier : List LineRange
earlier = lines 11 20 ∷ lines 30 31 ∷ []

abbrev later : List LineRange
later = lines 1 10 ∷ lines 15 17 ∷ []

merge_adjacent : merge_ranges earlier later ≡ lines 1 20 ∷ lines 30 31 ∷ []
unfolding merge_ranges max_int
merge_adjacent = refl

-- Behind the largest int nothing is merged.
merge_at_the_end :
    merge_ranges (lines 1 max_int ∷ []) (lines 5 10 ∷ []) ≡ lines 1 max_int ∷ lines 5 10 ∷ []
unfolding merge_ranges max_int
merge_at_the_end = refl

covers-merge_ranges_example :
    covers 10 (merge_ranges earlier later) ≡ covers 10 earlier || covers 10 later
covers-merge_ranges_example = covers-merge_ranges 10 earlier later

merge_ranges-IsNormal_example : IsNormal (merge_ranges earlier later)
unfolding max_int
merge_ranges-IsNormal_example = merge_ranges-IsNormal earlier later (omega arith) (omega arith)

holds_span_iff_example :
    (holds_span (lines 12 19) (lines 1 20 ∷ lines 30 31 ∷ []) ≡ true)
    ↔ ((n : ℕ) → 12 ≤ n → n ≤ 19 → covers n (lines 1 20 ∷ lines 30 31 ∷ []) ≡ true)
unfolding max_int
holds_span_iff_example =
    holds_span_iff (lines 12 19) (lines 1 20 ∷ lines 30 31 ∷ [])
      (omega arith, omega arith, omega arith, inl (omega arith, omega arith, omega arith, inl tt))
      (omega arith)
