-- ===== src/FsGuard/Ranges.antt =====
-- Closed, 1-based line ranges of pkg/tools/fsguard/fsguard.go and their union. Lines are natural
-- numbers up to the largest int: a negative line is malformed exactly as line 0 is.
pub mod Cover
pub mod Normal
mod Tests
use temporal_go_agent_sdk.Prelude.{
  ℕ, suc, ◌+◌, ◌-◌, ◌^◌, Bool, true, false, ◌&&◌, ◌||◌, List, [], ◌∷◌, ◌++◌, leb, ltb,
  if◌then◌else◌,
}

pub record LineRange : Type 0 where
  pub start : ℕ
  pub end : ℕ

unfoldable pub max_int : ℕ
max_int = 2 ^ 63 - 1

-- The last test, which the code does not make, holds of every int.
unfoldable pub valid : LineRange → Bool
valid r = leb 1 r.start && (leb r.start r.end && leb r.end max_int)

-- The list that `sort.Slice` leaves, ordered by first line.
pub place : LineRange → List LineRange → List LineRange
place r [] = r ∷ []
place r (s ∷ rs) = if leb r.start s.start then r ∷ s ∷ rs else s ∷ place r rs

pub sort : List LineRange → List LineRange
sort [] = []
sort (r ∷ rs) = place r (sort rs)

-- `merged[n-1]` after a range that overlaps or touches it.
abbrev pub extend : LineRange → LineRange → LineRange
extend last r = if ltb last.end r.end then record last { end = r.end } else last

-- `r.Start <= merged[n-1].End+1`: the sum of the largest int and 1 wraps around to the smallest.
abbrev pub touches : LineRange → LineRange → Bool
touches last r = ltb last.end max_int && leb r.start (last.end + 1)

-- The loop of `mergeRanges`, with the last merged range apart.
pub absorb : LineRange → List LineRange → List LineRange
absorb last [] = last ∷ []
absorb last (r ∷ rs) = elim (touches last r) [
  | true ↦ absorb (extend last r) rs
  | false ↦ last ∷ absorb r rs
]

pub merge_sorted : List LineRange → List LineRange
unfolding absorb
merge_sorted [] = []
merge_sorted (r ∷ rs) = absorb r rs

unfoldable pub merge_ranges : List LineRange → List LineRange → List LineRange
unfolding merge_sorted sort place
merge_ranges a b = merge_sorted (sort (a ++ b))

abbrev pub in_range : ℕ → LineRange → Bool
in_range n r = leb r.start n && leb n r.end

-- Whether a line lies in the union of the ranges.
abbrev pub covers : ℕ → List LineRange → Bool
covers n [] = false
covers n (r ∷ rs) = in_range n r || covers n rs

-- Whether one range holds the whole span: the loop of `CheckEditable`.
unfoldable pub holds_span : LineRange → List LineRange → Bool
holds_span span [] = false
holds_span span (r ∷ rs) = leb r.start span.start && leb span.end r.end || holds_span span rs
