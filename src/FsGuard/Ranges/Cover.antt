-- ===== src/FsGuard/Ranges/Cover.antt =====
-- Which lines the union of two range sets covers.
use temporal_go_agent_sdk.Prelude.{
  ℕ, ◌≤◌, ◌≡◌, refl, ◌∙◌, ◌||◌, List, [], ◌∷◌, ◌++◌, leb, Bool-cases, inl, inr, ◌+◌, arith,
}
use temporal_go_agent_sdk.FsGuard.Ranges.{
  LineRange, touches, place, sort, extend, absorb, merge_sorted, merge_ranges, in_range, covers,
}

-- First lines do not fall along the list, and begin at `k` or later.
abbrev pub SortedFrom : ℕ → List LineRange → Type 0
SortedFrom k [] = Unit {0}
SortedFrom k (r ∷ rs) = (k ≤ r.start) × SortedFrom r.start rs

place-SortedFrom :
    (k : ℕ) (r : LineRange) (rs : List LineRange)
    → k ≤ r.start
    → SortedFrom k rs
    → SortedFrom k (place r rs)
unfolding place
place-SortedFrom k r [] h s = (h, tt)
place-SortedFrom k r (x ∷ rs) h (l, s) = elim (Bool-cases (leb r.start x.start)) [
  | inl e ↦ rw e (h, (ground arith, s))
  | inr e ↦ rw e (l, place-SortedFrom x.start r rs (ground arith) s)
]

pub sort-SortedFrom : (rs : List LineRange) → SortedFrom 0 (sort rs)
unfolding sort
sort-SortedFrom [] = tt
sort-SortedFrom (r ∷ rs) = place-SortedFrom 0 r (sort rs) (omega arith) (sort-SortedFrom rs)

covers-place :
    (n : ℕ) (r : LineRange) (rs : List LineRange)
    → covers n (place r rs) ≡ in_range n r || covers n rs
unfolding place
covers-place n r [] = refl
covers-place n r (x ∷ rs) = ground (arith, covers-place n r rs)

covers-sort : (n : ℕ) (rs : List LineRange) → covers n (sort rs) ≡ covers n rs
unfolding sort
covers-sort n [] = refl
covers-sort n (r ∷ rs) = ground (arith, covers-place n r (sort rs), covers-sort n rs)

covers-append : (n : ℕ) (a b : List LineRange) → covers n (a ++ b) ≡ covers n a || covers n b
covers-append n [] b = refl
covers-append n (r ∷ a) b = ground (arith, covers-append n a b)

SortedFrom-mono : (j k : ℕ) (rs : List LineRange) → j ≤ k → SortedFrom k rs → SortedFrom j rs
SortedFrom-mono j k [] h s = tt
SortedFrom-mono j k (r ∷ rs) h (l, s) = (omega arith, s)

pub extend_start : (last r : LineRange) → (extend last r).start ≡ last.start
extend_start last r = ground arith

in_range-extend :
    (n : ℕ) (last r : LineRange)
    → last.start ≤ r.start
    → r.start ≤ last.end + 1
    → in_range n (extend last r) ≡ in_range n last || in_range n r
in_range-extend n last r h k = ground arith

pub SortedFrom-extend :
    (last r : LineRange) (rs : List LineRange)
    → SortedFrom last.start (r ∷ rs)
    → SortedFrom (extend last r).start rs
SortedFrom-extend last r rs (l, s) =
    rw (extend_start last r) (SortedFrom-mono last.start r.start rs l s)

covers-absorb :
    (n : ℕ) (last : LineRange) (rs : List LineRange)
    → SortedFrom last.start rs
    → covers n (absorb last rs) ≡ in_range n last || covers n rs
unfolding absorb
covers-absorb n last [] s = refl
covers-absorb n last (r ∷ rs) s = elim (Bool-cases (touches last r)) [
  | inl touching ↦ ground (
    arith,
    touching,
    covers-absorb n (extend last r) rs (SortedFrom-extend last r rs s),
    in_range-extend n last r s.0 (ground arith),
  )
  | inr apart ↦ ground (arith, apart, covers-absorb n r rs s.1)
]

covers-merge_sorted :
    (n : ℕ) (rs : List LineRange) → SortedFrom 0 rs → covers n (merge_sorted rs) ≡ covers n rs
unfolding merge_sorted
covers-merge_sorted n [] s = refl
covers-merge_sorted n (r ∷ rs) s = covers-absorb n r rs s.1

-- A line is covered after a merge exactly when one of the two range sets covered it.
pub covers-merge_ranges :
    (n : ℕ) (a b : List LineRange) → covers n (merge_ranges a b) ≡ covers n a || covers n b
unfolding merge_ranges
covers-merge_ranges n a b =
    covers-merge_sorted n (sort (a ++ b)) (sort-SortedFrom (a ++ b))
    ∙ covers-sort n (a ++ b)
    ∙ covers-append n a b
