-- ===== src/FsGuard/Ranges/Normal.antt =====
-- The normal form of merged ranges, and what it makes of a span check.
use temporal_go_agent_sdk.Prelude.{
  ℕ, ◌≤◌, ◌<◌, ◌≡◌, ◌⊎◌, ◌↔◌, refl, ltb, true, false, List, [], ◌∷◌, ◌++◌, leb, Bool-cases, inl,
  inr, ◌+◌, arith, All, All-append,
}
use temporal_go_agent_sdk.FsGuard.Ranges.{
  LineRange, max_int, touches, place, sort, extend, absorb, merge_sorted, merge_ranges, covers,
  holds_span,
}
use temporal_go_agent_sdk.FsGuard.Ranges.Cover.{
  SortedFrom, sort-SortedFrom, extend_start, SortedFrom-extend,
}

abbrev pub IsValid : LineRange → Type 0
IsValid r = (1 ≤ r.start) × (r.start ≤ r.end) × (r.end ≤ max_int)

-- Well formed, and within `last` where that ends at the largest int.
abbrev pub StartsIn : LineRange → LineRange → Type 0
StartsIn last r = (last.start ≤ r.start) × (r.start ≤ r.end) × (r.end ≤ max_int)

-- Each range is well formed, and none begins below `k`. They are sorted, disjoint and not adjacent,
-- except that behind a range that ends at the largest int there may be others within it.
abbrev pub NormalFrom : ℕ → List LineRange → Type 0
NormalFrom k [] = Unit {0}
NormalFrom k (r ∷ rs) =
    (k ≤ r.start)
    × (r.start ≤ r.end)
    × (r.end ≤ max_int)
    × (NormalFrom (r.end + 2) rs ⊎ ((r.end ≡ max_int) × All (StartsIn r) rs))

abbrev pub IsNormal : List LineRange → Type 0
IsNormal rs = NormalFrom 1 rs

place-All :
    (r : LineRange) (rs : List LineRange) → IsValid r → All IsValid rs → All IsValid (place r rs)
unfolding place
place-All r [] v vs = (v, tt)
place-All r (x ∷ rs) v vs = ground (arith, place-All r rs v vs.1)

sort-All : (rs : List LineRange) → All IsValid rs → All IsValid (sort rs)
unfolding sort
sort-All [] v = tt
sort-All (r ∷ rs) v = place-All r (sort rs) v.0 (sort-All rs v.1)

extend-IsValid : (last r : LineRange) → IsValid last → IsValid r → IsValid (extend last r)
extend-IsValid last r v w = ground arith

extend-StartsIn :
    (first last r : LineRange) → StartsIn first last → IsValid r → StartsIn first (extend last r)
extend-StartsIn first last r v w = ground arith

absorb-StartsIn :
    (first last : LineRange) (rs : List LineRange)
    → StartsIn first last
    → All IsValid rs
    → SortedFrom last.start rs
    → All (StartsIn first) (absorb last rs)
unfolding absorb
absorb-StartsIn first last [] v vs s = (v, tt)
absorb-StartsIn first last (r ∷ rs) v vs s = elim (Bool-cases (touches last r)) [
  | inl touching ↦
      rw (touching, All)
        (absorb-StartsIn first (extend last r) rs (extend-StartsIn first last r v vs.0) vs.1
          (SortedFrom-extend last r rs s))
  | inr apart ↦
      rw (apart, All) (v, absorb-StartsIn first r rs (omega arith, vs.0.1, vs.0.2) vs.1 s.1)
]

absorb-NormalFrom :
    (k : ℕ) (last : LineRange) (rs : List LineRange)
    → k ≤ last.start
    → IsValid last
    → All IsValid rs
    → SortedFrom last.start rs
    → NormalFrom k (absorb last rs)
unfolding absorb
absorb-NormalFrom k last [] h v vs s = (h, v.1, v.2, inl tt)
absorb-NormalFrom k last (r ∷ rs) h v vs s = elim (Bool-cases (touches last r)) [
  | inl touching ↦
      rw (touching, NormalFrom)
        (absorb-NormalFrom k (extend last r) rs (rw (extend_start last r) h)
          (extend-IsValid last r v vs.0) vs.1 (SortedFrom-extend last r rs s))
  | inr apart ↦
      rw (apart, NormalFrom)
        (
          h,
          v.1,
          v.2,
          elim (Bool-cases (ltb last.end max_int)) [
            | inl below ↦ inl (absorb-NormalFrom (last.end + 2) r rs (ground arith) vs.0 vs.1 s.1)
            | inr reached ↦
                inr (ground arith, absorb-StartsIn last r rs (s.0, vs.0.1, vs.0.2) vs.1 s.1)
          ],
        )
]

merge_sorted-IsNormal :
    (rs : List LineRange) → All IsValid rs → SortedFrom 0 rs → IsNormal (merge_sorted rs)
unfolding merge_sorted
merge_sorted-IsNormal [] v s = tt
merge_sorted-IsNormal (r ∷ rs) v s = absorb-NormalFrom 1 r rs v.0.0 v.0 v.1 s.1

-- The union of two sets of well-formed ranges is sorted, disjoint and non-adjacent, except that a
-- range that ends at the largest int may stand before others that lie within it.
pub merge_ranges-IsNormal :
    (a b : List LineRange) → All IsValid a → All IsValid b → IsNormal (merge_ranges a b)
unfolding merge_ranges
merge_ranges-IsNormal a b v w =
    merge_sorted-IsNormal (sort (a ++ b)) (sort-All (a ++ b) (All-append IsValid a b v w))
      (sort-SortedFrom (a ++ b))

StartsIn-covers :
    (n : ℕ) (first : LineRange) (rs : List LineRange)
    → All (StartsIn first) rs
    → covers n rs ≡ true
    → (first.start ≤ n) × (n ≤ max_int)
StartsIn-covers n first [] h c = cc
StartsIn-covers n first (r ∷ rs) h c = ground (arith, StartsIn-covers n first rs h.1)

covers_below : (n k : ℕ) (rs : List LineRange) → NormalFrom k rs → n < k → covers n rs ≡ false
covers_below n k [] h l = refl
covers_below n k (r ∷ rs) h l = elim h.3 [
  | inl next ↦ ground (arith, covers_below n (r.end + 2) rs next)
  | inr last ↦ ground (arith, StartsIn-covers n r rs last.1)
]

holds_span-covers :
    (span : LineRange) (rs : List LineRange) (n : ℕ)
    → holds_span span rs ≡ true
    → span.start ≤ n
    → n ≤ span.end
    → covers n rs ≡ true
unfolding holds_span
holds_span-covers span [] n h a b = h
holds_span-covers span (r ∷ rs) n h a b = ground (arith, holds_span-covers span rs n)

covers-holds_span :
    (k : ℕ) (span : LineRange) (rs : List LineRange)
    → NormalFrom k rs
    → span.start ≤ span.end
    → ((n : ℕ) → span.start ≤ n → n ≤ span.end → covers n rs ≡ true)
    → holds_span span rs ≡ true
unfolding holds_span
covers-holds_span k span [] h v c = c span.start (omega arith) v
covers-holds_span k span (r ∷ rs) h v c = elim h.3 [
  | inr last ↦ ground (
    arith,
    c span.start (omega arith) v,
    c span.end v (omega arith),
    StartsIn-covers span.start r rs last.1,
    StartsIn-covers span.end r rs last.1,
  )
  | inl next ↦ elim (Bool-cases (leb span.start r.end)) [
    | inl reached ↦ ground (
      arith,
      reached,
      c span.start (omega arith) v,
      c (r.end + 1),
      covers_below span.start (r.end + 2) rs next,
      covers_below (r.end + 1) (r.end + 2) rs next,
    )
    | inr past ↦ ground (
      arith,
      past,
      covers-holds_span (r.end + 2) span rs next v (λ n a b. ground (arith, past, c n a b)),
    )
  ]
]

-- In normal form a span of lines is covered line by line exactly when one merged range holds it.
pub holds_span_iff :
    (span : LineRange) (rs : List LineRange)
    → IsNormal rs
    → span.start ≤ span.end
    → (holds_span span rs ≡ true) ↔ ((n : ℕ) → span.start ≤ n → n ≤ span.end → covers n rs ≡ true)
holds_span_iff span rs h v =
    (λ e n a b. holds_span-covers span rs n e a b, λ c. covers-holds_span 1 span rs h v c)
