-- ===== src/FsGuard/Guard/Check.antt =====
-- What `CheckEditable` accepts, and how partial reads add up.
use temporal_go_agent_sdk.Prelude.{
  ℕ, ◌≤◌, ◌≡◌, ◌↔◌, refl, sym, ◌∙◌, subst, true, ◌||◌, List, [], Option, none, some, Text,
  text_eq_iff, text_eq_refl, lookup, lookup-insert, ok, arith, Option-cases, inl, inr,
}
use temporal_go_agent_sdk.FsGuard.Ranges.{LineRange, valid, merge_ranges, covers}
use temporal_go_agent_sdk.FsGuard.Ranges.Cover.{covers-merge_ranges}
use temporal_go_agent_sdk.FsGuard.Ranges.Normal.{holds_span_iff, IsNormal}
use temporal_go_agent_sdk.FsGuard.Guard.Invariant.{IsValid, mark_range_key-IsValid}
use temporal_go_agent_sdk.FsGuard.Guard.{
  Filesystem, Guard, all_valid, mark_range_key, mark_read_range, check_editable, editable_key,
  fresh, covered,
}

valid_le : (span : LineRange) → valid span ≡ true → span.start ≤ span.end
unfolding valid
valid_le span h = ground arith

fresh_iff : (seen : Option Text) (h : Text) → (fresh seen h ≡ none) ↔ (seen ≡ some h)
unfolding fresh
fresh_iff none h = ground arith
fresh_iff (some observed) h = ground (arith, text_eq_iff observed h)

-- Every line of the span was read, where only part of the file was.
abbrev pub WasRead : Option (List LineRange) → LineRange → Type 0
WasRead none span = Unit {0}
WasRead (some rs) span = (n : ℕ) → span.start ≤ n → n ≤ span.end → covers n rs ≡ true

covered_iff :
    (o : Option (List LineRange)) (span : LineRange)
    → ((rs : List LineRange) → o ≡ some rs → IsNormal rs)
    → span.start ≤ span.end
    → (covered o span ≡ none) ↔ WasRead o span
unfolding covered
covered_iff none span n v = (λ _. tt, λ _. refl)
covered_iff (some rs) span n v =
    let i = holds_span_iff span rs (n rs refl) v in
    (λ e. i.0 (ground arith), λ w. rw (i.1 w, covered))

editable_key_iff :
    (key h : Text) (span : LineRange) (g : Guard)
    → IsValid g
    → valid span ≡ true
    → (editable_key key h span g ≡ none)
      ↔ ((lookup key g.reads ≡ some h) × WasRead (lookup key g.ranges) span)
unfolding editable_key
editable_key_iff key h span g v good = elim (Option-cases (fresh (lookup key g.reads) h)) [
  | inl e ↦ rw (e, editable_key) (λ c. ((fresh_iff _ h).0 e, area.0 c), λ p. area.1 p.1)
  | inr (x, e) ↦
      rw (e, editable_key) (λ c. cc, λ p. cc (e, (fresh_iff (lookup key g.reads) h).1 p.0))
]
  where
    area : (covered (lookup key g.ranges) span ≡ none) ↔ WasRead (lookup key g.ranges) span
    area = covered_iff (lookup key g.ranges) span (v.normal key) (valid_le span good)

covers_union :
    (n : ℕ) (a b : List LineRange)
    → covers n (merge_ranges (merge_ranges [] a) b) ≡ covers n a || covers n b
covers_union n a b = rw (covers-merge_ranges n (merge_ranges [] a) b, covers-merge_ranges n [] a)

-- What a partial read leaves under its key.
abbrev ReadInPart : Text → Text → List LineRange → Guard → Type 0
ReadInPart key h rs g = (lookup key g.reads ≡ some h) × (lookup key g.ranges ≡ some rs)

mark_range_key-first :
    (key h : Text) (a : List LineRange) (g : Guard)
    → lookup key g.reads ≡ none
    → ReadInPart key h (merge_ranges [] a) (mark_range_key key h a g)
unfolding mark_range_key
mark_range_key-first key h a g e =
    rw (e, mark_range_key)
      (
        ground (arith, lookup-insert key key h g.reads, text_eq_refl key),
        ground (arith, lookup-insert key key (merge_ranges [] a) g.ranges, text_eq_refl key),
      )

mark_range_key-again :
    (key h : Text) (rs b : List LineRange) (g : Guard)
    → ReadInPart key h rs g
    → ReadInPart key h (merge_ranges rs b) (mark_range_key key h b g)
unfolding mark_range_key
mark_range_key-again key h rs b g (e, r) =
    rw (e, r, text_eq_refl h, mark_range_key)
      (
        ground (arith, lookup-insert key key h g.reads, text_eq_refl key),
        ground (arith, lookup-insert key key (merge_ranges rs b) g.ranges, text_eq_refl key),
      )

module _ (fsys : Filesystem) (hash_bytes : Text → Text) where
  open fsys use {Disk, canonical, read_file}

  check_editable-editable_key :
      (d : Disk) (path key current : Text) (span : LineRange) (g : Guard)
      → valid span ≡ true
      → canonical d path ≡ ok key
      → read_file d key ≡ ok current
      → check_editable fsys hash_bytes d path span g ≡ editable_key key (hash_bytes current) span g
  unfolding check_editable
  check_editable-editable_key d path key current span g good res found =
      rw (check_editable, good, res, found)

  -- For a file that can be read, a guard with valid state accepts an edit of a well-formed span
  -- exactly when the file was observed with its present content and, if it was only read in part,
  -- every line of the span was among the lines read.
  pub check_editable_iff :
      (d : Disk) (path key current : Text) (span : LineRange) (g : Guard)
      → IsValid g
      → valid span ≡ true
      → canonical d path ≡ ok key
      → read_file d key ≡ ok current
      → (check_editable fsys hash_bytes d path span g ≡ none)
        ↔ ((lookup key g.reads ≡ some (hash_bytes current)) × WasRead (lookup key g.ranges) span)
  check_editable_iff d path key current span g v good res found =
      rw (check_editable-editable_key d path key current span g good res found)
        (editable_key_iff key (hash_bytes current) span g v good)

  mark_read_range-key :
      (d : Disk) (path key content : Text) (a : List LineRange) (g : Guard)
      → canonical d path ≡ ok key
      → all_valid a ≡ true
      → (mark_read_range fsys hash_bytes d path content a g).0
        ≡ mark_range_key key (hash_bytes content) a g
  unfolding mark_read_range
  mark_read_range-key d path key content a g res good = rw (good, res, mark_read_range)

  -- Reading ranges `a` and then `b` of a file that the guard did not know, and whose content is
  -- the one on disk, allows the edit of a well-formed span exactly if each of its lines lies in a
  -- range of `a` or of `b`.
  pub check_editable-mark_read_range :
      (d : Disk) (path key content : Text) (a b : List LineRange) (span : LineRange) (g : Guard)
      → IsValid g
      → lookup key g.reads ≡ none
      → canonical d path ≡ ok key
      → read_file d key ≡ ok content
      → all_valid a ≡ true
      → all_valid b ≡ true
      → valid span ≡ true
      → (check_editable fsys hash_bytes d path span
            (mark_read_range fsys hash_bytes d path content b
              (mark_read_range fsys hash_bytes d path content a g).0).0
          ≡ none)
        ↔ ((n : ℕ) → span.start ≤ n → n ≤ span.end → covers n a || covers n b ≡ true)
  check_editable-mark_read_range d path key content a b span g v unseen res found ga gb gs =
      let h = hash_bytes content in
      let g₁ = mark_range_key key h a g in
      let v₁ : IsValid g₁ = mark_range_key-IsValid key h a g ga v in
      let r₂ = mark_range_key-again key h _ b g₁ (mark_range_key-first key h a g unseen) in
      let i =
        check_editable_iff d path key content span (mark_range_key key h b g₁)
          (mark_range_key-IsValid key h b g₁ gb v₁) gs res found in
      rw
        (
          mark_read_range-key d path key content a g res ga,
          mark_read_range-key d path key content b g₁ res gb,
        )
        (
          λ c n p q. sym (covers_union n a b) ∙ subst (λ o. WasRead o span) r₂.1 (i.0 c).1 n p q,
          λ f. i.1 (
            r₂.0,
            subst (λ o. WasRead o span) (sym r₂.1) (λ n p q. covers_union n a b ∙ f n p q),
          ),
        )
