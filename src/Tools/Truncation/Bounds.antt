-- ===== src/Tools/Truncation/Bounds.antt =====
-- How long truncated output is, and what it is made of.
use temporal_go_agent_sdk.Prelude.{
  ℕ, ◌/◌, ◌≤◌, ◌<◌, ◌≡◌, refl, true, [], ◌∷◌, ◌++◌, Option, none, some, Text, leb, length, take,
  pos, arith, length-append, length-take, Bool-cases, inl, inr, ◌⊎◌, Option-cases, zero, suc, ap,
}
use temporal_go_agent_sdk.Strings.{last_index}
use temporal_go_agent_sdk.Tools.Truncation.{
  estimate_tokens, max_chars, cut_at, cut, truncate_tool_output, truncation_marker,
  truncate_tool_output_with_warning,
}

last_index-lt : (c : ℕ) (s : Text) (i : ℕ) → last_index c s ≡ some i → i < length s
unfolding last_index
last_index-lt c [] i e = cc
last_index-lt c (d ∷ s) i e = elim (Option-cases (last_index c s)) [
  | inl missing ↦ ground (arith, missing)
  | inr (j, found) ↦ ground (arith, found, last_index-lt c s j found)
]

take-take : (m n : ℕ) (s : Text) → m ≤ n → take m (take n s) ≡ take m s
take-take zero n s h = refl
take-take (suc m) zero s h = absurd (omega arith)
take-take (suc m) (suc n) [] h = refl
take-take (suc m) (suc n) (x ∷ s) h = ap (◌∷◌ x) (take-take m n s (omega arith))

-- A part of the content that begins where it begins and ends with the marker.
abbrev pub IsCut : Text → ℕ → Text → Type 0
IsCut content m result =
    (k : ℕ) × (result ≡ take k content ++ truncation_marker)
    × (max_chars m / 2 < k)
    × (k ≤ max_chars m)
    × (k < length content)

cut_at_bounds :
    (o : Option ℕ) (chars : ℕ)
    → 0 < chars
    → ((i : ℕ) → o ≡ some i → i < chars)
    → (chars / 2 < cut_at o chars) × (cut_at o chars ≤ chars)
cut_at_bounds none chars p h = omega arith
cut_at_bounds (some i) chars p h = ground (arith, h i refl)

max_chars_pos : (m : ℕ) → 100 ≤ max_chars m
max_chars_pos m = ground arith

cut-IsCut :
    (content : Text) (m : ℕ)
    → max_chars m < length content
    → IsCut content m (cut content (max_chars m) ++ truncation_marker)
cut-IsCut content m h =
    let chars = max_chars m in
    let at = cut_at (last_index 32 (take chars content)) chars in
    let b =
      cut_at_bounds (last_index 32 (take chars content)) chars (omega (arith, max_chars_pos m))
        (λ i e.
          omega (arith, last_index-lt 32 (take chars content) i e, length-take chars content)) in
    (
      at,
      ap (λ (t : Text). t ++ truncation_marker) (take-take at chars content b.1),
      b.0,
      b.1,
      omega (arith, b.1),
    )

-- Truncated output is the content itself, or a prefix of it and the marker, where the prefix is
-- shorter than the content and longer than half of what the limit (100 bytes at least) allows.
pub truncate_tool_output-IsCut :
    (content : Text) (m : ℕ)
    → (truncate_tool_output content (pos m) ≡ content)
      ⊎ IsCut content m (truncate_tool_output content (pos m))
unfolding truncate_tool_output
truncate_tool_output-IsCut content m = elim (Bool-cases (leb m 0)) [
  | inl e ↦ inl (rw (e, truncate_tool_output))
  | inr e ↦ elim (Bool-cases (leb (estimate_tokens content) m)) [
    | inl f ↦ inl (rw (e, f, truncate_tool_output))
    | inr f ↦ elim (Bool-cases (leb (length content) (max_chars m))) [
      | inl g ↦ inl (rw (e, f, g, truncate_tool_output))
      | inr g ↦ inr (rw (e, f, g, truncate_tool_output) (cut-IsCut content m (ground arith)))
    ]
  ]
]

IsCut-estimate :
    (content : Text) (m : ℕ) (result : Text)
    → 25 ≤ m
    → IsCut content m result
    → estimate_tokens result ≤ m
unfolding estimate_tokens
IsCut-estimate content m result h (k, e, _, most, _) =
    rw e (ground (arith, length-append (take k content) truncation_marker, length-take k content))

-- With a limit of at least 25 tokens, truncated output is within the limit.
pub estimate_tokens-truncate_tool_output :
    (content : Text) (m : ℕ) → 25 ≤ m → estimate_tokens (truncate_tool_output content (pos m)) ≤ m
unfolding truncate_tool_output estimate_tokens
estimate_tokens-truncate_tool_output content m h =
    elim (Bool-cases (leb (estimate_tokens content) m)) [
      | inl f ↦ ground (arith, f)
      | inr f ↦ elim (Bool-cases (leb (length content) (max_chars m))) [
        | inl g ↦ ground (arith, f, g)
        | inr g ↦
            let cutting : truncate_tool_output content (pos m)
                ≡ cut content (max_chars m) ++ truncation_marker =
              ground (arith, f, g) in
            rw cutting (IsCut-estimate content m _ h (cut-IsCut content m (ground arith)))
      ]
    ]

truncate_tool_output_short :
    (content : Text) (m : ℕ) → length content ≤ 100 → truncate_tool_output content (pos m) ≡ content
unfolding truncate_tool_output
truncate_tool_output_short content m short =
    let fits : leb (length content) (max_chars m) ≡ true = ground (arith, max_chars_pos m) in
    rw (fits, truncate_tool_output) (ground arith)

-- Content above the limit but of at most 100 bytes is returned whole, and a warning of its
-- truncation is returned with it.
pub warning_without_truncation :
    (content : Text) (m : ℕ)
    → 0 < m
    → m < estimate_tokens content
    → length content ≤ 100
    → truncate_tool_output_with_warning content (pos m) ≡ (
      content,
      some (record { from_tokens = estimate_tokens content; to_tokens = estimate_tokens content }),
    )
unfolding truncate_tool_output_with_warning
warning_without_truncation content m p h short =
    rw (truncate_tool_output_with_warning, truncate_tool_output_short content m short)
      (ground arith)
