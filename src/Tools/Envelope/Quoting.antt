-- ===== src/Tools/Envelope/Quoting.antt =====
-- Quoting adds and removes no occurrence of the closing delimiter.
use mathlib.Core.List.{append_assoc}
use temporal_go_agent_sdk.Prelude.{
  ℕ, ◌+◌, ◌≡◌, refl, ap, true, false, [], ◌∷◌, ◌++◌, All, arith, Text, Bool-cases, inl, inr,
}
use temporal_go_agent_sdk.Strings.{has_prefix, occurs}
use temporal_go_agent_sdk.Strings.Search.{Lacks, occurs-skip, occurs-append}
use temporal_go_agent_sdk.Tools.Envelope.{is_plain, escape_tail, quote_body, quote}

pub quote-append : (s rest : Text) → quote s ++ rest ≡ 34 ∷ (quote_body s ++ 34 ∷ rest)
unfolding quote
quote-append s rest = ap (◌∷◌ 34) (append_assoc (quote_body s) (34 ∷ []) rest)

-- Only plain bytes, which no escape begins with.
abbrev pub AllPlain : Text → Type 0
AllPlain p = All (λ c. is_plain c ≡ true) p

AllPlain-Lacks : (p : Text) → AllPlain p → Lacks 34 p
AllPlain-Lacks [] h = tt
AllPlain-Lacks (c ∷ p) h = ground (arith, AllPlain-Lacks p h.1)

escape_tail-Lacks : (c : ℕ) → is_plain c ≡ false → Lacks 60 (escape_tail c)
unfolding escape_tail
escape_tail-Lacks c h = ground arith

has_prefix-quote_body : (p s : Text) → AllPlain p → has_prefix p (quote_body s) ≡ has_prefix p s
unfolding has_prefix quote_body
has_prefix-quote_body [] s h = refl
has_prefix-quote_body (d ∷ p) [] h = refl
has_prefix-quote_body (d ∷ p) (c ∷ s) h = elim (Bool-cases (is_plain c)) [
  | inl plain ↦ ground (arith, plain, has_prefix-quote_body p s h.1)
  | inr escaped ↦ ground (arith, escaped)
]

occurs-quote_body :
    (p s : Text) → AllPlain (60 ∷ p) → occurs (60 ∷ p) (quote_body s) ≡ occurs (60 ∷ p) s
unfolding occurs has_prefix quote_body
occurs-quote_body p [] h = refl
occurs-quote_body p (c ∷ s) h = elim (Bool-cases (is_plain c)) [
  | inl plain ↦
      ground (arith, plain, has_prefix-quote_body (60 ∷ p) (c ∷ s) h, occurs-quote_body p s h)
  | inr escaped ↦
      rw
        (
          escaped,
          occurs-skip 60 p (92 ∷ escape_tail c) (quote_body s)
              (omega arith, escape_tail-Lacks c escaped),
        )
        (ground (arith, escaped, occurs-quote_body p s h))
]

-- A quoted text ends its occurrences with its own quotation marks.
pub occurs-quote :
    (p s rest : Text)
    → AllPlain (60 ∷ p)
    → occurs (60 ∷ p) (quote s ++ rest) ≡ occurs (60 ∷ p) s + occurs (60 ∷ p) rest
unfolding occurs has_prefix
occurs-quote p s rest h =
    rw (quote-append s rest, occurs-append 34 60 p (quote_body s) rest (AllPlain-Lacks (60 ∷ p) h))
      (ground (arith, occurs-quote_body p s h))
