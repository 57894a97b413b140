-- ===== src/Strings/Trim.antt =====
-- Trimming white space twice is trimming it once.
use temporal_go_agent_sdk.Prelude.{
  ℕ, Bool, true, false, [], ◌∷◌, ◌++◌, Text, ◌≡◌, refl, ap, sym, ◌∙◌, subst, if◌then◌else◌,
}
use temporal_go_agent_sdk.Strings.{is_space, trim_left, trim_right, trim_space}

-- No byte of white space at the front.
abbrev pub StartsAtOnce : Text → Type 0
StartsAtOnce [] = Unit {0}
StartsAtOnce (c ∷ s) = is_space c ≡ false

StartsAtOnce-if :
    (c : ℕ) (s : Text) (b : Bool)
    → is_space c ≡ b
    → StartsAtOnce (trim_left s)
    → StartsAtOnce (if b then trim_left s else c ∷ s)
StartsAtOnce-if c s true p h = h
StartsAtOnce-if c s false p h = p

trim_left-StartsAtOnce : (s : Text) → StartsAtOnce (trim_left s)
unfolding trim_left
trim_left-StartsAtOnce [] = tt
trim_left-StartsAtOnce (c ∷ s) = StartsAtOnce-if c s (is_space c) refl (trim_left-StartsAtOnce s)

pub trim_left-id : (s : Text) → StartsAtOnce s → trim_left s ≡ s
unfolding trim_left
trim_left-id [] h = refl
trim_left-id (c ∷ s) h = ap (λ b. if b then trim_left s else c ∷ s) h

-- One step of `trim_right`.
abbrev kept : Bool → ℕ → Text → Text
kept b c [] = if b then [] else c ∷ []
kept b c (d ∷ t) = c ∷ d ∷ t

trim_right-kept : (c : ℕ) (s : Text) → trim_right (c ∷ s) ≡ kept (is_space c) c (trim_right s)
unfolding trim_right
trim_right-kept c s = from (trim_right s)
  where
    from :
        (r : Text)
        → (elim r [ [] ↦ if is_space c then [] else c ∷ [] | d ∷ t ↦ c ∷ d ∷ t ])
          ≡ kept (is_space c) c r
    from [] = refl
    from (d ∷ t) = refl

StartsAtOnce-kept :
    (b : Bool) (c : ℕ) (r : Text) → is_space c ≡ false → is_space c ≡ b → StartsAtOnce (kept b c r)
StartsAtOnce-kept true c [] h p = tt
StartsAtOnce-kept false c [] h p = h
StartsAtOnce-kept b c (d ∷ t) h p = h

trim_right-StartsAtOnce : (s : Text) → StartsAtOnce s → StartsAtOnce (trim_right s)
unfolding trim_right
trim_right-StartsAtOnce [] h = tt
trim_right-StartsAtOnce (c ∷ s) h =
    subst StartsAtOnce (sym (trim_right-kept c s))
      (StartsAtOnce-kept (is_space c) c (trim_right s) h refl)

trim_right-of-kept :
    (b : Bool) (c : ℕ) (r : Text)
    → is_space c ≡ b
    → trim_right r ≡ r
    → trim_right (kept b c r) ≡ kept b c r
unfolding trim_right
trim_right-of-kept true c [] p q = refl
trim_right-of-kept false c [] p q = ap (λ b. if b then [] else c ∷ []) p
trim_right-of-kept b c (d ∷ t) p q = trim_right-kept c (d ∷ t) ∙ ap (kept (is_space c) c) q

trim_right-trim_right : (s : Text) → trim_right (trim_right s) ≡ trim_right s
unfolding trim_right
trim_right-trim_right [] = refl
trim_right-trim_right (c ∷ s) =
    subst (λ t. trim_right t ≡ t) (sym (trim_right-kept c s))
      (trim_right-of-kept (is_space c) c (trim_right s) refl (trim_right-trim_right s))

pub trim_space-trim_space : (s : Text) → trim_space (trim_space s) ≡ trim_space s
unfolding trim_space
trim_space-trim_space s =
    ap trim_right (
      trim_left-id (trim_right (trim_left s))
        (trim_right-StartsAtOnce (trim_left s) (trim_left-StartsAtOnce s)))
    ∙ trim_right-trim_right (trim_left s)

-- A text that is trimmed ends at once, so what stands before it is kept.
trim_right-append :
    (p : Text) (c : ℕ) (t : Text)
    → trim_right (c ∷ t) ≡ c ∷ t
    → trim_right (p ++ c ∷ t) ≡ p ++ c ∷ t
trim_right-append [] c t h = h
trim_right-append (d ∷ p) c t h =
    trim_right-kept d (p ++ c ∷ t)
    ∙ ap (kept (is_space d) d) (trim_right-append p c t h)
    ∙ in_front p
  where
    in_front : (q : Text) → kept (is_space d) d (q ++ c ∷ t) ≡ d ∷ (q ++ c ∷ t)
    in_front [] = refl
    in_front (e ∷ q) = refl

pub trim_space-append :
    (d : ℕ) (p : Text) (c : ℕ) (t : Text)
    → is_space d ≡ false
    → trim_space (c ∷ t) ≡ c ∷ t
    → trim_space ((d ∷ p) ++ c ∷ t) ≡ (d ∷ p) ++ c ∷ t
unfolding trim_space
trim_space-append d p c t h k =
    ap trim_right (trim_left-id ((d ∷ p) ++ c ∷ t) h)
    ∙ trim_right-append (d ∷ p) c t
        (sym (ap trim_right k) ∙ trim_right-trim_right (trim_left (c ∷ t)) ∙ k)
