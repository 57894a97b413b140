-- ===== src/Strings/Search.antt =====
-- Occurrences of a pattern across a separator that the pattern does not hold.
use temporal_go_agent_sdk.Prelude.{ℕ, ◌+◌, ◌≡◌, ◌≢◌, refl, [], ◌∷◌, ◌++◌, All, arith, Text}
use temporal_go_agent_sdk.Strings.{has_prefix, occurs}

-- The byte does not stand in the text.
abbrev pub Lacks : ℕ → Text → Type 0
Lacks c p = All (λ d. d ≢ c) p

has_prefix-append : (c : ℕ) (p a b : Text) → Lacks c p → has_prefix p (a ++ c ∷ b) ≡ has_prefix p a
unfolding has_prefix
has_prefix-append c [] a b h = refl
has_prefix-append c (q ∷ p) [] b h = ground arith
has_prefix-append c (q ∷ p) (x ∷ a) b h = ground (arith, has_prefix-append c p a b h.1)

-- A separator splits the occurrences of a pattern that is not empty.
pub occurs-append :
    (c q : ℕ) (p a b : Text)
    → Lacks c (q ∷ p)
    → occurs (q ∷ p) (a ++ c ∷ b) ≡ occurs (q ∷ p) a + occurs (q ∷ p) b
unfolding occurs
occurs-append c q p [] b h = ground arith
occurs-append c q p (x ∷ a) b h =
    ground (arith, has_prefix-append c (q ∷ p) (x ∷ a) b h, occurs-append c q p a b h)

-- A pattern's first byte is where an occurrence begins.
pub occurs-skip : (q : ℕ) (p a b : Text) → Lacks q a → occurs (q ∷ p) (a ++ b) ≡ occurs (q ∷ p) b
unfolding occurs has_prefix
occurs-skip q p [] b h = refl
occurs-skip q p (x ∷ a) b h = ground (arith, occurs-skip q p a b h.1)
