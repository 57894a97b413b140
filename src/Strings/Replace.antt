-- ===== src/Strings/Replace.antt =====
-- When replacing a pattern leaves no occurrence of it.
use temporal_go_agent_sdk.Prelude.{
  ℕ, zero, suc, ◌-◌, ◌≡◌, ◌∙◌, ◌≢◌, refl, true, false, [], ◌∷◌, ◌++◌, arith, Text, Bool-cases, inl,
  inr, length,
}
use temporal_go_agent_sdk.Strings.{has_prefix, occurs, replace_from, replace_all}
use temporal_go_agent_sdk.Strings.Search.{Lacks, occurs-skip}

-- The pattern `q ∷ p` begins with a byte that it does not hold again, and its replacement is
-- `q ∷ x ∷ p` for another byte `x`, with which `p` does not begin.
module _ (q x : ℕ) (p : Text) (once : Lacks q p) (other : x ≢ q)
    (escapes : (b : Text) → has_prefix p (x ∷ b) ≡ false) where
  has_prefix-replace_from :
      (r s : Text)
      → Lacks q r
      → has_prefix r (replace_from (q ∷ p) (q ∷ x ∷ p) 0 s) ≡ true
      → has_prefix r s ≡ true
  unfolding has_prefix replace_from
  has_prefix-replace_from [] s h e = refl
  has_prefix-replace_from (c ∷ r) [] h e = e
  has_prefix-replace_from (c ∷ r) (d ∷ s) h e = elim (Bool-cases (has_prefix (q ∷ p) (d ∷ s))) [
    | inl found ↦ ground (arith, found)
    | inr missed ↦ ground (arith, missed, has_prefix-replace_from r s h.1)
  ]

  has_prefix-kept :
      (d : ℕ) (s : Text)
      → has_prefix (q ∷ p) (d ∷ s) ≡ false
      → has_prefix (q ∷ p) (d ∷ replace_from (q ∷ p) (q ∷ x ∷ p) 0 s) ≡ false
  unfolding has_prefix
  has_prefix-kept d s e = elim (Bool-cases (has_prefix p (replace_from (q ∷ p) (q ∷ x ∷ p) 0 s))) [
    | inl kept ↦ ground (arith, kept, has_prefix-replace_from p s once kept)
    | inr lost ↦ ground (arith, lost)
  ]

  -- The replacement itself holds no occurrence, and none begins in it.
  occurs-replacement : (b : Text) → occurs (q ∷ p) ((q ∷ x ∷ p) ++ b) ≡ occurs (q ∷ p) b
  unfolding occurs has_prefix
  occurs-replacement b = ground (arith, escapes (p ++ b), occurs-skip q p (x ∷ p) b (other, once))

  occurs-replace_from :
      (k : ℕ) (s : Text) → occurs (q ∷ p) (replace_from (q ∷ p) (q ∷ x ∷ p) k s) ≡ 0
  unfolding occurs replace_from
  occurs-replace_from k [] = refl
  occurs-replace_from (suc k) (c ∷ s) = occurs-replace_from k s
  occurs-replace_from zero (c ∷ s) = elim (Bool-cases (has_prefix (q ∷ p) (c ∷ s))) [
    | inl found ↦
        rw (found, replace_from)
          (occurs-replacement (replace_from (q ∷ p) (q ∷ x ∷ p) (length (q ∷ p) - 1) s)
            ∙ occurs-replace_from (length (q ∷ p) - 1) s)
    | inr missed ↦
        rw (missed, replace_from)
          (ground (arith, has_prefix-kept c s missed, occurs-replace_from 0 s))
  ]

  -- Nothing of the pattern is left.
  pub occurs-replace_all : (s : Text) → occurs (q ∷ p) (replace_all (q ∷ p) (q ∷ x ∷ p) s) ≡ 0
  unfolding replace_all
  occurs-replace_all s = occurs-replace_from 0 s
