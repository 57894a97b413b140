-- ===== src/Effects/Frame.antt =====
-- How the logic of programs passes through tests and through steps that may fail.
use temporal_go_agent_sdk.Prelude.{
  Bool, true, false, List, ◌∷◌, ◌≡◌, refl, Result, ok, err, if◌then◌else◌,
}
use temporal_go_agent_sdk.Effects.{Interaction, ret, call, ◌>>=◌, and_then}
use temporal_go_agent_sdk.Effects.Yields.{IfOk}
use temporal_go_agent_sdk.Effects.Logic.{Event, Extends, Allowed, Allowed-bind}

abbrev pub Anything : {A : Type 0} → A → Type 0
Anything a = Unit {0}

module _ {C : Type 0} {X : C → Type 0} (G : List (Event C X) → C → Type 0)
    (R : (q : C) → X q → Type 0) where
  pub Allowed-if :
      {A : Type 0} (S : A → Type 0) (t : List (Event C X)) (b : Bool) (m n : Interaction C X A)
      → (b ≡ true → Allowed G R S t m)
      → (b ≡ false → Allowed G R S t n)
      → Allowed G R S t (if b then m else n)
  Allowed-if S t true m n h k = h refl
  Allowed-if S t false m n h k = k refl

  pub Allowed-imply :
      {A : Type 0} (P S : A → Type 0) (t : List (Event C X)) (m : Interaction C X A)
      → Allowed G R P t m
      → ((a : A) → P a → S a)
      → Allowed G R S t m
  Allowed-imply P S t (ret a) h k = k a h
  Allowed-imply P S t (call q c) h k =
      (h.0, λ x r. Allowed-imply P S ((q, x) ∷ t) (c x) (h.1 x r) k)

  pub Allowed-and_then :
      {E A B : Type 0} (P : A → Type 0) (S : B → Type 0) (t : List (Event C X)) (r : Result E A)
      (f : A → Interaction C X (Result E B))
      → IfOk P r
      → ((a : A) → r ≡ ok a → P a → Allowed G R (IfOk S) t (f a))
      → Allowed G R (IfOk S) t (and_then r f)
  Allowed-and_then P S t (ok a) f h k = k a refl h
  Allowed-and_then P S t (err e) f h k = tt

  -- One fallible step, and the rest.
  pub Allowed-after :
      {E A B : Type 0} (P : A → Type 0) (S : B → Type 0) (t : List (Event C X))
      (m : Interaction C X (Result E A)) (f : A → Interaction C X (Result E B))
      → Allowed G R (IfOk P) t m
      → ((u : List (Event C X)) → Extends t u → (a : A) → P a → Allowed G R (IfOk S) u (f a))
      → Allowed G R (IfOk S) t (m >>= λ r. and_then r f)
  Allowed-after P S t m f h k =
      Allowed-bind G R (IfOk P) (IfOk S) t m (λ r. and_then r f) h
        (λ u e r p. Allowed-and_then P S u r f p (λ a q. k u e a))

  -- One call, whose answer may be an error.
  pub Allowed-answer :
      {E A B : Type 0} (S : B → Type 0) (t : List (Event C X)) (r : Result E A)
      (f : A → Interaction C X (Result E B))
      → ((a : A) → ok a ≡ r → Allowed G R (IfOk S) t (f a))
      → Allowed G R (IfOk S) t (and_then r f)
  Allowed-answer S t (ok a) f k = k a refl
  Allowed-answer S t (err e) f k = tt
