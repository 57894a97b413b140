-- ===== src/Effects/Yields.antt =====
-- What a program returns, whatever the answers to its calls.
use temporal_go_agent_sdk.Prelude.{Bool, true, false, ◌≡◌, refl, Result, ok, err, if◌then◌else◌}
use temporal_go_agent_sdk.Effects.{Interaction, ret, call, ◌>>=◌, and_then}

abbrev pub Yields :
    {C : Type 0} {X : C → Type 0} {A : Type 0} → (A → Type 0) → Interaction C X A → Type 0
Yields P (ret a) = P a
Yields {X = X} P (call q k) = (x : X q) → Yields P (k x)

abbrev pub IfOk : {E A : Type 0} → (A → Type 0) → Result E A → Type 0
IfOk P (ok a) = P a
IfOk P (err e) = Unit {0}

module _ {C : Type 0} {X : C → Type 0} where
  pub Yields-bind :
      {A B : Type 0} (P : A → Type 0) (S : B → Type 0) (m : Interaction C X A)
      (f : A → Interaction C X B)
      → Yields P m
      → ((a : A) → P a → Yields S (f a))
      → Yields S (m >>= f)
  Yields-bind P S (ret a) f h k = k a h
  Yields-bind P S (call q c) f h k = λ x. Yields-bind P S (c x) f (h x) k

  pub Yields-any : {A : Type 0} (m : Interaction C X A) → Yields (λ a. Unit {0}) m
  Yields-any (ret a) = tt
  Yields-any (call q k) = λ x. Yields-any (k x)

  pub Yields-and_then :
      {E A B : Type 0} (P : A → Type 0) (S : B → Type 0) (r : Result E A)
      (f : A → Interaction C X (Result E B))
      → IfOk P r
      → ((a : A) → P a → Yields (IfOk S) (f a))
      → Yields (IfOk S) (and_then r f)
  Yields-and_then P S (ok a) f h k = k a h
  Yields-and_then P S (err e) f h k = tt

  -- After steps whose results do not matter.
  pub Yields-after :
      {E A B : Type 0} (S : B → Type 0) (m : Interaction C X (Result E A))
      (f : A → Interaction C X (Result E B))
      → ((a : A) → Yields (IfOk S) (f a))
      → Yields (IfOk S) (m >>= λ r. and_then r f)
  Yields-after S m f k =
      Yields-bind (λ r. Unit {0}) (IfOk S) m (λ r. and_then r f) (Yields-any m) (λ r u. settle r)
    where
      settle : (r : Result _ _) → Yields (IfOk S) (and_then r f)
      settle (ok a) = k a
      settle (err e) = tt

  pub Yields-if :
      {A : Type 0} (S : A → Type 0) (b : Bool) (m n : Interaction C X A)
      → (b ≡ true → Yields S m)
      → (b ≡ false → Yields S n)
      → Yields S (if b then m else n)
  Yields-if S true m n h k = h refl
  Yields-if S false m n h k = k refl
