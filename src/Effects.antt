-- ===== src/Effects.antt =====
-- Code that makes calls on its surroundings and goes on with the answers: calls of a type `C`, each
-- with the type `X` of its answer. Code that runs side by side, in goroutines or in coroutines of a
-- workflow, is one program, which takes the calls in the order of a schedule.
pub mod Logic
pub mod Yields
pub mod Frame
use Prim.Native.Nat.{zero, suc}
use temporal_go_agent_sdk.Prelude.{ℕ, List, [], ◌∷◌, Result, ok, err}

pub data Interaction (C : Type 0) (X : C → Type 0) (A : Type 0) : Type 0 where
  ret : A → Interaction C X A
  call : (q : C) → (X q → Interaction C X A) → Interaction C X A

infixl 5 ◌>>=◌ ◌>>◌
abbrev pub ◌>>=◌ :
    {C : Type 0} {X : C → Type 0} {A B : Type 0}
    → Interaction C X A
    → (A → Interaction C X B)
    → Interaction C X B
ret a >>= f = f a
call q k >>= f = call q (λ x. k x >>= f)

abbrev pub ◌>>◌ :
    {C : Type 0} {X : C → Type 0} {A B : Type 0}
    → Interaction C X A
    → Interaction C X B
    → Interaction C X B
m >> k = m >>= λ _. k

-- Goes on after a result that is no error.
abbrev pub and_then :
    {C : Type 0} {X : C → Type 0} {E A B : Type 0}
    → Result E A
    → (A → Interaction C X (Result E B))
    → Interaction C X (Result E B)
and_then (ok a) f = f a
and_then (err e) f = ret (err e)

-- Runs what is left of each program, one after the other.
unfoldable pub run_all :
    {C : Type 0} {X : C → Type 0} {A : Type 0} → List (Interaction C X A) → Interaction C X (List A)
run_all [] = ret []
run_all (m ∷ ms) = m >>= λ a. run_all ms >>= λ tl. ret (a ∷ tl)

-- The call that the program at a place makes next, put in front; the other programs keep theirs.
unfoldable pub step_at :
    {C : Type 0} {X : C → Type 0} {A B : Type 0}
    → ℕ
    → List (Interaction C X A)
    → (List (Interaction C X A) → Interaction C X B)
    → Interaction C X B
step_at i [] rest = rest []
step_at zero (ret a ∷ ms) rest = rest (ret a ∷ ms)
step_at zero (call q k ∷ ms) rest = call q (λ x. rest (k x ∷ ms))
step_at (suc i) (m ∷ ms) rest = step_at i ms (λ ns. rest (m ∷ ns))

-- All programs side by side, by a schedule; what it leaves over runs in order.
unfoldable pub interleave :
    {C : Type 0} {X : C → Type 0} {A : Type 0}
    → List ℕ
    → List (Interaction C X A)
    → Interaction C X (List A)
unfolding run_all step_at
interleave [] ms = run_all ms
interleave (i ∷ is) ms = step_at i ms (λ ns. interleave is ns)
