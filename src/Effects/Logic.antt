-- ===== src/Effects/Logic.antt =====
-- A logic of programs: `Allowed G R P T m` when every call of `m` is permitted by `G` after the events
-- of `T` and those since, and every result satisfies `P`, for all answers that `R` admits.
use Prim.Native.Nat.{zero, suc}
use temporal_go_agent_sdk.Prelude.{ℕ, List, [], ◌∷◌, ◌≡◌, ◌⊎◌, inl, inr}
use temporal_go_agent_sdk.Effects.{Interaction, ret, call, ◌>>=◌, run_all, step_at, interleave}

-- A call with its answer; a trace has the last one first.
abbrev pub Event : (C : Type 0) → (C → Type 0) → Type 0
Event C X = (q : C) × X q

abbrev pub Known : {C : Type 0} {X : C → Type 0} → Event C X → List (Event C X) → Type 0
Known e [] = ⊥
Known e (d ∷ ds) = (e ≡ d) ⊎ Known e ds

abbrev pub Extends : {C : Type 0} {X : C → Type 0} → List (Event C X) → List (Event C X) → Type 0
Extends {C} {X} old new = (e : Event C X) → Known e old → Known e new

pub Extends-refl : {C : Type 0} {X : C → Type 0} (t : List (Event C X)) → Extends t t
Extends-refl t e k = k

pub Extends-one :
    {C : Type 0} {X : C → Type 0} (d : Event C X) (t : List (Event C X)) → Extends t (d ∷ t)
Extends-one d t e k = inr k

Extends-cons :
    {C : Type 0} {X : C → Type 0} (d : Event C X) (s t : List (Event C X))
    → Extends s t
    → Extends (d ∷ s) (d ∷ t)
Extends-cons d s t h e (inl p) = inl p
Extends-cons d s t h e (inr k) = inr (h e k)

abbrev pub Allowed :
    {C : Type 0} {X : C → Type 0} {A : Type 0}
    → (List (Event C X) → C → Type 0)
    → ((q : C) → X q → Type 0)
    → (A → Type 0)
    → List (Event C X)
    → Interaction C X A
    → Type 0
Allowed G R P t (ret a) = P a
Allowed {X = X} G R P t (call q k) = G t q × ((x : X q) → R q x → Allowed G R P ((q, x) ∷ t) (k x))

-- Each program keeps its own promise about its result.
abbrev pub AllAllowed :
    {C : Type 0} {X : C → Type 0} {A : Type 0}
    → (List (Event C X) → C → Type 0)
    → ((q : C) → X q → Type 0)
    → List (A → Type 0)
    → List (Event C X)
    → List (Interaction C X A)
    → Type 0
AllAllowed G R [] t [] = Unit {0}
AllAllowed G R (P ∷ Ps) t (m ∷ ms) = Allowed G R P t m × AllAllowed G R Ps t ms
AllAllowed G R [] t (m ∷ ms) = ⊥
AllAllowed G R (P ∷ Ps) t [] = ⊥

abbrev pub AllMeet : {A : Type 0} → List (A → Type 0) → List A → Type 0
AllMeet [] [] = Unit {0}
AllMeet (P ∷ Ps) (a ∷ tl) = P a × AllMeet Ps tl
AllMeet [] (a ∷ tl) = ⊥
AllMeet (P ∷ Ps) [] = ⊥

-- What is permitted stays permitted as the trace grows.
abbrev pub IsMonotone : {C : Type 0} {X : C → Type 0} → (List (Event C X) → C → Type 0) → Type 0
IsMonotone {C} {X} G = (s t : List (Event C X)) (q : C) → Extends s t → G s q → G t q

module _ {C : Type 0} {X : C → Type 0} (G : List (Event C X) → C → Type 0)
    (R : (q : C) → X q → Type 0) where
  pub Allowed-bind :
      {A B : Type 0} (P : A → Type 0) (S : B → Type 0) (t : List (Event C X))
      (m : Interaction C X A) (f : A → Interaction C X B)
      → Allowed G R P t m
      → ((u : List (Event C X)) → Extends t u → (a : A) → P a → Allowed G R S u (f a))
      → Allowed G R S t (m >>= f)
  Allowed-bind P S t (ret a) f h k = k t (Extends-refl t) a h
  Allowed-bind P S t (call q c) f h k = (
    h.0,
    λ x r.
        Allowed-bind P S ((q, x) ∷ t) (c x) f (h.1 x r) (λ u s a p. k u (λ e w. s e (inr w)) a p),
  )

  module _ (mono : IsMonotone G) {A : Type 0} where
    pub Allowed-extend :
        (P : A → Type 0) (s t : List (Event C X)) (m : Interaction C X A)
        → Extends s t
        → Allowed G R P s m
        → Allowed G R P t m
    Allowed-extend P s t (ret a) e h = h
    Allowed-extend P s t (call q k) e h = (
      mono s t q e h.0,
      λ x r. Allowed-extend P ((q, x) ∷ s) ((q, x) ∷ t) (k x) (Extends-cons (q, x) s t e) (h.1 x r),
    )

    pub AllAllowed-extend :
        (Ps : List (A → Type 0)) (s t : List (Event C X)) (ms : List (Interaction C X A))
        → Extends s t
        → AllAllowed G R Ps s ms
        → AllAllowed G R Ps t ms
    AllAllowed-extend [] s t [] e h = h
    AllAllowed-extend (P ∷ Ps) s t (m ∷ ms) e h =
        (Allowed-extend P s t m e h.0, AllAllowed-extend Ps s t ms e h.1)
    AllAllowed-extend [] s t (m ∷ ms) e h = h
    AllAllowed-extend (P ∷ Ps) s t [] e h = h

    pub Allowed-run_all :
        (Ps : List (A → Type 0)) (t : List (Event C X)) (ms : List (Interaction C X A))
        → AllAllowed G R Ps t ms
        → Allowed G R (AllMeet Ps) t (run_all ms)
    unfolding run_all
    Allowed-run_all [] t [] h = tt
    Allowed-run_all (P ∷ Ps) t (m ∷ ms) h = Allowed-bind P (AllMeet (P ∷ Ps)) t m _ h.0 λ u s a p.
        Allowed-bind (AllMeet Ps) (AllMeet (P ∷ Ps)) u (run_all ms) _
          (Allowed-run_all Ps u ms (AllAllowed-extend Ps t u ms s h.1)) λ v w tl ps. (p, ps)
    Allowed-run_all [] t (m ∷ ms) h = elim h [ ]
    Allowed-run_all (P ∷ Ps) t [] h = elim h [ ]

    Allowed-step_at :
        {B : Type 0} (S : B → Type 0) (i : ℕ) (Ps : List (A → Type 0)) (t : List (Event C X))
        (ms : List (Interaction C X A)) (rest : List (Interaction C X A) → Interaction C X B)
        → AllAllowed G R Ps t ms
        → ((u : List (Event C X))
            → Extends t u
            → (ns : List (Interaction C X A)) → AllAllowed G R Ps u ns
            → Allowed G R S u (rest ns))
        → Allowed G R S t (step_at i ms rest)
    unfolding step_at
    Allowed-step_at S i [] t [] rest h k = k t (Extends-refl t) [] tt
    Allowed-step_at S zero (P ∷ Ps) t (ret a ∷ ms) rest h k = k t (Extends-refl t) (ret a ∷ ms) h
    Allowed-step_at S zero (P ∷ Ps) t (call q c ∷ ms) rest h k = (
      h.0.0,
      λ x r.
          k ((q, x) ∷ t) (Extends-one (q, x) t) (c x ∷ ms)
            (h.0.1 x r, AllAllowed-extend Ps t ((q, x) ∷ t) ms (Extends-one (q, x) t) h.1),
    )
    Allowed-step_at S (suc i) (P ∷ Ps) t (m ∷ ms) rest h k =
        Allowed-step_at S i Ps t ms _ h.1
          (λ u s ns hs. k u s (m ∷ ns) (Allowed-extend P t u m s h.0, hs))
    Allowed-step_at S i [] t (m ∷ ms) rest h k = elim h [ ]
    Allowed-step_at S i (P ∷ Ps) t [] rest h k = elim h [ ]

    pub Allowed-interleave :
        (is : List ℕ) (Ps : List (A → Type 0)) (t : List (Event C X))
        (ms : List (Interaction C X A))
        → AllAllowed G R Ps t ms
        → Allowed G R (AllMeet Ps) t (interleave is ms)
    unfolding interleave
    Allowed-interleave [] Ps t ms h = Allowed-run_all Ps t ms h
    Allowed-interleave (i ∷ is) Ps t ms h =
        Allowed-step_at (AllMeet Ps) i Ps t ms _ h (λ u s ns hs. Allowed-interleave is Ps u ns hs)

pub Allowed-weaken :
    {C : Type 0} {X : C → Type 0} {A : Type 0} (G H : List (Event C X) → C → Type 0)
    (R : (q : C) → X q → Type 0) (P : A → Type 0) (m : Interaction C X A) (t : List (Event C X))
    → ((u : List (Event C X)) (q : C) → G u q → H u q)
    → Allowed G R P t m
    → Allowed H R P t m
Allowed-weaken G H R P (ret a) t w h = h
Allowed-weaken G H R P (call q k) t w h =
    (w t q h.0, λ x r. Allowed-weaken G H R P (k x) ((q, x) ∷ t) w (h.1 x r))
