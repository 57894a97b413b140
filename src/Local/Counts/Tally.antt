-- ===== src/Local/Counts/Tally.antt =====
-- How many calls of the model a program makes for the agent of a given name, beside what it returns.
-- Everything else that the loop of internal/runtime/local/agent_loop.go does makes none.
use Prim.Native.Nat.{zero, suc}
use temporal_go_agent_sdk.Prelude.{
  ℕ, Bool, true, false, List, [], ◌∷◌, Text, text_eq, ◌≡◌, refl, ap, sym, subst, Result, ok, err,
  if◌then◌else◌,
}
use temporal_go_agent_sdk.Tools.Failure.{Failure}
use temporal_go_agent_sdk.Effects.{and_then, run_all, step_at, interleave}
use temporal_go_agent_sdk.Local.Types.{
  Call, Answer, new_id, llm, authorize, execute, emit, register, unregister, handle, await,
  fetch_messages, add_message, recall, retrieve, store_memory, schedule,
}
use temporal_go_agent_sdk.Local.Program.{Program, ret, call, ◌>>=◌}
use temporal_go_agent_sdk.Local.Program.Logic.{Event, Allowed}

module _ (name : Text) where
  -- One call more, if the model is called for that agent.
  abbrev pub tally : Call → ℕ → ℕ
  tally (llm i) n = if text_eq i.agent_name name then suc n else n
  tally _ n = n

  -- After `n` such calls, whatever the answers, the program ends with a number of them and a result
  -- that are related so.
  abbrev pub Tallied : {A : Type 0} → (ℕ → A → Type 0) → ℕ → Program A → Type 0
  Tallied P n (ret a) = P n a
  Tallied P n (call q k) = (x : Answer q) → Tallied P (tally q n) (k x)

  abbrev pub IsSilentCall : Call → Type 0
  IsSilentCall (llm i) = text_eq i.agent_name name ≡ false
  IsSilentCall _ = Unit {0}

  -- No such call is made.
  abbrev pub Silent : {A : Type 0} → Program A → Type 0
  Silent (ret a) = Unit {0}
  Silent (call q k) = IsSilentCall q × ((x : Answer q) → Silent (k x))

  pub Tallied-bind :
      {A B : Type 0} (P : ℕ → A → Type 0) (S : ℕ → B → Type 0) (n : ℕ) (m : Program A)
      (f : A → Program B)
      → Tallied P n m
      → ((k : ℕ) (a : A) → P k a → Tallied S k (f a))
      → Tallied S n (m >>= f)
  Tallied-bind P S n (ret a) f h k = k n a h
  Tallied-bind P S n (call q c) f h k = λ x. Tallied-bind P S (tally q n) (c x) f (h x) k

  tally_silent : (q : Call) (n : ℕ) → IsSilentCall q → tally q n ≡ n
  tally_silent (llm i) n h = ap (λ b. if b then suc n else n) h
  tally_silent (new_id) n h = refl
  tally_silent (authorize a t x) n h = refl
  tally_silent (execute a i) n h = refl
  tally_silent (emit c e) n h = refl
  tally_silent (register t) n h = refl
  tally_silent (unregister t) n h = refl
  tally_silent (handle t c) n h = refl
  tally_silent (await t c) n h = refl
  tally_silent (fetch_messages a c) n h = refl
  tally_silent (add_message a c m) n h = refl
  tally_silent (recall a s q) n h = refl
  tally_silent (retrieve a q) n h = refl
  tally_silent (store_memory a s m) n h = refl
  tally_silent (schedule k) n h = refl

  pub Silent-Tallied : {A : Type 0} (n : ℕ) (m : Program A) → Silent m → Tallied (λ k a. k ≡ n) n m
  Silent-Tallied n (ret a) h = refl
  Silent-Tallied n (call q c) h = λ x.
      subst (λ j. Tallied (λ k a. k ≡ n) j (c x)) (sym (tally_silent q n h.0))
        (Silent-Tallied n (c x) (h.1 x))

  pub Silent-bind :
      {A B : Type 0} (m : Program A) (f : A → Program B)
      → Silent m
      → ((a : A) → Silent (f a))
      → Silent (m >>= f)
  Silent-bind (ret a) f h g = g a
  Silent-bind (call q c) f h g = (h.0, λ x. Silent-bind (c x) f (h.1 x) g)

  pub Silent-if :
      {A : Type 0} (b : Bool) (m k : Program A) → Silent m → Silent k → Silent (if b then m else k)
  Silent-if true m k h g = h
  Silent-if false m k h g = g

  pub Tallied-if :
      {A : Type 0} (P : ℕ → A → Type 0) (n : ℕ) (b : Bool) (m k : Program A)
      → Tallied P n m
      → Tallied P n k
      → Tallied P n (if b then m else k)
  Tallied-if P n true m k h g = h
  Tallied-if P n false m k h g = g

  pub Tallied-and_then :
      {A B : Type 0} (S : ℕ → Result Failure B → Type 0) (n : ℕ) (r : Result Failure A)
      (f : A → Program (Result Failure B))
      → ((e : Failure) → S n (err e))
      → ((a : A) → r ≡ ok a → Tallied S n (f a))
      → Tallied S n (and_then r f)
  Tallied-and_then S n (ok a) f h k = k a refl
  Tallied-and_then S n (err e) f h k = h e

  -- A silent program with what it is known to return.
  pub Silent-returns :
      {A : Type 0} (P : A → Type 0) (t : List Event) (n j : ℕ) (m : Program A)
      → Allowed (λ u q. Unit {0}) (λ q x. Unit {0}) P t m
      → Tallied (λ k a. k ≡ j) n m
      → Tallied (λ k a. (k ≡ j) × P a) n m
  Silent-returns P t n j (ret a) h s = (s, h)
  Silent-returns P t n j (call q c) h s =
      λ x. Silent-returns P ((q, x) ∷ t) (tally q n) j (c x) (h.1 x tt) (s x)

  abbrev pub AllSilent : {A : Type 0} → List (Program A) → Type 0
  AllSilent [] = Unit {0}
  AllSilent (m ∷ ms) = Silent m × AllSilent ms

  pub Silent-run_all : {A : Type 0} (ms : List (Program A)) → AllSilent ms → Silent (run_all ms)
  unfolding run_all
  Silent-run_all [] h = tt
  Silent-run_all (m ∷ ms) h =
      Silent-bind m _ h.0 (λ a. Silent-bind (run_all ms) _ (Silent-run_all ms h.1) (λ tl. tt))

  Silent-step_at :
      {A B : Type 0} (i : ℕ) (ms : List (Program A)) (rest : List (Program A) → Program B)
      → AllSilent ms
      → ((ns : List (Program A)) → AllSilent ns → Silent (rest ns))
      → Silent (step_at i ms rest)
  unfolding step_at
  Silent-step_at i [] rest h k = k [] tt
  Silent-step_at zero (ret a ∷ ms) rest h k = k (ret a ∷ ms) h
  Silent-step_at zero (call q c ∷ ms) rest h k = (h.0.0, λ x. k (c x ∷ ms) (h.0.1 x, h.1))
  Silent-step_at (suc i) (m ∷ ms) rest h k =
      Silent-step_at i ms _ h.1 (λ ns hs. k (m ∷ ns) (h.0, hs))

  pub Silent-interleave :
      {A : Type 0} (is : List ℕ) (ms : List (Program A)) → AllSilent ms → Silent (interleave is ms)
  unfolding interleave
  Silent-interleave [] ms h = Silent-run_all ms h
  Silent-interleave (i ∷ is) ms h = Silent-step_at i ms _ h (λ ns hs. Silent-interleave is ns hs)
