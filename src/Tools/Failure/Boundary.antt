-- ===== src/Tools/Failure/Boundary.antt =====
-- Errors that cross an activity boundary as strings: internal/runtime/base/tool_error.go.
use mathlib.Core.List.{append_assoc}
use temporal_go_agent_sdk.Prelude.{
  ◌≡◌, refl, sym, ap, Bool, true, false, [], ◌∷◌, ◌++◌, arith, Text, codes, some,
}
use temporal_go_agent_sdk.Strings.{has_prefix, contains, to_lower}
use temporal_go_agent_sdk.Tools.Failure.{
  Failure, tool_panicked, deadline_exceeded, plain, wrapped, execution, error_text, is_panicked,
  is_deadline, text_by_class, model_facing_tool_error_text, panicked_text, deadline_text,
}

-- Where a `ToolExecutionError` stands, its message is the text of the error that it wraps, as
-- `ClassifyToolError` makes it.
abbrev pub IsFaithful : Failure → Type 0
IsFaithful tool_panicked = Unit {0}
IsFaithful deadline_exceeded = Unit {0}
IsFaithful (plain t) = Unit {0}
IsFaithful (wrapped t f) = IsFaithful f
IsFaithful (execution n c message b f) = (message ≡ error_text f) × IsFaithful f

to_lower-append : (s t : Text) → to_lower (s ++ t) ≡ to_lower s ++ to_lower t
unfolding to_lower
to_lower-append [] t = refl
to_lower-append (c ∷ s) t = rw (to_lower-append s t)

contains-append : (p a b : Text) → contains p b ≡ true → contains p (a ++ b) ≡ true
unfolding contains
contains-append p [] b h = h
contains-append p (c ∷ a) b h = ground (arith, contains-append p a b h)

-- The words that come before a wrapped error's text hide none of it.
contains-lower-append :
    (p a b : Text) → contains p (to_lower b) ≡ true → contains p (to_lower (a ++ b)) ≡ true
contains-lower-append p a b h =
    rw (to_lower-append a b) (contains-append p (to_lower a) (to_lower b) h)

execution_text :
    (n message : Text)
    → codes "tool execution error: " ++ (n ++ (codes ": " ++ message))
      ≡ (codes "tool execution error: " ++ (n ++ codes ": ")) ++ message
execution_text n message =
    ap (◌++◌ (codes "tool execution error: ")) (sym (append_assoc n (codes ": ") message))

panicked_stays :
    (f : Failure)
    → IsFaithful f
    → is_panicked f ≡ true
    → contains panicked_text (to_lower (error_text f)) ≡ true
unfolding is_panicked error_text
panicked_stays tool_panicked h e = unfold contains to_lower has_prefix in refl
panicked_stays deadline_exceeded h e = cc
panicked_stays (plain t) h e = cc
panicked_stays (wrapped t f) h e =
    contains-lower-append panicked_text t (error_text f) (panicked_stays f h e)
panicked_stays (execution n c message b f) (m, h) e =
    rw (m, execution_text n (error_text f))
      (contains-lower-append panicked_text (codes "tool execution error: " ++ (n ++ codes ": "))
        (error_text f) (panicked_stays f h e))

deadline_stays :
    (f : Failure)
    → IsFaithful f
    → is_deadline f ≡ true
    → contains deadline_text (to_lower (error_text f)) ≡ true
unfolding is_deadline error_text
deadline_stays tool_panicked h e = cc
deadline_stays deadline_exceeded h e = unfold contains to_lower has_prefix in refl
deadline_stays (plain t) h e = cc
deadline_stays (wrapped t f) h e =
    contains-lower-append deadline_text t (error_text f) (deadline_stays f h e)
deadline_stays (execution n c message b f) (m, h) e =
    rw (m, execution_text n (error_text f))
      (contains-lower-append deadline_text (codes "tool execution error: " ++ (n ++ codes ": "))
        (error_text f) (deadline_stays f h e))

class_by_text :
    (p d : Bool) (msg : Text)
    → (p ≡ true → contains panicked_text msg ≡ true)
    → (d ≡ true → contains deadline_text msg ≡ true)
    → text_by_class false false msg ≡ text_by_class p d msg
unfolding text_by_class
class_by_text false false msg hp hd = refl
class_by_text true d msg hp hd = rw (hp refl, text_by_class)
class_by_text false true msg hp hd = rw (hd refl, text_by_class)

-- An error keeps its class, and so its model-facing text, when only its text crosses a boundary,
-- provided that each `ToolExecutionError` in it has the text of the error that it wraps as its
-- message, as those that `ClassifyToolError` makes have; for another message the class may be lost.
pub model_facing-error_text :
    (f : Failure)
    → IsFaithful f
    → model_facing_tool_error_text (some (plain (error_text f)))
      ≡ model_facing_tool_error_text (some f)
unfolding model_facing_tool_error_text
model_facing-error_text f h =
    class_by_text (is_panicked f) (is_deadline f) (to_lower (error_text f)) (panicked_stays f h)
      (deadline_stays f h)
