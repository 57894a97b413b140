-- ===== src/Conversation/Store/Roles.antt =====
-- Which messages a choice of roles leaves: `roleIn` and its use in `ListMessages` of
-- pkg/conversation/inmem/conversation.go.
use temporal_go_agent_sdk.Prelude.{
  Bool, true, false, not, ◌&&◌, ◌||◌, List, [], ◌∷◌, ◌≡◌, ◌⊎◌, inl, inr, refl, sym, ap, ◌∙◌,
  Bool-cases,
}
use temporal_go_agent_sdk.Interfaces.{
  MessageRole, system, user, assistant, tool, reasoning, role_eq, Message,
}
use temporal_go_agent_sdk.Conversation.Store.{role_in, has_roles, with_roles}

abbrev pub IsAmong : MessageRole → List MessageRole → Type 0
IsAmong role [] = ⊥
IsAmong role (r ∷ rs) = (role ≡ r) ⊎ IsAmong role rs

-- No roles ask for every message.
abbrev pub IsAsked : List MessageRole → MessageRole → Type 0
IsAsked [] role = Unit {0}
IsAsked (r ∷ rs) role = IsAmong role (r ∷ rs)

-- The messages asked for, in order, and no others.
abbrev pub IsSelection : List MessageRole → List Message → List Message → Type 0
IsSelection roles [] found = found ≡ []
IsSelection roles (m ∷ ms) found =
    (IsAsked roles m.role
      × ((rest : List Message) × ((found ≡ m ∷ rest) × IsSelection roles ms rest)))
    ⊎ ((IsAsked roles m.role → ⊥) × IsSelection roles ms found)

role_eq_refl : (a : MessageRole) → role_eq a a ≡ true
unfolding role_eq
role_eq_refl system = refl
role_eq_refl user = refl
role_eq_refl assistant = refl
role_eq_refl tool = refl
role_eq_refl reasoning = refl

role_eq_sound : (a b : MessageRole) → role_eq a b ≡ true → a ≡ b
unfolding role_eq
role_eq_sound system system h = refl
role_eq_sound system user h = cc
role_eq_sound system assistant h = cc
role_eq_sound system tool h = cc
role_eq_sound system reasoning h = cc
role_eq_sound user system h = cc
role_eq_sound user user h = refl
role_eq_sound user assistant h = cc
role_eq_sound user tool h = cc
role_eq_sound user reasoning h = cc
role_eq_sound assistant system h = cc
role_eq_sound assistant user h = cc
role_eq_sound assistant assistant h = refl
role_eq_sound assistant tool h = cc
role_eq_sound assistant reasoning h = cc
role_eq_sound tool system h = cc
role_eq_sound tool user h = cc
role_eq_sound tool assistant h = cc
role_eq_sound tool tool h = refl
role_eq_sound tool reasoning h = cc
role_eq_sound reasoning system h = cc
role_eq_sound reasoning user h = cc
role_eq_sound reasoning assistant h = cc
role_eq_sound reasoning tool h = cc
role_eq_sound reasoning reasoning h = refl

role_in-IsAmong :
    (role : MessageRole) (rs : List MessageRole) → role_in role rs ≡ true → IsAmong role rs
unfolding role_in
role_in-IsAmong role [] h = cc
role_in-IsAmong role (r ∷ rs) h = elim (Bool-cases (role_eq role r)) [
  | inl e ↦ inl (role_eq_sound role r e)
  | inr e ↦ inr (role_in-IsAmong role rs (sym (ap (λ b. b || role_in role rs) e) ∙ h))
]

IsAmong-role_in :
    (role : MessageRole) (rs : List MessageRole) → IsAmong role rs → role_in role rs ≡ true
unfolding role_in
IsAmong-role_in role [] h = elim h [ ]
IsAmong-role_in role (r ∷ rs) (inl e) = rw (← e, role_eq_refl role) refl
IsAmong-role_in role (r ∷ rs) (inr h) = elim (Bool-cases (role_eq role r)) [
  | inl e ↦ rw e refl
  | inr e ↦ rw e (IsAmong-role_in role rs h)
]

-- The test of the loop that leaves a message out.
abbrev is_left_out : List MessageRole → MessageRole → Bool
is_left_out roles role = has_roles roles && not (role_in role roles)

left_out :
    (roles : List MessageRole) (role : MessageRole)
    → is_left_out roles role ≡ true
    → IsAsked roles role
    → ⊥
left_out [] role h a = cc
left_out (r ∷ rs) role h a = let e = IsAmong-role_in role (r ∷ rs) a in cc

not_left_out :
    (roles : List MessageRole) (role : MessageRole)
    → is_left_out roles role ≡ false
    → IsAsked roles role
not_left_out [] role h = tt
not_left_out (r ∷ rs) role h = elim (Bool-cases (role_in role (r ∷ rs))) [
  | inl e ↦ role_in-IsAmong role (r ∷ rs) e
  | inr e ↦ absurd (cc)
]

pub with_roles-IsSelection :
    (roles : List MessageRole) (msgs : List Message)
    → IsSelection roles msgs (with_roles roles msgs)
unfolding with_roles
with_roles-IsSelection roles [] = refl
with_roles-IsSelection roles (m ∷ ms) = elim (Bool-cases (is_left_out roles m.role)) [
  | inl e ↦ rw e (inr (left_out roles m.role e, with_roles-IsSelection roles ms))
  | inr e ↦ rw e (
      inl (
        not_left_out roles m.role e,
        (with_roles roles ms, (refl, with_roles-IsSelection roles ms)),
      ))
]
