-- ===== src/Conversation/Store/Window.antt =====
-- What the in-memory store of pkg/conversation/inmem/conversation.go holds after many additions.
use Prim.Native.Nat.{zero, suc}
use temporal_go_agent_sdk.Prelude.{
  append_assoc, append-nil, ℕ, ◌+◌, ◌-◌, ◌≤◌, ◌<◌, List, [], ◌∷◌, ◌++◌, length, drop, length-append,
  length-drop, some, Text, lookup, lookup-insert, text_eq_refl, ◌≡◌, ◌≢◌, refl, sym, ap, ◌∙◌, arith,
  if◌then◌else◌,
}
use temporal_go_agent_sdk.Interfaces.{Message}
use temporal_go_agent_sdk.Conversation.Store.{InMemoryConversation, stored, keep_last, add_message}

drop-append : (k : ℕ) (xs ys : List Message) → k ≤ length xs → drop k xs ++ ys ≡ drop k (xs ++ ys)
drop-append zero xs ys h = refl
drop-append (suc k) [] ys h = absurd (omega arith)
drop-append (suc k) (x ∷ xs) ys h = drop-append k xs ys (omega arith)

abbrev the_empty : List Message
the_empty = []

drop-nil : (n : ℕ) → drop n (the_empty) ≡ the_empty
drop-nil zero = refl
drop-nil (suc n) = refl

drop-drop : (b a : ℕ) (xs : List Message) → drop a (drop b xs) ≡ drop (b + a) xs
drop-drop zero a xs = ground arith
drop-drop (suc b) a [] = ground (arith, drop-nil a, drop-nil (suc b + a))
drop-drop (suc b) a (x ∷ xs) =
    let e : suc b + a ≡ suc (b + a) = omega arith in
    drop-drop b a xs ∙ sym (ap (λ n. drop n (x ∷ xs)) e)

-- The test of `keep_last` only spares a slice of the whole.
keep_last-drop :
    (max_size : ℕ) (xs : List Message)
    → 0 < max_size
    → keep_last max_size xs ≡ drop (length xs - max_size) xs
keep_last-drop max_size xs h = ground arith

keep_last-append :
    (max_size : ℕ) (xs : List Message) (m : Message)
    → 0 < max_size
    → keep_last max_size (keep_last max_size xs ++ (m ∷ [])) ≡ keep_last max_size (xs ++ (m ∷ []))
keep_last-append max_size xs m h =
    let k = length xs - max_size in
    let all = xs ++ (m ∷ []) in
    let len : length all ≡ length xs + 1 = length-append xs (m ∷ []) in
    let left : length (drop k all) ≡ length all - k = length-drop k all in
    let places : k + (length (drop k all) - max_size) ≡ length all - max_size = omega arith in
    let inner : keep_last max_size xs ++ (m ∷ []) ≡ drop k all =
      ap (λ ys. ys ++ (m ∷ [])) (keep_last-drop max_size xs h)
      ∙ drop-append k xs (m ∷ []) (omega arith) in
    ap (keep_last max_size) inner
    ∙ keep_last-drop max_size (drop k all) h
    ∙ drop-drop k (length (drop k all) - max_size) all
    ∙ ap (λ n. drop n all) places
    ∙ sym (keep_last-drop max_size all h)

-- Additions to one conversation, in order.
abbrev pub add_messages : Text → List Message → InMemoryConversation → InMemoryConversation
add_messages id [] c = c
add_messages id (m ∷ ms) c = add_messages id ms (add_message id m c)

abbrev pub messages_in : Text → InMemoryConversation → List Message
messages_in id c = stored (lookup id c.messages)

messages_in-add_message :
    (x : ℕ) (id : Text) (m : Message) (c : InMemoryConversation)
    → messages_in (x ∷ id) (add_message (x ∷ id) m c)
      ≡ keep_last c.max_size (messages_in (x ∷ id) c ++ (m ∷ []))
unfolding add_message
messages_in-add_message x id m c =
    let now = keep_last c.max_size (messages_in (x ∷ id) c ++ (m ∷ [])) in
    ap stored (
      lookup-insert (x ∷ id) (x ∷ id) now c.messages
      ∙ ap (λ b. if b then some now else lookup (x ∷ id) c.messages) (text_eq_refl (x ∷ id)))

messages_in-add_all :
    (x : ℕ) (id : Text) (history ms : List Message) (c : InMemoryConversation)
    → 0 < c.max_size
    → messages_in (x ∷ id) c ≡ keep_last c.max_size history
    → messages_in (x ∷ id) (add_messages (x ∷ id) ms c) ≡ keep_last c.max_size (history ++ ms)
unfolding add_message
messages_in-add_all x id history [] c p v = v ∙ ap (keep_last c.max_size) (sym (append-nil history))
messages_in-add_all x id history (m ∷ ms) c p v =
    messages_in-add_all x id (history ++ (m ∷ [])) ms (add_message (x ∷ id) m c) p (
      messages_in-add_message x id m c
      ∙ ap (λ ys. keep_last c.max_size (ys ++ (m ∷ []))) v
      ∙ keep_last-append c.max_size history m p)
    ∙ ap (keep_last c.max_size) (append_assoc history (m ∷ []) ms)

-- The last `n` of a list, or all of it where there are no more.
abbrev pub last_messages : ℕ → List Message → List Message
last_messages n xs = drop (length xs - n) xs

-- Messages added to a conversation that holds the last messages of a history leave the last messages
-- of the longer history: as many as the size of the store, which is positive, where there are more.
pub messages_in-add_messages :
    (id : Text) (history ms : List Message) (c : InMemoryConversation)
    → id ≢ []
    → 0 < c.max_size
    → messages_in id c ≡ last_messages c.max_size history
    → messages_in id (add_messages id ms c) ≡ last_messages c.max_size (history ++ ms)
messages_in-add_messages [] history ms c h p v = absurd (h refl)
messages_in-add_messages (x ∷ id) history ms c h p v =
    messages_in-add_all x id history ms c p (v ∙ sym (keep_last-drop c.max_size history p))
    ∙ keep_last-drop c.max_size (history ++ ms) p
