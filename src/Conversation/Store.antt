-- ===== src/Conversation/Store.antt =====
-- `InMemoryConversation` of pkg/conversation/inmem/conversation.go. Each operation runs under the lock,
-- and is one step. Limits and offsets are far from the ends of int, so no difference wraps around.
pub mod Window
pub mod Roles
pub mod Listing
mod Tests
use temporal_go_agent_sdk.Prelude.{
  ℕ, ◌-◌, Bool, true, false, ◌&&◌, ◌||◌, not, List, [], ◌∷◌, ◌++◌, length, take, drop, Option, none,
  some, Text, Dict, lookup, insert, delete, ltb, ℤ, pos, negsuc, pos_part, ◌-ℤ◌, ltb_ℤ, positive_or,
  if◌then◌else◌,
}
use temporal_go_agent_sdk.Interfaces.{MessageRole, user, assistant, tool, role_eq, Message}

pub record InMemoryConversation : Type 0 where
  pub max_size : ℕ
  pub messages : Dict (List Message)

-- The options are the sizes given by `WithMaxSize`; the last one counts.
abbrev pub with_max_size : ℤ → List ℤ → ℤ
with_max_size size [] = size
with_max_size size (s ∷ options) = with_max_size s options

unfoldable pub new_in_memory_conversation : List ℤ → InMemoryConversation
new_in_memory_conversation options = record {
  max_size = positive_or (with_max_size (pos 100) options) 100;
  messages = [];
}

abbrev pub stored : Option (List Message) → List Message
stored none = []
stored (some msgs) = msgs

-- The last messages, where there are too many.
abbrev pub keep_last : ℕ → List Message → List Message
keep_last max_size msgs =
    if ltb 0 max_size && ltb max_size (length msgs)
    then drop (length msgs - max_size) msgs
    else msgs

unfoldable pub add_message : Text → Message → InMemoryConversation → InMemoryConversation
add_message [] msg c = c
add_message (x ∷ id) msg c = record c {
  messages =
      insert (x ∷ id) (keep_last c.max_size (stored (lookup (x ∷ id) c.messages) ++ (msg ∷ [])))
        c.messages;
}

unfoldable pub clear : Text → InMemoryConversation → InMemoryConversation
clear [] c = c
clear (x ∷ id) c = record c { messages = delete (x ∷ id) c.messages }

pub record ListMessagesOptions : Type 0 where
  pub limit : ℤ
  pub offset : ℤ
  pub roles : List MessageRole

abbrev pub default_options : ListMessagesOptions
default_options = record {
  limit = negsuc 0;
  offset = negsuc 0;
  roles = user ∷ (assistant ∷ (tool ∷ []));
}

unfoldable pub role_in : MessageRole → List MessageRole → Bool
role_in role [] = false
role_in role (r ∷ rs) = role_eq role r || role_in role rs

abbrev pub has_roles : List MessageRole → Bool
has_roles [] = false
has_roles (r ∷ rs) = true

unfoldable pub with_roles : List MessageRole → List Message → List Message
unfolding role_in
with_roles roles [] = []
with_roles roles (msg ∷ msgs) =
    let rest = with_roles roles msgs in
    if has_roles roles && not (role_in msg.role roles) then rest else msg ∷ rest

-- `panicked`: `make` with a negative capacity.
pub data Listed : Type 0 where
  listed : List Message → Listed
  panicked : Listed

abbrev pub not_negative_or : ℤ → ℤ → ℤ
not_negative_or (pos n) d = pos n
not_negative_or (negsuc n) d = d

abbrev pub first_index : ℤ → ℤ → ℤ
first_index end limit = if ltb_ℤ (end -ℤ limit) (pos 0) then pos 0 else end -ℤ limit

-- The messages from `start` up to `end`, less the roles that are not asked for.
unfoldable pub slice : ℤ → ℤ → List MessageRole → List Message → Listed
unfolding with_roles
slice start end roles msgs =
    if ltb_ℤ (end -ℤ start) (pos 0)
    then panicked
    else listed
        (with_roles roles (take (pos_part end - pos_part start) (drop (pos_part start) msgs)))

unfoldable pub list_known : ListMessagesOptions → List Message → Listed
unfolding slice
list_known lmo msgs =
    let n = pos (length msgs) in
    let end = n -ℤ not_negative_or lmo.offset (pos 0) in
    let start = first_index end (not_negative_or lmo.limit n) in
    slice start (if ltb_ℤ n end then n else end) lmo.roles msgs

unfoldable pub list_messages : Text → ListMessagesOptions → InMemoryConversation → Listed
unfolding list_known
list_messages [] lmo c = listed []
list_messages (x ∷ id) lmo c = elim (lookup (x ∷ id) c.messages) [
  | none ↦ listed []
  | some msgs ↦ list_known lmo msgs
]
