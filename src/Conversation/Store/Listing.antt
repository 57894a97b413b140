-- ===== src/Conversation/Store/Listing.antt =====
-- What `ListMessages` of pkg/conversation/inmem/conversation.go returns.
use temporal_go_agent_sdk.Prelude.{ℕ, ◌≤◌, ◌<◌, ◌-◌, List, [], length, take, drop, pos}
use temporal_go_agent_sdk.Interfaces.{MessageRole, Message}
use temporal_go_agent_sdk.Conversation.Store.Roles.{IsSelection}
use temporal_go_agent_sdk.Conversation.Store.{Listed, ListMessagesOptions, listed, panicked}

abbrev no_messages : List Message
no_messages = []

-- The messages that a listing is about, before the choice of roles: the last `l` of those that are
-- left without the last `o`.
abbrev pub window : ℕ → ℕ → List Message → List Message
window o l msgs = drop (length msgs - o - l) (take (length msgs - o) msgs)

abbrev pub options_of : ℕ → ℕ → List MessageRole → ListMessagesOptions
options_of o l roles = record { limit = pos l; offset = pos o; roles = roles }

-- A listing is the chosen messages of the window, where the offset is within the stored messages, and
-- a panic where it is not.
abbrev pub IsListing : ℕ → ℕ → List MessageRole → List Message → Listed → Type 0
IsListing o l roles msgs (listed found) =
    (o ≤ length msgs) × IsSelection roles (window o l msgs) found
IsListing o l roles msgs panicked = length msgs < o
