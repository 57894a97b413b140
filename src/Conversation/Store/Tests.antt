-- ===== src/Conversation/Store/Tests.antt =====
-- The in-memory store of pkg/conversation/inmem/conversation.go with three messages.
use temporal_go_agent_sdk.Prelude.{List, [], ◌∷◌, ◌++◌, Text, codes, ◌≡◌, refl, arith, lookup}
use temporal_go_agent_sdk.Interfaces.{MessageRole, Message, user, assistant}
use temporal_go_agent_sdk.Conversation.Store.{InMemoryConversation}
use temporal_go_agent_sdk.Conversation.Store.Window.{
  add_messages, last_messages, messages_in, messages_in-add_messages,
}

abbrev said : MessageRole → Text → Message
said role content = record {
  role = role;
  content = content;
  tool_name = [];
  tool_call_id = [];
  tool_calls = [];
}

abbrev three_messages : List Message
three_messages = said user (codes "a") ∷ (said assistant (codes "b") ∷ (said user (codes "c") ∷ []))

abbrev small_store : InMemoryConversation
small_store = record { max_size = 2; messages = [] }

abbrev full_store : InMemoryConversation
full_store = record { max_size = 5; messages = (codes "c1", three_messages) ∷ [] }

messages_in-add_messages_example :
    messages_in (codes "c1") (add_messages (codes "c1") three_messages small_store)
    ≡ last_messages 2 ([] ++ three_messages)
unfolding lookup
messages_in-add_messages_example =
    messages_in-add_messages (codes "c1") [] three_messages small_store (λ p. cc) (omega arith) refl
