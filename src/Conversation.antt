-- ===== src/Conversation.antt =====
-- The in-memory conversation store: pkg/conversation/inmem/conversation.go.
pub mod Store
