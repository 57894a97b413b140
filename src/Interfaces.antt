-- ===== src/Interfaces.antt =====
-- The data that the components exchange: pkg/interfaces/conversation.go and llm.go,
-- internal/types/llm.go, tool.go and approval.go. A message's `Metadata` and `CreatedAt` are left out:
-- none of the modelled code reads or writes them. The data of requests and memories is a child.
pub mod Requests
use temporal_go_agent_sdk.Prelude.{Bool, true, false, List, Option, Text, Dict, ℤ}

pub data MessageRole : Type 0 where
  system user assistant tool reasoning : MessageRole

unfoldable pub role_eq : MessageRole → MessageRole → Bool
role_eq system system = true
role_eq user user = true
role_eq assistant assistant = true
role_eq tool tool = true
role_eq reasoning reasoning = true
role_eq _ _ = false

-- A value of `map[string]any`: a string, or anything else as the JSON text that stands for it.
pub data Value : Type 0 where
  str : Text → Value
  other : Text → Value

abbrev pub Args : Type 0
Args = Dict Value

pub record ToolCall : Type 0 where
  pub tool_call_id : Text
  pub tool_name : Text
  pub args : Args

pub record Message : Type 0 where
  pub role : MessageRole
  pub content : Text
  pub tool_name : Text
  pub tool_call_id : Text
  pub tool_calls : List ToolCall

-- Token counts are int64.
pub record LlmUsage : Type 0 where
  pub prompt_tokens : ℤ
  pub completion_tokens : ℤ
  pub total_tokens : ℤ
  pub cached_prompt_tokens : ℤ
  pub reasoning_tokens : ℤ

-- `ToolCalls` is a slice of pointers, of which some may be nil.
pub record LlmResponse : Type 0 where
  pub content : Text
  pub usage : Option LlmUsage
  pub tool_calls : List (Option ToolCall)

pub data ToolKind : Type 0 where
  native mcp a2a sub_agent retriever memory : ToolKind

-- `CountsTowardToolTelemetry`.
unfoldable pub counts_toward_tool_telemetry : ToolKind → Bool
counts_toward_tool_telemetry sub_agent = false
counts_toward_tool_telemetry a2a = false
counts_toward_tool_telemetry retriever = false
counts_toward_tool_telemetry _ = true

unfoldable pub hooks_eligible : ToolKind → Bool
hooks_eligible native = true
hooks_eligible mcp = true
hooks_eligible _ = false

-- A status is a string: the five constants, or any other text that a caller sends.
pub data ApprovalStatus : Type 0 where
  none_yet pending approved rejected unavailable : ApprovalStatus
  unknown : Text → ApprovalStatus
