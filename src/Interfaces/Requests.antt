-- ===== src/Interfaces/Requests.antt =====
-- Requests to a model, retrieved documents and memory records: pkg/interfaces/llm.go, retriever.go
-- and memory.go, internal/types/llm.go and tool.go. A floating-point number is its bit pattern, and
-- a time its nanoseconds: the modelled code hands both on and computes with neither.
use temporal_go_agent_sdk.Prelude.{ℕ, Bool, List, Option, Text, Dict, ℤ}
use temporal_go_agent_sdk.Interfaces.{Args, Message}

abbrev pub Float : Type 0
Float = ℕ

pub record ResponseFormat : Type 0 where
  pub format_type : Text
  pub name : Text
  pub schema : Args

pub record LlmReasoning : Type 0 where
  pub enabled : Bool
  pub effort : Text
  pub budget_tokens : ℤ

pub record LlmSampling : Type 0 where
  pub temperature : Option Float
  pub max_tokens : ℤ
  pub top_p : Option Float
  pub top_k : Option ℤ
  pub reasoning : Option LlmReasoning

pub record ToolSpec : Type 0 where
  pub name : Text
  pub description : Text
  pub parameters : Args

pub record LlmRequest : Type 0 where
  pub system_message : Text
  pub response_format : Option ResponseFormat
  pub tools : List ToolSpec
  pub messages : List Message
  pub temperature : Option Float
  pub max_tokens : ℤ
  pub top_p : Option Float
  pub top_k : Option ℤ
  pub reasoning : Option LlmReasoning

pub record Document : Type 0 where
  pub content : Text
  pub source : Text
  pub score : Float
  pub metadata : Args

pub record MemoryRecord : Type 0 where
  pub text : Text
  pub kind : Text
  pub metadata : Dict Text
  pub expires_at : ℕ
