-- ===== src/Base/Retriever.antt =====
-- The tools that stand for retrievers, and what they read of their arguments:
-- internal/types/retriever.go.
pub mod Names
use temporal_go_agent_sdk.Prelude.{
  ℕ, true, false, List, [], ◌∷◌, ◌++◌, Option, none, some, Text, codes, length, drop, lookup,
  Result, ok, err,
}
use temporal_go_agent_sdk.Strings.{has_prefix, trim_space}
use temporal_go_agent_sdk.Interfaces.{Args, Value, str, other}
use temporal_go_agent_sdk.Tools.Failure.{Failure, plain}

abbrev pub retriever_tool_name_prefix : Text
retriever_tool_name_prefix = codes "retriever_"

abbrev pub retriever_tool_param_query : Text
retriever_tool_param_query = codes "query"

unfoldable pub retriever_tool_name : Text → Text
unfolding trim_space
retriever_tool_name retriever_name = elim (trim_space retriever_name) [
  | [] ↦ []
  | c ∷ name ↦ retriever_tool_name_prefix ++ c ∷ name
]

abbrev pub non_empty : Text → Option Text
non_empty [] = none
non_empty (c ∷ s) = some (c ∷ s)

unfoldable pub retriever_name_from_tool_name : Text → Option Text
unfolding trim_space has_prefix
retriever_name_from_tool_name tool_name =
    let name = trim_space tool_name in
    elim (has_prefix retriever_tool_name_prefix name) [
      | true ↦ non_empty (trim_space (drop (length retriever_tool_name_prefix) name))
      | false ↦ none
    ]

abbrev pub query_required : Failure
query_required = plain (codes "retriever tool: \"query\" parameter required")

abbrev pub query_empty : Failure
query_empty = plain (codes "retriever tool: \"query\" must be non-empty")

abbrev pub query_of_text : Text → Result Failure Text
query_of_text [] = err query_empty
query_of_text (c ∷ query) = ok (c ∷ query)

abbrev pub query_of_value : Option Value → Result Failure Text
query_of_value none = err query_required
query_of_value (some (other v)) = err query_required
query_of_value (some (str t)) = query_of_text (trim_space t)

unfoldable pub retriever_tool_param_query_value : Args → Result Failure Text
unfolding trim_space lookup
retriever_tool_param_query_value args = query_of_value (lookup retriever_tool_param_query args)
