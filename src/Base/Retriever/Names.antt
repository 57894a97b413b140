-- ===== src/Base/Retriever/Names.antt =====
-- A retriever's name and the name of its tool: internal/types/retriever.go.
use temporal_go_agent_sdk.Prelude.{
  true, false, [], ◌∷◌, ◌++◌, Option, none, Text, codes, ◌≡◌, refl, ap, ◌∙◌, length, drop,
}
use temporal_go_agent_sdk.Strings.{has_prefix, trim_space, trim_left, trim_right}
use temporal_go_agent_sdk.Strings.Trim.{trim_space-trim_space, trim_space-append}
use temporal_go_agent_sdk.Base.Retriever.{
  retriever_tool_name_prefix, retriever_tool_name, non_empty, retriever_name_from_tool_name,
}

abbrev prefixed : Text → Text
prefixed [] = []
prefixed (c ∷ name) = retriever_tool_name_prefix ++ c ∷ name

abbrev behind_prefix : Text → Option Text
behind_prefix name = elim (has_prefix retriever_tool_name_prefix name) [
  | true ↦ non_empty (trim_space (drop (length retriever_tool_name_prefix) name))
  | false ↦ none
]

behind_prefix-prefixed :
    (t : Text) → trim_space t ≡ t → behind_prefix (trim_space (prefixed t)) ≡ non_empty t
unfolding has_prefix trim_space trim_left trim_right
behind_prefix-prefixed [] h = refl
behind_prefix-prefixed (c ∷ t) h =
    ap behind_prefix (trim_space-append b'r' (codes "etriever_") c t refl h) ∙ ap non_empty h

retriever_tool_name-prefixed : (name : Text) → retriever_tool_name name ≡ prefixed (trim_space name)
unfolding retriever_tool_name
retriever_tool_name-prefixed name = from (trim_space name)
  where
    from :
        (t : Text) → (elim t [ [] ↦ [] | c ∷ s ↦ retriever_tool_name_prefix ++ c ∷ s ]) ≡ prefixed t
    from [] = refl
    from (c ∷ s) = refl

-- The tool that is registered for a retriever leads back to it: from the name of the tool the
-- retriever's name is read again, without the white space around it, and a retriever whose name is
-- white space alone has no tool that leads back.
pub retriever_name_from_tool_name-retriever_tool_name :
    (name : Text)
    → retriever_name_from_tool_name (retriever_tool_name name) ≡ non_empty (trim_space name)
unfolding retriever_name_from_tool_name
retriever_name_from_tool_name-retriever_tool_name name =
    ap retriever_name_from_tool_name (retriever_tool_name-prefixed name)
    ∙ behind_prefix-prefixed (trim_space name) (trim_space-trim_space name)
