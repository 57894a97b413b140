-- ===== src/Base/Retrieval/Tests.antt =====
-- Two retrievers, of which the first fails, under a schedule that starts with the second.
use Prim.Native.Nat.{zero, suc}
use temporal_go_agent_sdk.Prelude.{[], ◌∷◌, ◌++◌, Text, codes, ◌≡◌, refl, ok, err}
use temporal_go_agent_sdk.Effects.Logic.{Allowed}
use temporal_go_agent_sdk.Strings.{trim_space, trim_left, trim_right}
use temporal_go_agent_sdk.Tools.Failure.{plain}
use temporal_go_agent_sdk.Tools.Results.{decimal}
use temporal_go_agent_sdk.Local.Types.{prefetch}
use temporal_go_agent_sdk.Base.Execution.{format_retriever_docs}
use temporal_go_agent_sdk.Base.Retrieval.{
  Query, before_retrieve, search, after_retrieve, Reply, execute_retrievers,
}
use temporal_go_agent_sdk.Base.Retrieval.Sections.{expected}
use temporal_go_agent_sdk.Base.Retrieval.Gather.{Follows, execute_retrievers-Allowed}

abbrev answers : (q : Query) → Reply q
answers (before_retrieve c) = ok c
answers (search zero query) = err (plain (codes "down"))
answers (search (suc i) query) =
    ok ((record { content = query; source = codes "kb"; score = 0; metadata = [] }) ∷ [])
answers (after_retrieve c docs) = ok docs

abbrev text : Text
text = codes "## b" ++ (b'\n' ∷ (codes "[1] go" ++ (b'\n' ∷ codes "(source: kb, score: 0.50)")))

-- The heading and the document of the second, trimmed.
partial_context :
    expected answers prefetch (codes "go") (λ f. codes "0.50") (codes "a" ∷ codes "b" ∷ [])
    ≡ record { context = text; total_searches = 2; failed_searches = 1 }
unfolding format_retriever_docs decimal trim_space trim_left trim_right
partial_context = refl

execute_retrievers-Allowed_example :
    Allowed Follows
      (λ q x. x ≡ answers q)
      (λ r.
        r
        ≡ ok (
            expected answers prefetch
              (codes "go")
              (λ f. codes "0.50")
              (codes "a" ∷ codes "b" ∷ [])))
      []
      (execute_retrievers
        (λ f. codes "0.50")
        prefetch
        (codes "a" ∷ codes "b" ∷ [])
        (codes "go")
        (1 ∷ 0 ∷ 1 ∷ []))
execute_retrievers-Allowed_example =
    execute_retrievers-Allowed (λ f. codes "0.50") prefetch (codes "a" ∷ codes "b" ∷ [])
      (codes "go") (1 ∷ 0 ∷ 1 ∷ []) answers
