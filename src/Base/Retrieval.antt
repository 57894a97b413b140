-- ===== src/Base/Retrieval.antt =====
-- The retrievers that run before the first call of the model, side by side: ExecuteRetrievers of
-- internal/runtime/base/runtime.go. What the hooks around a search do together
-- (`runBeforeRetrieveHooks`, `runAfterRetrieveHooks`) is one call, and a search another; a schedule
-- says in which order the goroutines make them. Logs, metrics and spans are left out.
pub mod Sections
pub mod Gather
mod Tests
use temporal_go_agent_sdk.Prelude.{
  ℕ, suc, ◌+◌, Bool, true, false, List, [], ◌∷◌, ◌++◌, Text, codes, Result, ok, err, length, ltb,
  if◌then◌else◌,
}
use temporal_go_agent_sdk.Strings.{trim_space}
use temporal_go_agent_sdk.Effects.{Interaction, ret, call, ◌>>=◌, interleave}
use temporal_go_agent_sdk.Interfaces.Requests.{Float, Document}
use temporal_go_agent_sdk.Tools.Failure.{Failure}
use temporal_go_agent_sdk.Local.Types.{RetrieverResult, RetrieverMode}
use temporal_go_agent_sdk.Hooks.{RetrieveCall}
use temporal_go_agent_sdk.Base.Execution.{format_retriever_docs}

-- A search is asked of the retriever at a place in the configuration.
pub data Query : Type 0 where
  before_retrieve : RetrieveCall → Query
  search : ℕ → Text → Query
  after_retrieve : RetrieveCall → List Document → Query

abbrev pub Reply : Query → Type 0
Reply (before_retrieve c) = Result Failure RetrieveCall
Reply (search i query) = Result Failure (List Document)
Reply (after_retrieve c docs) = Result Failure (List Document)

abbrev pub Search : Type 0 → Type 0
Search A = Interaction Query Reply A

pub record SearchResult : Type 0 where
  pub name : Text
  pub docs : Result Failure (List Document)

abbrev pub found : Text → Result Failure (List Document) → Search SearchResult
found name docs = ret (record { name = name; docs = docs })

abbrev pub after_search : Text → RetrieveCall → Result Failure (List Document) → Search SearchResult
after_search name c (err f) = found name (err f)
after_search name c (ok docs) = call (after_retrieve c docs) (found name)

abbrev pub after_hooks : ℕ → Text → Result Failure RetrieveCall → Search SearchResult
after_hooks i name (err f) = found name (err f)
after_hooks i name (ok c) = call (search i c.query) (after_search name c)

abbrev pub retrieve_call : RetrieverMode → Text → Text → RetrieveCall
retrieve_call mode query name = record { query = query; mode = mode; retriever_name = name }

-- One goroutine.
abbrev pub run_retriever : RetrieverMode → Text → ℕ → Text → Search SearchResult
run_retriever mode query i name =
    call (before_retrieve (retrieve_call mode query name)) (after_hooks i name)

abbrev pub start_all : RetrieverMode → Text → ℕ → List Text → List (Search SearchResult)
start_all mode query i [] = []
start_all mode query i (name ∷ names) =
    run_retriever mode query i name ∷ start_all mode query (suc i) names

abbrev pub header : Bool → Text → Text
header true name = codes "## " ++ name ++ b'\n' ∷ []
header false name = []

abbrev pub Gathered : Type 0
Gathered = Text × ℕ

module _ (score : Float → Text) (multiple : Bool) where
  -- What the loop does with one result, to the text and the count so far.
  abbrev pub gather_one : SearchResult → Gathered → Gathered
  gather_one r (text, failed) = elim r.docs [
    | err f ↦ (text, suc failed)
    | ok docs ↦ elim docs [
      | [] ↦ (text, failed)
      | d ∷ ds ↦ (text ++ (header multiple r.name ++ format_retriever_docs score (d ∷ ds)), failed)
    ]
  ]

  unfoldable pub gather : List SearchResult → Gathered → Gathered
  unfolding format_retriever_docs
  gather [] acc = acc
  gather (r ∷ rs) acc = gather rs (gather_one r acc)

abbrev pub summary : ℕ → Gathered → RetrieverResult
summary total (text, failed) = record {
  context = trim_space text;
  total_searches = total;
  failed_searches = failed;
}

abbrev pub no_search : RetrieverResult
no_search = record { context = []; total_searches = 0; failed_searches = 0 }

-- The retrievers are given by their names. The error of the result is always nil.
unfoldable pub execute_retrievers :
    (Float → Text)
    → RetrieverMode
    → List Text
    → Text
    → List ℕ
    → Search (Result Failure RetrieverResult)
unfolding interleave gather trim_space
execute_retrievers score mode [] query schedule = ret (ok no_search)
execute_retrievers score mode (name ∷ names) query schedule =
    interleave schedule (start_all mode query 0 (name ∷ names)) >>= λ results. ret (
      ok (
        summary (length (name ∷ names))
          (gather score (ltb 1 (length (name ∷ names))) results ([], 0))))
