-- ===== src/Base/Retrieval/Sections.antt =====
-- What ExecuteRetrievers of internal/runtime/base/runtime.go is to give: the retrievers asked one by
-- one; and what its last loop makes of such results.
use Prim.Native.Nat.{suc}
use temporal_go_agent_sdk.Prelude.{
  append_assoc, append-nil, arith, ℕ, ◌+◌, Bool, List, [], ◌∷◌, ◌++◌, Text, ◌≡◌, ap, ◌∙◌, Result,
  ok, err, length, ltb,
}
use temporal_go_agent_sdk.Strings.{trim_space}
use temporal_go_agent_sdk.Interfaces.Requests.{Float, Document}
use temporal_go_agent_sdk.Tools.Failure.{Failure}
use temporal_go_agent_sdk.Local.Types.{RetrieverResult, RetrieverMode}
use temporal_go_agent_sdk.Base.Execution.{format_retriever_docs}
use temporal_go_agent_sdk.Base.Retrieval.{
  Query, before_retrieve, search, after_retrieve, Reply, SearchResult, retrieve_call, header,
  Gathered, gather_one, gather,
}

abbrev pub bind : {A B : Type 0} → Result Failure A → (A → Result Failure B) → Result Failure B
bind (ok a) f = f a
bind (err e) f = err e

abbrev add : Gathered → Text → ℕ → Gathered
add (text, n) more k = (text ++ more, n + k)

add-add :
    (text a b : Text) (n j k : ℕ) → add (add (text, n) a j) b k ≡ add (text, n) (a ++ b) (j + k)
add-add text a b n j k =
    let e = append_assoc text a b in let d : (n + j) + k ≡ n + (j + k) = omega arith in cc

abbrev section : (Float → Text) → Bool → Text → Result Failure (List Document) → Text
section score multiple name (err f) = []
section score multiple name (ok []) = []
section score multiple name (ok (d ∷ ds)) =
    header multiple name ++ format_retriever_docs score (d ∷ ds)

abbrev failure_count : Result Failure (List Document) → ℕ
failure_count (ok docs) = 0
failure_count (err f) = 1

gather_one-section :
    (score : Float → Text) (multiple : Bool) (name : Text) (r : Result Failure (List Document))
    (text : Text) (n : ℕ)
    → gather_one score multiple (record { name = name; docs = r }) (text, n)
      ≡ (text ++ section score multiple name r, n + failure_count r)
gather_one-section score multiple name (err f) text n =
    let e = append-nil text in let d : suc n ≡ n + 1 = omega arith in cc
gather_one-section score multiple name (ok []) text n =
    let e = append-nil text in let d : n ≡ n + 0 = omega arith in cc
gather_one-section score multiple name (ok (x ∷ xs)) text n =
    let d : n ≡ n + 0 = omega arith in
    ap (λ k. (text ++ section score multiple name (ok (x ∷ xs)), k)) d

module _ (answers : (q : Query) → Reply q) (mode : RetrieverMode) (query : Text) where
  -- What one retriever finds, asked alone.
  abbrev pub finds : ℕ → Text → Result Failure (List Document)
  finds i name =
      bind (answers (before_retrieve (retrieve_call mode query name)))
        λ c. bind (answers (search i c.query)) λ docs. answers (after_retrieve c docs)

  abbrev sections : (Float → Text) → Bool → ℕ → List Text → Text
  sections score multiple i [] = []
  sections score multiple i (name ∷ names) =
      section score multiple name (finds i name) ++ sections score multiple (suc i) names

  abbrev pub failures : ℕ → List Text → ℕ
  failures i [] = 0
  failures i (name ∷ names) = failure_count (finds i name) + failures (suc i) names

  abbrev pub expected : (Float → Text) → List Text → RetrieverResult
  expected score names = record {
    context = trim_space (sections score (ltb 1 (length names)) 0 names);
    total_searches = length names;
    failed_searches = failures 0 names;
  }

  abbrev pub results_from : ℕ → List Text → List SearchResult
  results_from i [] = []
  results_from i (name ∷ names) =
      (record { name = name; docs = finds i name }) ∷ results_from (suc i) names

  pub gather-sections :
      (score : Float → Text) (multiple : Bool) (i : ℕ) (names : List Text) (text : Text) (n : ℕ)
      → gather score multiple (results_from i names) (text, n)
        ≡ (text ++ sections score multiple i names, n + failures i names)
  unfolding gather
  gather-sections score multiple i [] text n =
      let e = append-nil text in let d : n ≡ n + 0 = omega arith in cc
  gather-sections score multiple i (name ∷ names) text n =
      ap (gather score multiple (results_from (suc i) names))
        (gather_one-section score multiple name (finds i name) text n)
      ∙ gather-sections score multiple (suc i) names
          (text ++ section score multiple name (finds i name)) (n + failure_count (finds i name))
      ∙ add-add text (section score multiple name (finds i name))
          (sections score multiple (suc i) names) n (failure_count (finds i name))
          (failures (suc i) names)
