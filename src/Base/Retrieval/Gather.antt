-- ===== src/Base/Retrieval/Gather.antt =====
-- ExecuteRetrievers of internal/runtime/base/runtime.go under any schedule, against the retrievers
-- asked one by one.
use Prim.Native.Nat.{suc}
use temporal_go_agent_sdk.Prelude.{
  arith, ℕ, ◌+◌, List, [], ◌∷◌, Text, ◌≡◌, refl, ap, subst, ◌∙◌, Result, ok, err, length, ltb, inl,
}
use temporal_go_agent_sdk.Effects.{interleave}
use temporal_go_agent_sdk.Effects.Logic.{
  Event, Known, Allowed, AllAllowed, AllMeet, IsMonotone, Allowed-bind, Allowed-interleave,
}
use temporal_go_agent_sdk.Interfaces.Requests.{Float, Document}
use temporal_go_agent_sdk.Tools.Failure.{Failure}
use temporal_go_agent_sdk.Local.Types.{RetrieverMode}
use temporal_go_agent_sdk.Hooks.{RetrieveCall}
use temporal_go_agent_sdk.Base.Retrieval.{
  Query, before_retrieve, search, after_retrieve, Reply, SearchResult, after_search, after_hooks,
  retrieve_call, run_retriever, start_all, gather, summary, execute_retrievers,
}
use temporal_go_agent_sdk.Base.Retrieval.Sections.{
  bind, finds, failures, expected, results_from, gather-sections,
}

-- A retriever is asked only what the hooks let through, and the hooks after it see only what a
-- retriever returned.
abbrev pub Follows : List (Event Query Reply) → Query → Type 0
Follows t (before_retrieve c) = Unit {0}
Follows t (search i query) =
    (c d : RetrieveCall) × ((d.query ≡ query) × Known (before_retrieve c, ok d) t)
Follows t (after_retrieve c docs) = (i : ℕ) × Known (search i c.query, ok docs) t

IsMonotone-Follows : IsMonotone Follows
IsMonotone-Follows s t (before_retrieve c) e h = tt
IsMonotone-Follows s t (search i query) e (c, d, (p, k)) =
    (c, d, (p, e (before_retrieve c, ok d) k))
IsMonotone-Follows s t (after_retrieve c docs) e (i, k) = (i, e (search i c.query, ok docs) k)

module _ (answers : (q : Query) → Reply q) (mode : RetrieverMode) (query : Text) where
  abbrev IsExpected : ℕ → Text → SearchResult → Type 0
  IsExpected i name r = r ≡ record { name = name; docs = finds answers mode query i name }

  abbrev all_expected : ℕ → List Text → List (SearchResult → Type 0)
  all_expected i [] = []
  all_expected i (name ∷ names) = IsExpected i name ∷ all_expected (suc i) names

  results_from-AllMeet :
      (i : ℕ) (names : List Text) (rs : List SearchResult)
      → AllMeet (all_expected i names) rs
      → rs ≡ results_from answers mode query i names
  results_from-AllMeet i [] [] h = refl
  results_from-AllMeet i (name ∷ names) (r ∷ rs) h =
      let e = results_from-AllMeet (suc i) names rs h.1 in let d = h.0 in cc
  results_from-AllMeet i [] (r ∷ rs) h = elim h [ ]
  results_from-AllMeet i (name ∷ names) [] h = elim h [ ]

  after_search-Allowed :
      (i : ℕ) (name : Text) (c : RetrieveCall) (r : Result Failure (List Document))
      (t : List (Event Query Reply))
      → Known (search i c.query, r) t
      → Allowed Follows
          (λ q x. x ≡ answers q)
          (λ s. s ≡ record { name = name; docs = bind r (λ docs. answers (after_retrieve c docs)) })
          t
          (after_search name c r)
  after_search-Allowed i name c (err f) t k = refl
  after_search-Allowed i name c (ok docs) t k =
      ((i, k), λ x r. ap (λ d. record { name = name; docs = d }) r)

  after_hooks-Allowed :
      (i : ℕ) (name : Text) (b : RetrieveCall) (r : Result Failure RetrieveCall)
      (t : List (Event Query Reply))
      → Known (before_retrieve b, r) t
      → Allowed Follows
          (λ q x. x ≡ answers q)
          (λ s. s ≡ record {
            name = name;
            docs =
                bind r
                  λ c. bind (answers (search i c.query)) λ docs. answers (after_retrieve c docs);
          })
          t
          (after_hooks i name r)
  after_hooks-Allowed i name b (err f) t k = refl
  after_hooks-Allowed i name b (ok c) t k = ((b, c, (refl, k)), searched)
    where
      searched :
          (x : Result Failure (List Document))
          → x ≡ answers (search i c.query)
          → Allowed Follows
              (λ q y. y ≡ answers q)
              (λ s. s ≡ record {
                name = name;
                docs = bind (answers (search i c.query)) λ docs. answers (after_retrieve c docs);
              })
              ((search i c.query, x) ∷ t)
              (after_search name c x)
      searched x p =
          subst
            (λ y.
              Allowed Follows (λ q z. z ≡ answers q)
                (λ s.
                  s ≡ record { name = name; docs = bind y λ docs. answers (after_retrieve c docs) })
                ((search i c.query, x) ∷ t) (after_search name c x))
            p (after_search-Allowed i name c x ((search i c.query, x) ∷ t) (inl refl))

  run_retriever-Allowed :
      (i : ℕ) (name : Text) (t : List (Event Query Reply))
      → Allowed Follows
          (λ q x. x ≡ answers q)
          (IsExpected i name)
          t
          (run_retriever mode query i name)
  run_retriever-Allowed i name t = (tt, hooked)
    where
      hooked :
          (x : Result Failure RetrieveCall)
          → x ≡ answers (before_retrieve (retrieve_call mode query name))
          → Allowed Follows
              (λ q y. y ≡ answers q)
              (IsExpected i name)
              ((before_retrieve (retrieve_call mode query name), x) ∷ t)
              (after_hooks i name x)
      hooked x p =
          subst
            (λ y.
              Allowed Follows (λ q z. z ≡ answers q)
                (λ s. s ≡ record {
                  name = name;
                  docs = bind y λ c.
                      bind (answers (search i c.query)) λ docs. answers (after_retrieve c docs);
                })
                ((before_retrieve (retrieve_call mode query name), x) ∷ t) (after_hooks i name x))
            p
            (after_hooks-Allowed i name (retrieve_call mode query name) x
              ((before_retrieve (retrieve_call mode query name), x) ∷ t) (inl refl))

  start_all-AllAllowed :
      (i : ℕ) (names : List Text) (t : List (Event Query Reply))
      → AllAllowed Follows
          (λ q x. x ≡ answers q)
          (all_expected i names)
          t
          (start_all mode query i names)
  start_all-AllAllowed i [] t = tt
  start_all-AllAllowed i (name ∷ names) t =
      (run_retriever-Allowed i name t, start_all-AllAllowed (suc i) names t)

none_before : (n : ℕ) → 0 + n ≡ n
none_before n = omega arith

-- Whatever order the retrievers' goroutines run in, ExecuteRetrievers gives what asking them one by
-- one gives, if hooks and retrievers answer the same question alike: the documents of each, in the
-- order of configuration, with a heading where there is more than one retriever; the number of all
-- retrievers, and of those where a hook or the search failed. It never returns an error, even when
-- all of them fail. A retriever is asked only for a query that the hooks let through, and the hooks
-- after it are given only what was found.
pub execute_retrievers-Allowed :
    (score : Float → Text) (mode : RetrieverMode) (names : List Text) (query : Text)
    (schedule : List ℕ) (answers : (q : Query) → Reply q)
    → Allowed Follows
        (λ q x. x ≡ answers q)
        (λ r. r ≡ ok (expected answers mode query score names))
        []
        (execute_retrievers score mode names query schedule)
unfolding execute_retrievers
execute_retrievers-Allowed score mode [] query schedule answers = refl
execute_retrievers-Allowed score mode (name ∷ names) query schedule answers =
    Allowed-bind Follows (λ q x. x ≡ answers q)
      (AllMeet (all_expected answers mode query 0 (name ∷ names))) _ []
      (interleave schedule (start_all mode query 0 (name ∷ names))) _
      (Allowed-interleave Follows (λ q x. x ≡ answers q) IsMonotone-Follows schedule
        (all_expected answers mode query 0 (name ∷ names)) []
        (start_all mode query 0 (name ∷ names))
        (start_all-AllAllowed answers mode query 0 (name ∷ names) []))
      (λ u e rs h.
        ap
          (λ s. ok (
            summary (length (name ∷ names))
              (gather score (ltb 1 (length (name ∷ names))) s ([], 0))))
          (results_from-AllMeet answers mode query 0 (name ∷ names) rs h)
        ∙ ap (λ g. ok (summary (length (name ∷ names)) g))
            (gather-sections answers mode query score (ltb 1 (length (name ∷ names))) 0
              (name ∷ names) [] 0)
        ∙ ap
            (λ n.
              ok
                (record (expected answers mode query score (name ∷ names)) { failed_searches = n }))
            (none_before (failures answers mode query 0 (name ∷ names))))
