-- ===== src/Base/Approvals/Tests.antt =====
-- The approval store of internal/runtime/base/approval_store.go with two tokens.
use temporal_go_agent_sdk.Prelude.{
  List, [], ◌∷◌, ◌+◌, none, some, codes, ltb, ◌≡◌, arith, if◌then◌else◌,
}
use temporal_go_agent_sdk.Base.Approvals.{ApprovalStore, store}
use temporal_go_agent_sdk.Base.Approvals.Expiry.{
  Visit, stores, deletes, loads, cleans, visit_all, found, load-store,
}

abbrev empty_store : ApprovalStore
empty_store = record { entries = []; ttl = 10 }

abbrev visits : List Visit
visits = stores 4 (codes "a2") 2 ∷ (cleans 8 ∷ (loads 9 (codes "a") ∷ (deletes (codes "a2") ∷ [])))

load-store_example :
    found 12 (codes "a") (visit_all visits (store 3 (codes "a") 1 empty_store))
    ≡ (if ltb (3 + 10) 12 then none else some 1)
load-store_example =
    load-store 3 12 (codes "a") 1 visits empty_store
      ((λ p. cc), (omega arith, (omega arith, ((λ p. cc), tt))))
