-- ===== src/Base/Approvals/Expiry.antt =====
-- When a token of internal/runtime/base/approval_store.go is found.
use temporal_go_agent_sdk.Prelude.{
  ℕ, ◌+◌, ◌≤◌, true, false, List, [], ◌∷◌, Option, none, some, Text, text_eq, text_eq_iff,
  text_eq_refl, Dict, lookup, delete, lookup-insert, lookup-delete, ltb, ◌≡◌, ◌≢◌, refl, sym, ap,
  ◌∙◌, arith, inl, inr, if◌then◌else◌, Bool-cases,
}
use temporal_go_agent_sdk.Base.Approvals.{
  ApprovalEntry, ApprovalStore, store, is_expired, remove, load_entry, load, sweep, cleanup_expired,
}

-- What is left of an entry at a time.
abbrev visible : ℕ → Option ApprovalEntry → Option ApprovalEntry
visible now none = none
visible now (some e) = if is_expired now e then none else some e

abbrev channel : Option ApprovalEntry → Option ℕ
channel none = none
channel (some e) = some e.ch

abbrev pub found : ℕ → Text → ApprovalStore → Option ℕ
found now token s = (load now token s).1

lookup-sweep :
    (now : ℕ) (token : Text) (m : Dict ApprovalEntry)
    → lookup token (sweep now m) ≡ visible now (lookup token m)
unfolding lookup sweep
lookup-sweep now token [] = refl
lookup-sweep now token ((j, e) ∷ m) =
    ground (arith, lookup-delete j token (sweep now m), lookup-sweep now token m)

visible-visible :
    (t now : ℕ) (x : Option ApprovalEntry) → t ≤ now → visible now (visible t x) ≡ visible now x
visible-visible t now none h = refl
visible-visible t now (some e) h = ground arith

load_entry-channel :
    (now : ℕ) (token : Text) (s : ApprovalStore) (x : Option ApprovalEntry)
    → (load_entry now token s x).1 ≡ channel (visible now x)
load_entry-channel now token s none = refl
load_entry-channel now token s (some e) = elim (Bool-cases (is_expired now e)) [
  | inl p ↦ rw p refl
  | inr p ↦ rw p refl
]

found-visible :
    (now : ℕ) (token : Text) (s : ApprovalStore)
    → found now token s ≡ channel (visible now (lookup token s.entries))
unfolding load
found-visible now token s = load_entry-channel now token s (lookup token s.entries)

visible-delete :
    (now : ℕ) (token other : Text) (m : Dict ApprovalEntry)
    → (text_eq other token ≡ true → visible now (lookup token m) ≡ none)
    → visible now (lookup token (delete other m)) ≡ visible now (lookup token m)
visible-delete now token other m h = elim (Bool-cases (text_eq other token)) [
  | inl same ↦
      ap (visible now)
        (lookup-delete other token m ∙ ap (λ b. if b then none else lookup token m) same)
      ∙ sym (h same)
  | inr apart ↦
      ap (visible now)
        (lookup-delete other token m ∙ ap (λ b. if b then none else lookup token m) apart)
]

-- A load removes its own token at most, when that has expired.
visible-load_entry :
    (now : ℕ) (token : Text) (t : ℕ) (other : Text) (s : ApprovalStore) (x : Option ApprovalEntry)
    → t ≤ now
    → lookup other s.entries ≡ x
    → visible now (lookup token (load_entry t other s x).0.entries)
      ≡ visible now (lookup token s.entries)
unfolding remove
visible-load_entry now token t other s none h e = refl
visible-load_entry now token t other s (some x) h e = elim (Bool-cases (is_expired t x)) [
  | inr p ↦ rw p refl
  | inl p ↦ rw p (
      visible-delete now token other s.entries (λ same.
        let there : lookup token s.entries ≡ some x = ground (arith, e, text_eq_iff other token) in
        ap (visible now) there ∙ ground arith))
]

-- An operation on the store that neither stores nor deletes the token, up to a time.
pub data Visit : Type 0 where
  stores : ℕ → Text → ℕ → Visit
  deletes : Text → Visit
  loads : ℕ → Text → Visit
  cleans : ℕ → Visit

abbrev pub visit : Visit → ApprovalStore → ApprovalStore
visit (stores t token ch) s = store t token ch s
visit (deletes token) s = remove token s
visit (loads t token) s = (load t token s).0
visit (cleans t) s = (cleanup_expired t s).0

abbrev pub visit_all : List Visit → ApprovalStore → ApprovalStore
visit_all [] s = s
visit_all (v ∷ vs) s = visit_all vs (visit v s)

abbrev pub Spares : ℕ → Text → Visit → Type 0
Spares now token (stores t other ch) = other ≢ token
Spares now token (deletes other) = other ≢ token
Spares now token (loads t other) = t ≤ now
Spares now token (cleans t) = t ≤ now

abbrev pub AllSpare : ℕ → Text → List Visit → Type 0
AllSpare now token [] = Unit {0}
AllSpare now token (v ∷ vs) = Spares now token v × AllSpare now token vs

visible-visit :
    (now : ℕ) (token : Text) (v : Visit) (s : ApprovalStore)
    → Spares now token v
    → visible now (lookup token (visit v s).entries) ≡ visible now (lookup token s.entries)
unfolding store remove load cleanup_expired
visible-visit now token (stores t other ch) s h =
    let keeps : text_eq other token ≡ false = ground (arith, text_eq_iff other token) in
    ap (visible now) (
      lookup-insert other token _ s.entries
      ∙ ap
          (λ b.
            if b then some (record { ch = ch; expires_at = t + s.ttl }) else lookup token s.entries)
          keeps)
visible-visit now token (deletes other) s h =
    let keeps : text_eq other token ≡ false = ground (arith, text_eq_iff other token) in
    ap (visible now) (
      lookup-delete other token s.entries
      ∙ ap (λ b. if b then none else lookup token s.entries) keeps)
visible-visit now token (loads t other) s h =
    visible-load_entry now token t other s (lookup other s.entries) h refl
visible-visit now token (cleans t) s h =
    ap (visible now) (lookup-sweep t token s.entries)
    ∙ visible-visible t now (lookup token s.entries) h

visible-visit_all :
    (now : ℕ) (token : Text) (vs : List Visit) (s : ApprovalStore)
    → AllSpare now token vs
    → visible now (lookup token (visit_all vs s).entries) ≡ visible now (lookup token s.entries)
visible-visit_all now token [] s h = refl
visible-visit_all now token (v ∷ vs) s h =
    visible-visit_all now token vs (visit v s) h.1 ∙ visible-visit now token v s h.0

-- After a token is stored, and any loads and cleanups up to a later time, and stores and deletions of
-- other tokens, a load at that time finds the token's channel exactly as long as its time to live has
-- not passed since.
pub load-store :
    (t now : ℕ) (token : Text) (ch : ℕ) (vs : List Visit) (s : ApprovalStore)
    → AllSpare now token vs
    → found now token (visit_all vs (store t token ch s))
      ≡ (if ltb (t + s.ttl) now then none else some ch)
unfolding store
load-store t now token ch vs s h =
    let new : ApprovalEntry = record { ch = ch; expires_at = t + s.ttl } in
    found-visible now token (visit_all vs (store t token ch s))
    ∙ ap channel (
        visible-visit_all now token vs (store t token ch s) h
        ∙ ap (visible now) (
            lookup-insert token token new s.entries
            ∙ ap (λ b. if b then some new else lookup token s.entries) (text_eq_refl token)))
    ∙ ground arith
