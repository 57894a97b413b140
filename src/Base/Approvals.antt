-- ===== src/Base/Approvals.antt =====
-- `ApprovalStore` of internal/runtime/base/approval_store.go. Times and the time to live are numbers of
-- nanoseconds, and a channel is a number that names it. Each operation takes the time of its clock
-- reading. The worker that calls `CleanupExpired` is one more caller.
pub mod Expiry
mod Tests
use temporal_go_agent_sdk.Prelude.{
  ℕ, ◌+◌, Bool, true, false, List, [], ◌∷◌, Option, none, some, Text, Dict, lookup, insert, delete,
  ltb, length, if◌then◌else◌,
}

pub record ApprovalEntry : Type 0 where
  pub ch : ℕ
  pub expires_at : ℕ

pub record ApprovalStore : Type 0 where
  pub entries : Dict ApprovalEntry
  pub ttl : ℕ

unfoldable pub new_approval_store : ℕ → ApprovalStore
new_approval_store ttl = record { entries = []; ttl = ttl }

unfoldable pub store : ℕ → Text → ℕ → ApprovalStore → ApprovalStore
store now token ch s = record s {
  entries = insert token (record { ch = ch; expires_at = now + s.ttl }) s.entries;
}

abbrev pub is_expired : ℕ → ApprovalEntry → Bool
is_expired now e = ltb e.expires_at now

unfoldable pub remove : Text → ApprovalStore → ApprovalStore
remove token s = record s { entries = delete token s.entries }

-- The channel of an entry, unless it is missing or has expired; an expired entry is removed.
abbrev pub load_entry : ℕ → Text → ApprovalStore → Option ApprovalEntry → ApprovalStore × Option ℕ
load_entry now token s none = (s, none)
load_entry now token s (some e) =
    if is_expired now e then (remove token s, none) else (s, some e.ch)

unfoldable pub load : ℕ → Text → ApprovalStore → ApprovalStore × Option ℕ
unfolding remove
load now token s = load_entry now token s (lookup token s.entries)

unfoldable pub sweep : ℕ → Dict ApprovalEntry → Dict ApprovalEntry
sweep now [] = []
sweep now ((token, e) ∷ m) =
    let rest = sweep now m in if is_expired now e then delete token rest else (token, e) ∷ rest

abbrev pub count_expired : ℕ → Dict ApprovalEntry → ℕ
count_expired now [] = 0
count_expired now ((token, e) ∷ m) =
    let rest = count_expired now m in if is_expired now e then 1 + rest else rest

unfoldable pub cleanup_expired : ℕ → ApprovalStore → ApprovalStore × ℕ
unfolding sweep
cleanup_expired now s = (record s { entries = sweep now s.entries }, count_expired now s.entries)

unfoldable pub size : ApprovalStore → ℕ
size s = length s.entries
