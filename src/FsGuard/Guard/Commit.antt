-- ===== src/FsGuard/Guard/Commit.antt =====
-- `CommitWrite`: what a write may replace, and what a refusal leaves alone.
use temporal_go_agent_sdk.Prelude.{
  ℕ, ◌≡◌, ◌≢◌, refl, ◌∙◌, Option, none, some, Text, text_eq_iff, text_eq_refl, lookup,
  lookup-insert, Result, ok, err, arith, Option-cases, Result-cases, inl, inr,
}
use temporal_go_agent_sdk.FsGuard.Guard.{
  Filesystem, Guard, GuardError, FsError, not_exist, exist, other, filesystem, observe_key,
  record_write, record_create, commit_write, check_writable, fresh,
}

module _ (fsys : Filesystem) (hash_bytes : Text → Text) where
  open fsys use {Disk, canonical, read_file, create_exclusive, write_file_atomic}

  module _ (outside : Disk → Disk) (d : Disk) (path content : Text) (perm : ℕ) (g : Guard)
      (P : Disk × Guard × Option GuardError → Type 0)
      (unresolved : (e : FsError) → canonical d path ≡ err e → P (d, g, some (filesystem e)))
      (created : (key : Text)
        → canonical d path ≡ ok key
        → read_file d key ≡ err not_exist
        → P (
            record_create fsys hash_bytes key content g
              (create_exclusive (outside d) key content perm)))
      (unreadable : (key : Text) (e : FsError)
        → canonical d path ≡ ok key
        → read_file d key ≡ err e
        → e ≢ not_exist
        → P (outside d, g, some (filesystem e)))
      (refused : (key current : Text) (e : GuardError)
        → canonical d path ≡ ok key
        → read_file d key ≡ ok current
        → fresh (lookup key g.reads) (hash_bytes current) ≡ some e
        → P (outside d, g, some e))
      (replaced : (key current : Text)
        → canonical d path ≡ ok key
        → read_file d key ≡ ok current
        → fresh (lookup key g.reads) (hash_bytes current) ≡ none
        → P (
            record_write fsys hash_bytes key content g
              (write_file_atomic (outside d) key content perm))) where
    found_cases :
        (key : Text) (r : Result FsError Text)
        → canonical d path ≡ ok key
        → read_file d key ≡ r
        → P (commit_write fsys hash_bytes outside d path content perm g)
    unfolding commit_write
    found_cases key (err not_exist) c e = rw (c, e, commit_write) (created key c e)
    found_cases key (err exist) c e = rw (c, e, commit_write) (unreadable key exist c e (λ x. cc))
    found_cases key (err (other t)) c e =
        rw (c, e, commit_write) (unreadable key (other t) c e (λ x. cc))
    found_cases key (ok current) c e =
        elim (Option-cases (fresh (lookup key g.reads) (hash_bytes current))) [
          | inl f ↦ rw (c, e, f, commit_write) (replaced key current c e f)
          | inr (x, f) ↦ rw (c, e, f, commit_write) (refused key current x c e f)
        ]

    pub commit_write_cases : P (commit_write fsys hash_bytes outside d path content perm g)
    unfolding commit_write
    commit_write_cases = elim (Result-cases (canonical d path)) [
      | inl (key, c) ↦ found_cases key (read_file d key) c refl
      | inr (e, c) ↦ rw (c, commit_write) (unresolved e c)
    ]

  -- What the comments on the interface say of the two writing calls.
  pub record Contract : Type 0 where
    pub create_refused :
        (x : Disk) (key old new : Text) (perm : ℕ)
        → read_file x key ≡ ok old
        → (create_exclusive x key new perm).1 ≡ some exist
    pub create_untouched :
        (x : Disk) (key new : Text) (perm : ℕ)
        → (create_exclusive x key new perm).1 ≡ some exist
        → (create_exclusive x key new perm).0 ≡ x
    pub create_stored :
        (x : Disk) (key new : Text) (perm : ℕ)
        → (create_exclusive x key new perm).1 ≡ none
        → read_file (create_exclusive x key new perm).0 key ≡ ok new
    pub write_stored :
        (x : Disk) (key new : Text) (perm : ℕ)
        → (write_file_atomic x key new perm).1 ≡ none
        → read_file (write_file_atomic x key new perm).0 key ≡ ok new

  record_create-none :
      (key content : Text) (g : Guard) (r : Disk × Option FsError)
      → (record_create fsys hash_bytes key content g r).2 ≡ none
      → r.1 ≡ none
  unfolding record_create
  record_create-none key content g (d, none) e = refl
  record_create-none key content g (d, some exist) e = cc
  record_create-none key content g (d, some not_exist) e = cc
  record_create-none key content g (d, some (other t)) e = cc

  fresh-none : (seen : Option Text) (h : Text) → fresh seen h ≡ none → seen ≡ some h
  unfolding fresh
  fresh-none none h e = cc
  fresh-none (some observed) h e = ground (arith, text_eq_iff observed h)

  record_create-some :
      (key content : Text) (g : Guard) (x : Disk) (r : Disk × Option FsError) (e : GuardError)
      → (r.1 ≡ some exist → r.0 ≡ x)
      → (record_create fsys hash_bytes key content g r).2 ≡ some e
      → ((record_create fsys hash_bytes key content g r).1 ≡ g)
        × (((y : FsError) → e ≢ filesystem y)
            → (record_create fsys hash_bytes key content g r).0 ≡ x)
  unfolding record_create
  record_create-some key content g x (d, none) e same h = cc
  record_create-some key content g x (d, some exist) e same h = (refl, λ own. same refl)
  record_create-some key content g x (d, some not_exist) e same h =
      (refl, λ own. absurd (own not_exist (cc)))
  record_create-some key content g x (d, some (other t)) e same h =
      (refl, λ own. absurd (own (other t) (cc)))

  record_write-some :
      (key content : Text) (g : Guard) (r : Disk × Option FsError) (e : GuardError)
      → (record_write fsys hash_bytes key content g r).2 ≡ some e
      → ((record_write fsys hash_bytes key content g r).1 ≡ g)
        × ((x : FsError) × (e ≡ filesystem x))
  unfolding record_write
  record_write-some key content g (d, none) e h = cc
  record_write-some key content g (d, some y) e h = (refl, (y, cc))

  -- A commit that succeeds on a file that exists when the write happens replaces a file that
  -- was there at the check, and whose content then had the hash that the guard had observed.
  pub commit_write_observed :
      (c : Contract) (outside : Disk → Disk) (d : Disk) (path content : Text) (perm : ℕ) (g : Guard)
      (key old : Text)
      → canonical d path ≡ ok key
      → read_file (outside d) key ≡ ok old
      → (commit_write fsys hash_bytes outside d path content perm g).2 ≡ none
      → (current : Text) × (read_file d key ≡ ok current)
        × (lookup key g.reads ≡ some (hash_bytes current))
  commit_write_observed c outside d path content perm g key old resolved there =
      commit_write_cases outside d path content perm g
        (λ r.
          r.2 ≡ none
          → (current : Text) × (read_file d key ≡ ok current)
            × (lookup key g.reads ≡ some (hash_bytes current)))
        (λ e _ h. cc)
        (λ k res _ h.
          let made = record_create-none k content g _ h in
          let same : key ≡ k = cc (resolved, res) in
          let refused = c.create_refused (outside d) key old content perm there in
          cc (same, refused, made))
        (λ k e _ _ _ h. cc) (λ k current e _ _ _ h. cc)
        (λ k current res found f h.
          let same : key ≡ k = cc (resolved, res) in
          (current, rw same found, rw same (fresh-none _ _ f)))

  -- A refused commit leaves the guard as it was; and unless the file system itself failed (the
  -- error is one of the guard's own), the disk is as the other processes left it.
  pub commit_write-refusal :
      (c : Contract) (outside : Disk → Disk) (d : Disk) (path content : Text) (perm : ℕ) (g : Guard)
      (e : GuardError)
      → (commit_write fsys hash_bytes outside d path content perm g).2 ≡ some e
      → ((commit_write fsys hash_bytes outside d path content perm g).1 ≡ g)
        × (((x : FsError) → e ≢ filesystem x)
            → (commit_write fsys hash_bytes outside d path content perm g).0 ≡ outside d)
  commit_write-refusal c outside d path content perm g e =
      commit_write_cases outside d path content perm g
        (λ r. r.2 ≡ some e → (r.1 ≡ g) × (((x : FsError) → e ≢ filesystem x) → r.0 ≡ outside d))
        (λ x _ h. (refl, λ own. absurd (own x (cc))))
        (λ k res _ h.
          record_create-some k content g (outside d) _ e
            (c.create_untouched (outside d) k content perm) h)
        (λ k x _ _ _ h. (refl, λ own. refl)) (λ k current x _ _ _ h. (refl, λ own. refl))
        (λ k current res found f h.
          let (same, failed) = record_write-some k content g _ e h in
          (same, λ own. absurd (own failed.0 failed.1)))

  lookup-observe_key : (key h : Text) (g : Guard) → lookup key (observe_key key h g).reads ≡ some h
  unfolding observe_key
  lookup-observe_key key h g = ground (arith, lookup-insert key key h g.reads, text_eq_refl key)

  stored_writable :
      (x : Disk) (path key content : Text) (g : Guard)
      → canonical x path ≡ ok key
      → read_file x key ≡ ok content
      → check_writable fsys hash_bytes x path (observe_key key (hash_bytes content) g) ≡ none
  unfolding check_writable fresh
  stored_writable x path key content g res stored =
      rw (res, stored, check_writable, lookup-observe_key key (hash_bytes content) g)
        (ground (arith, text_eq_refl (hash_bytes content)))

  record_create-writable :
      (path key content : Text) (g : Guard) (r : Disk × Option FsError)
      → (r.1 ≡ none → read_file r.0 key ≡ ok content)
      → (record_create fsys hash_bytes key content g r).2 ≡ none
      → canonical (record_create fsys hash_bytes key content g r).0 path ≡ ok key
      → check_writable fsys hash_bytes
          (record_create fsys hash_bytes key content g r).0
          path
          (record_create fsys hash_bytes key content g r).1
        ≡ none
  unfolding record_create
  record_create-writable path key content g (d, none) stored h res =
      stored_writable d path key content g res (stored refl)
  record_create-writable path key content g (d, some e) stored h res = cc

  record_write-writable :
      (path key content : Text) (g : Guard) (r : Disk × Option FsError)
      → (r.1 ≡ none → read_file r.0 key ≡ ok content)
      → (record_write fsys hash_bytes key content g r).2 ≡ none
      → canonical (record_write fsys hash_bytes key content g r).0 path ≡ ok key
      → check_writable fsys hash_bytes
          (record_write fsys hash_bytes key content g r).0
          path
          (record_write fsys hash_bytes key content g r).1
        ≡ none
  unfolding record_write
  record_write-writable path key content g (d, none) stored h res =
      stored_writable d path key content g res (stored refl)
  record_write-writable path key content g (d, some e) stored h res = cc

  -- After a commit that succeeded, and while the path still resolves as before, the same path is
  -- writable again with no further read.
  pub commit_write-check_writable :
      (c : Contract) (outside : Disk → Disk) (d : Disk) (path content : Text) (perm : ℕ) (g : Guard)
      → (commit_write fsys hash_bytes outside d path content perm g).2 ≡ none
      → canonical (commit_write fsys hash_bytes outside d path content perm g).0 path
        ≡ canonical d path
      → check_writable fsys hash_bytes
          (commit_write fsys hash_bytes outside d path content perm g).0
          path
          (commit_write fsys hash_bytes outside d path content perm g).1
        ≡ none
  commit_write-check_writable c outside d path content perm g =
      commit_write_cases outside d path content perm g
        (λ r.
          r.2 ≡ none
          → canonical r.0 path ≡ canonical d path
          → check_writable fsys hash_bytes r.0 path r.1 ≡ none)
        (λ x _ h _. cc)
        (λ k res _ h stable.
          record_create-writable path k content g _ (c.create_stored (outside d) k content perm) h
            (stable ∙ res))
        (λ k x _ _ _ h _. cc) (λ k current x _ _ _ h _. cc)
        (λ k current res found f h stable.
          record_write-writable path k content g _ (c.write_stored (outside d) k content perm) h
            (stable ∙ res))
