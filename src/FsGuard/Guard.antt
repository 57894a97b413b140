-- ===== src/FsGuard/Guard.antt =====
-- The guard of pkg/tools/fsguard/fsguard.go. The file system is the interface `Filesystem` of that
-- file; its calls take the state of the disk. The content hash (SHA-256) is a parameter. A call runs
-- under the guard's mutexes, so it is one step for other guarded calls; other processes are a
-- function of the disk that acts between the re-read and the write of `commit_write`.
pub mod Check
pub mod Invariant
pub mod Commit
mod Tests
use temporal_go_agent_sdk.Prelude.{
  ℕ, Bool, true, false, not, ◌&&◌, ◌||◌, List, [], ◌∷◌, Option, none, some, Text, text_eq, Dict,
  lookup, insert, delete, Result, ok, err, if◌then◌else◌,
}
use temporal_go_agent_sdk.FsGuard.Ranges.{LineRange, valid, merge_ranges, holds_span}

-- What `errors.Is` tells apart among the errors of the file system.
pub data FsError : Type 0 where
  not_exist exist : FsError
  other : Text → FsError

pub record Filesystem : Type 1 where
  pub Disk : Type 0
  pub canonical : Disk → Text → Result FsError Text
  pub read_file : Disk → Text → Result FsError Text
  pub create_exclusive : Disk → Text → Text → ℕ → Disk × Option FsError
  pub write_file_atomic : Disk → Text → Text → ℕ → Disk × Option FsError

pub data GuardError : Type 0 where
  not_read stale region_not_read invalid_range concurrent_create : GuardError
  filesystem : FsError → GuardError

pub record Guard : Type 0 where
  pub reads : Dict Text
  pub ranges : Dict (List LineRange)

unfoldable pub new : Guard
new = record { reads = []; ranges = [] }

-- Also the state that a `Snapshot` holds: both maps, copied.
pub record Snapshot : Type 0 where
  pub reads : Dict Text
  pub ranges : Dict (List LineRange)

unfoldable pub snapshot : Guard → Snapshot
snapshot g = record { reads = g.reads; ranges = g.ranges }

unfoldable pub restore : Snapshot → Guard
restore s = record { reads = s.reads; ranges = s.ranges }

abbrev pub all_valid : List LineRange → Bool
all_valid [] = true
all_valid (r ∷ rs) = valid r && all_valid rs

abbrev pub is_some {ℓ} : {A : Type ℓ} → Option A → Bool
is_some none = false
is_some (some a) = true

abbrev pub ranges_of : Option (List LineRange) → List LineRange
ranges_of none = []
ranges_of (some rs) = rs

-- `seen && prev == h`.
abbrev pub unchanged : Option Text → Text → Bool
unchanged none h = false
unchanged (some prev) h = text_eq prev h

-- `observe` and `MarkReadRange` once the key is known.
unfoldable pub observe_key : Text → Text → Guard → Guard
observe_key key h g = record { reads = insert key h g.reads; ranges = delete key g.ranges }

unfoldable pub mark_range_key : Text → Text → List LineRange → Guard → Guard
mark_range_key key h added g =
    let same = unchanged (lookup key g.reads) h in
    let old = lookup key g.ranges in
    let existing = (if same then ranges_of old else []) in
    if same && not (is_some old) then g else record {
      reads = insert key h g.reads;
      ranges = insert key (merge_ranges existing added) g.ranges;
    }

-- The freshness test of `CheckWritable`, `CheckEditable` and `CommitWrite`.
unfoldable pub fresh : Option Text → Text → Option GuardError
fresh none h = some not_read
fresh (some observed) h = if text_eq observed h then none else some stale

-- Coverage, after freshness: no entry means that the file was observed in full.
unfoldable pub covered : Option (List LineRange) → LineRange → Option GuardError
covered none span = none
covered (some rs) span = if holds_span span rs then none else some region_not_read

unfoldable pub editable_key : Text → Text → LineRange → Guard → Option GuardError
unfolding fresh covered
editable_key key h span g = elim (fresh (lookup key g.reads) h) [
  | some e ↦ some e
  | none ↦ covered (lookup key g.ranges) span
]

module _ (fsys : Filesystem) (hash_bytes : Text → Text) where
  open fsys use {Disk, canonical, read_file, create_exclusive, write_file_atomic}

  unfoldable pub observe : Disk → Text → Text → Guard → Guard × Option GuardError
  unfolding observe_key
  observe d path content g = elim (canonical d path) [
    | err e ↦ (g, some (filesystem e))
    | ok key ↦ (observe_key key (hash_bytes content) g, none)
  ]

  unfoldable pub mark_read : Disk → Text → Text → Guard → Guard × Option GuardError
  unfolding observe
  mark_read = observe

  unfoldable pub mark_written : Disk → Text → Text → Guard → Guard × Option GuardError
  unfolding observe
  mark_written = observe

  unfoldable pub mark_read_range :
      Disk → Text → Text → List LineRange → Guard → Guard × Option GuardError
  unfolding mark_range_key
  mark_read_range d path content added g =
      if all_valid added
      then elim (canonical d path) [
        | err e ↦ (g, some (filesystem e))
        | ok key ↦ (mark_range_key key (hash_bytes content) added g, none)
      ]
      else (g, some invalid_range)

  unfoldable pub check_writable : Disk → Text → Guard → Option GuardError
  unfolding fresh
  check_writable d path g = elim (canonical d path) [
    | err e ↦ some (filesystem e)
    | ok key ↦ elim (read_file d key) [
      | err not_exist ↦ none
      | err e ↦ some (filesystem e)
      | ok current ↦ fresh (lookup key g.reads) (hash_bytes current)
    ]
  ]

  unfoldable pub check_editable : Disk → Text → LineRange → Guard → Option GuardError
  unfolding editable_key
  check_editable d path span g =
      if valid span
      then elim (canonical d path) [
        | err e ↦ some (filesystem e)
        | ok key ↦ elim (read_file d key) [
          | err not_exist ↦ none
          | err e ↦ some (filesystem e)
          | ok current ↦ editable_key key (hash_bytes current) span g
        ]
      ]
      else some invalid_range

  -- The last step of `CommitWrite`, on the outcome of the write.
  unfoldable pub record_write :
      Text → Text → Guard → Disk × Option FsError → Disk × Guard × Option GuardError
  unfolding observe_key
  record_write key content g (d, none) = (d, observe_key key (hash_bytes content) g, none)
  record_write key content g (d, some e) = (d, g, some (filesystem e))

  abbrev pub create_error : FsError → GuardError
  create_error exist = concurrent_create
  create_error not_exist = filesystem not_exist
  create_error (other t) = filesystem (other t)

  unfoldable pub record_create :
      Text → Text → Guard → Disk × Option FsError → Disk × Guard × Option GuardError
  unfolding observe_key
  record_create key content g (d, none) = (d, observe_key key (hash_bytes content) g, none)
  record_create key content g (d, some e) = (d, g, some (create_error e))

  -- `outside` is what other processes do to the disk between the re-read and the write.
  unfoldable pub commit_write :
      (Disk → Disk) → Disk → Text → Text → ℕ → Guard → Disk × Guard × Option GuardError
  unfolding fresh record_write record_create
  commit_write outside d path content perm g = elim (canonical d path) [
    | err e ↦ (d, g, some (filesystem e))
    | ok key ↦ elim (read_file d key) [
      | err not_exist ↦ record_create key content g (create_exclusive (outside d) key content perm)
      | err e ↦ (outside d, g, some (filesystem e))
      | ok current ↦ elim (fresh (lookup key g.reads) (hash_bytes current)) [
        | some e ↦ (outside d, g, some e)
        | none ↦ record_write key content g (write_file_atomic (outside d) key content perm)
      ]
    ]
  ]
