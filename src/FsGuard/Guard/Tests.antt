-- ===== src/FsGuard/Guard/Tests.antt =====
-- A file system in memory, and the theorems at concrete files.
use temporal_go_agent_sdk.Prelude.{
  ℕ, ◌≤◌, ◌≡◌, ◌≢◌, ◌↔◌, refl, true, ◌||◌, [], ◌∷◌, Option, none, some, Text, text_eq, text_eq_refl,
  Dict, lookup, insert, lookup-insert, Result, ok, err, arith, codes,
}
use temporal_go_agent_sdk.FsGuard.Ranges.{max_int, LineRange, valid, covers}
use temporal_go_agent_sdk.FsGuard.Guard.Commit.{
  Contract, commit_write_observed, commit_write-refusal, commit_write-check_writable,
}
use temporal_go_agent_sdk.FsGuard.Guard.Check.{
  check_editable_iff, check_editable-mark_read_range, WasRead,
}
use temporal_go_agent_sdk.FsGuard.Guard.Invariant.{IsValid, Reach, Reach-IsValid, new-IsValid}
use temporal_go_agent_sdk.FsGuard.Guard.Invariant
use temporal_go_agent_sdk.FsGuard.Guard.{
  Filesystem, Guard, FsError, not_exist, exist, new, mark_read_range, check_editable, commit_write,
  check_writable, filesystem, not_read,
}

found : Option Text → Result FsError Text
found none = err not_exist
found (some t) = ok t

create : Dict Text → Text → Text → Option Text → Dict Text × Option FsError
create d key text none = (insert key text d, none)
create d key text (some old) = (d, some exist)

-- Paths are their own identity; the disk is a map of contents.
abbrev memory_files : Filesystem
memory_files = record {
  Disk = Dict Text;
  canonical = λ d path. ok path;
  read_file = λ d key. found (lookup key d);
  create_exclusive = λ d key new perm. create d key new (lookup key d);
  write_file_atomic = λ d key new perm. (insert key new d, none);
}

abbrev hash : Text → Text
hash content = content

create_stored_lem :
    (d : Dict Text) (key new : Text) (o : Option Text)
    → (create d key new o).1 ≡ none
    → found (lookup key (create d key new o).0) ≡ ok new
unfolding create found
create_stored_lem d key new none e = ground (arith, lookup-insert key key new d, text_eq_refl key)
create_stored_lem d key new (some old) e = cc

create_exist_lem :
    (d : Dict Text) (key new : Text) (o : Option Text)
    → (create d key new o).1 ≡ some exist
    → (create d key new o).0 ≡ d
unfolding create
create_exist_lem d key new none e = cc
create_exist_lem d key new (some old) e = refl

create_refused_lem :
    (d : Dict Text) (key old new : Text) (o : Option Text)
    → found o ≡ ok old
    → (create d key new o).1 ≡ some exist
unfolding create found
create_refused_lem d key old new none e = cc
create_refused_lem d key old new (some x) e = refl

memory_files-Contract : Contract memory_files hash
unfolding found
memory_files-Contract = record {
  create_refused = λ d key old new perm e. create_refused_lem d key old new (lookup key d) e;
  create_untouched = λ d key new perm e. create_exist_lem d key new (lookup key d) e;
  create_stored = λ d key new perm e. create_stored_lem d key new (lookup key d) e;
  write_stored = λ d key new perm e. ground (arith, lookup-insert key key new d, text_eq_refl key);
}

abbrev notes : Text
notes = codes "notes"

abbrev three_lines : Text
three_lines = codes "abc"

abbrev disk : Dict Text
disk = (notes, three_lines) ∷ []

abbrev keep : Dict Text → Dict Text
keep d = d

abbrev read_notes : Guard
read_notes = record { reads = (notes, three_lines) ∷ []; ranges = [] }

abbrev lines : ℕ → ℕ → LineRange
lines a b = record { start = a; end = b }

commit_write_observed_example :
    (current : Text) × (found (lookup notes disk) ≡ ok current)
    × (lookup notes read_notes.reads ≡ some current)
unfolding commit_write lookup found text_eq
commit_write_observed_example =
    commit_write_observed memory_files hash memory_files-Contract keep disk notes (codes "xyz") 6
      read_notes notes three_lines refl refl refl

commit_write-refusal_example :
    ((commit_write memory_files hash keep disk notes (codes "xyz") 6 new).1 ≡ new)
    × (((x : FsError) → not_read ≢ filesystem x)
        → (commit_write memory_files hash keep disk notes (codes "xyz") 6 new).0 ≡ disk)
unfolding commit_write lookup found new text_eq
commit_write-refusal_example =
    commit_write-refusal memory_files hash memory_files-Contract keep disk notes (codes "xyz") 6 new
      not_read refl

commit_write-check_writable_example :
    check_writable memory_files hash
      (commit_write memory_files hash keep disk notes (codes "xyz") 6 read_notes).0
      notes
      (commit_write memory_files hash keep disk notes (codes "xyz") 6 read_notes).1
    ≡ none
unfolding commit_write lookup found text_eq
commit_write-check_writable_example =
    commit_write-check_writable memory_files hash memory_files-Contract keep disk notes
      (codes "xyz") 6 read_notes refl refl

check_editable-mark_read_range_example :
    (check_editable memory_files hash disk notes
        (lines 1 3)
        (mark_read_range memory_files hash disk notes three_lines
          (lines 3 3 ∷ [])
          (mark_read_range memory_files hash disk notes three_lines (lines 1 2 ∷ []) new).0).0
      ≡ none)
    ↔ ((n : ℕ) → 1 ≤ n → n ≤ 3 → covers n (lines 1 2 ∷ []) || covers n (lines 3 3 ∷ []) ≡ true)
unfolding lookup found text_eq new valid max_int
check_editable-mark_read_range_example =
    check_editable-mark_read_range memory_files hash disk notes notes three_lines (lines 1 2 ∷ [])
      (lines 3 3 ∷ []) (lines 1 3) new new-IsValid refl refl refl refl refl refl

check_editable_iff_example :
    (check_editable memory_files hash disk notes (lines 2 3) new ≡ none)
    ↔ ((lookup notes new.reads ≡ some three_lines) × WasRead (lookup notes new.ranges) (lines 2 3))
unfolding lookup found text_eq valid max_int
check_editable_iff_example =
    check_editable_iff memory_files hash disk notes notes three_lines (lines 2 3) new new-IsValid
      refl refl refl

Reach-IsValid_example :
    IsValid (mark_read_range memory_files hash disk notes three_lines (lines 2 3 ∷ []) new).0
Reach-IsValid_example = Reach-IsValid memory_files hash (
    Invariant.then_step Invariant.start
      (Invariant.reading_range disk notes three_lines (lines 2 3 ∷ []) refl))
