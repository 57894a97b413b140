-- ===== src/FsGuard/Guard/Invariant.antt =====
-- What every guard satisfies that its operations can produce.
use temporal_go_agent_sdk.Prelude.{
  ℕ, ◌+◌, ◌≤◌, ◌≡◌, Bool, true, false, not, ◌&&◌, List, [], ◌∷◌, Option, none, some, Text, text_eq,
  lookup, insert, lookup-insert, lookup-delete, if◌then◌else◌, All, arith, Bool-cases, Option-cases,
  Result-cases, inl, inr,
}
use temporal_go_agent_sdk.FsGuard.Ranges.{LineRange, valid}
use temporal_go_agent_sdk.FsGuard.Ranges.Normal.{IsNormal, merge_ranges-IsNormal}
use temporal_go_agent_sdk.FsGuard.Ranges.Normal
use temporal_go_agent_sdk.FsGuard.Guard.Commit.{commit_write_cases}
use temporal_go_agent_sdk.FsGuard.Guard.{
  Filesystem, Guard, FsError, new, all_valid, is_some, ranges_of, unchanged, observe_key,
  mark_range_key, observe, mark_read, mark_written, mark_read_range, snapshot, restore,
  record_write, record_create, commit_write,
}

-- Recorded ranges are in normal form, and belong to a file that was observed.
pub record IsValid (g : Guard) : Type 0 where
  pub normal : (key : Text) (rs : List LineRange) → lookup key g.ranges ≡ some rs → IsNormal rs
  pub seen :
      (key : Text) (rs : List LineRange)
      → lookup key g.ranges ≡ some rs
      → (h : Text) × (lookup key g.reads ≡ some h)

pub new-IsValid : IsValid new
unfolding new lookup
new-IsValid = record { normal = λ key rs e. cc; seen = λ key rs e. cc }

pub observe_key-IsValid : (key h : Text) (g : Guard) → IsValid g → IsValid (observe_key key h g)
unfolding observe_key
observe_key-IsValid key h g v = record {
  normal = λ k rs e. v.normal k rs (ground (arith, lookup-delete key k g.ranges, e));
  seen = λ k rs e. elim (Bool-cases (text_eq key k)) [
    | inl same ↦ (h, ground (arith, lookup-insert key k h g.reads))
    | inr other ↦
        let (h', e') = v.seen k rs (ground (arith, lookup-delete key k g.ranges)) in
        (h', ground (arith, lookup-insert key k h g.reads))
  ];
}

pub All-all_valid : (rs : List LineRange) → all_valid rs ≡ true → All Normal.IsValid rs
unfolding valid
All-all_valid [] e = tt
All-all_valid (r ∷ rs) e = ground (arith, All-all_valid rs)

StartsIn→All :
    (r : LineRange) (rs : List LineRange)
    → 1 ≤ r.start
    → All (Normal.StartsIn r) rs
    → All Normal.IsValid rs
StartsIn→All r [] h w = tt
StartsIn→All r (s ∷ rs) h w = ((omega arith, w.0.1, w.0.2), StartsIn→All r rs h w.1)

NormalFrom→All :
    (k : ℕ) (rs : List LineRange) → 1 ≤ k → Normal.NormalFrom k rs → All Normal.IsValid rs
NormalFrom→All k [] h n = tt
NormalFrom→All k (r ∷ rs) h n = (
  (omega arith, n.1, n.2),
  elim n.3 [
    | inl next ↦ NormalFrom→All (r.end + 2) rs (omega arith) next
    | inr last ↦ StartsIn→All r rs (omega arith) last.1
  ],
)

-- The ranges that a partial read keeps from before are normal.
kept-IsNormal :
    (key : Text) (g : Guard) (same : Bool)
    → IsValid g
    → IsNormal (if same then ranges_of (lookup key g.ranges) else [])
kept-IsNormal key g false v = tt
kept-IsNormal key g true v = elim (Option-cases (lookup key g.ranges)) [
  | inl e ↦ rw e tt
  | inr (rs, e) ↦ rw e (v.normal key rs e)
]

insert_ranges-IsValid :
    (key h : Text) (rs : List LineRange) (g : Guard)
    → IsValid g
    → IsNormal rs
    → IsValid (record { reads = insert key h g.reads; ranges = insert key rs g.ranges })
insert_ranges-IsValid key h rs g v n = record {
  normal = λ k qs e. elim (Bool-cases (text_eq key k)) [
    | inl same ↦ let e' : rs ≡ qs = ground (arith, lookup-insert key k rs g.ranges) in rw (← e') n
    | inr other ↦ v.normal k qs (ground (arith, lookup-insert key k rs g.ranges))
  ];
  seen = λ k qs e. elim (Bool-cases (text_eq key k)) [
    | inl same ↦ (h, ground (arith, lookup-insert key k h g.reads))
    | inr other ↦
        let (h', e') = v.seen k qs (ground (arith, lookup-insert key k rs g.ranges)) in
        (h', ground (arith, lookup-insert key k h g.reads))
  ];
}

pub mark_range_key-IsValid :
    (key h : Text) (added : List LineRange) (g : Guard)
    → all_valid added ≡ true
    → IsValid g
    → IsValid (mark_range_key key h added g)
unfolding mark_range_key
mark_range_key-IsValid key h added g a v =
    elim (Bool-cases (unchanged (lookup key g.reads) h && not (is_some (lookup key g.ranges)))) [
      | inl full ↦ rw full v
      | inr other ↦ rw other (
          insert_ranges-IsValid key h _ g v (
            merge_ranges-IsNormal _ added
              (NormalFrom→All 1 _ (omega arith)
                (kept-IsNormal key g (unchanged (lookup key g.reads) h) v))
              (All-all_valid added a)))
    ]

module _ (fsys : Filesystem) (hash_bytes : Text → Text) where
  open fsys use {Disk, canonical, read_file, create_exclusive, write_file_atomic}

  observe-IsValid :
      (d : Disk) (path content : Text) (g : Guard)
      → IsValid g
      → IsValid (observe fsys hash_bytes d path content g).0
  unfolding observe
  observe-IsValid d path content g v = elim (Result-cases (canonical d path)) [
    | inl (key, e) ↦ rw (e, observe) (observe_key-IsValid key (hash_bytes content) g v)
    | inr (x, e) ↦ rw (e, observe) v
  ]

  mark_read_range-IsValid :
      (d : Disk) (path content : Text) (added : List LineRange) (g : Guard)
      → IsValid g
      → IsValid (mark_read_range fsys hash_bytes d path content added g).0
  unfolding mark_read_range
  mark_read_range-IsValid d path content added g v = elim (Bool-cases (all_valid added)) [
    | inr bad ↦ rw bad v
    | inl good ↦ rw good (elim (Result-cases (canonical d path)) [
      | inl (key, e) ↦ rw e (mark_range_key-IsValid key (hash_bytes content) added g good v)
      | inr (x, e) ↦ rw e v
    ])
  ]

  record_create-IsValid :
      (key content : Text) (g : Guard) (r : Disk × Option FsError)
      → IsValid g
      → IsValid (record_create fsys hash_bytes key content g r).1
  unfolding record_create
  record_create-IsValid key content g (d, none) v = observe_key-IsValid key (hash_bytes content) g v
  record_create-IsValid key content g (d, some e) v = v

  record_write-IsValid :
      (key content : Text) (g : Guard) (r : Disk × Option FsError)
      → IsValid g
      → IsValid (record_write fsys hash_bytes key content g r).1
  unfolding record_write
  record_write-IsValid key content g (d, none) v = observe_key-IsValid key (hash_bytes content) g v
  record_write-IsValid key content g (d, some e) v = v

  commit_write-IsValid :
      (outside : Disk → Disk) (d : Disk) (path content : Text) (perm : ℕ) (g : Guard)
      → IsValid g
      → IsValid (commit_write fsys hash_bytes outside d path content perm g).1
  commit_write-IsValid outside d path content perm g v =
      commit_write_cases fsys hash_bytes outside d path content perm g (λ r. IsValid r.1) (λ e _. v)
        (λ key _ _. record_create-IsValid key content g _ v) (λ key e _ _ _. v)
        (λ key current e _ _ _. v) (λ key current _ _ _. record_write-IsValid key content g _ v)

  -- One call of a guard's client other than `Restore`, on any disk, with any argument.
  pub data Step (g g' : Guard) : Type 0 where
    reading :
        (d : Disk) (path content : Text)
        → g' ≡ (mark_read fsys hash_bytes d path content g).0
        → Step g g'
    reading_range :
        (d : Disk) (path content : Text) (added : List LineRange)
        → g' ≡ (mark_read_range fsys hash_bytes d path content added g).0
        → Step g g'
    writing :
        (d : Disk) (path content : Text)
        → g' ≡ (mark_written fsys hash_bytes d path content g).0
        → Step g g'
    committing :
        (outside : Disk → Disk) (d : Disk) (path content : Text) (perm : ℕ)
        → g' ≡ (commit_write fsys hash_bytes outside d path content perm g).1
        → Step g g'

  pub data Reach : Guard → Type 0 where
    start : Reach new
    then_step : {g g' : Guard} → Reach g → Step g g' → Reach g'
    -- `Restore`, on any guard, of what `Snapshot` gave of this or another one, at any time.
    restoring : {g g' : Guard} → Reach g → Reach g' → Reach (restore (snapshot g'))

  Step-IsValid : {g g' : Guard} → Step g g' → IsValid g → IsValid g'
  unfolding mark_read mark_written
  Step-IsValid {g} (reading d path content e) v = rw e (observe-IsValid d path content g v)
  Step-IsValid {g} (reading_range d path content added e) v =
      rw e (mark_read_range-IsValid d path content added g v)
  Step-IsValid {g} (writing d path content e) v = rw e (observe-IsValid d path content g v)
  Step-IsValid {g} (committing outside d path content perm e) v =
      rw e (commit_write-IsValid outside d path content perm g v)

  restore-IsValid : (g : Guard) → IsValid g → IsValid (restore (snapshot g))
  unfolding restore snapshot
  restore-IsValid g v = record { normal = v.normal; seen = v.seen }

  -- After any calls of a guard, among them `Restore` of any earlier snapshot of it or of another guard
  -- (but of no state made by hand), recorded line ranges are well formed, sorted, disjoint and
  -- non-adjacent, except that a range that ends at the largest int may stand before others that lie
  -- within it; and they stand only under files that were observed.
  pub Reach-IsValid : {g : Guard} → Reach g → IsValid g
  Reach-IsValid start = new-IsValid
  Reach-IsValid (then_step r st) = Step-IsValid st (Reach-IsValid r)
  Reach-IsValid (restoring {g} {g'} r q) = restore-IsValid g' (Reach-IsValid q)
