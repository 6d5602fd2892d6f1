-- ===== src/Index/Updating/Differences.antt =====
-- The changes that Store.Reconcile finds, one path at a time.
use lctk.Prelude.{
  ℕ, ◌≡◌, refl, inl, inr, Bool-cases, true, false, Option, none, some, List, [], ◌∷◌, ◌++◌, Text,
  text_eq, text_eq_iff, text_eq_refl, text_lt, if◌then◌else◌, if_cases, lookup, lookup-Missing,
  HasKeys, All, All-append, arith,
}
use lctk.Ignore.{contains}
use lctk.Inventory.Scope.{normalize_relative}
use lctk.Index.{Files, Change, digest_at}
use lctk.Index.Batch.{Workspace}
use lctk.Index.Batch.Paths.{wanted, after_change, after_changes}
use lctk.Index.Updating.{insert_change, sort_changes, writes, deletions, differences}

-- The first change of a path.
unfoldable pub find_change : Text → List Change → Option Change
find_change k [] = none
find_change k (c ∷ cs) = if text_eq c.path k then some c else find_change k cs

text_lt_irrefl : (t : Text) → text_lt t t ≡ false
unfolding text_lt
text_lt_irrefl [] = refl
text_lt_irrefl (x ∷ xs) = ground (arith, text_lt_irrefl xs)

find_change-insert_change :
    (k : Text) (c : Change) (cs : List Change)
    → find_change k (insert_change c cs) ≡ (if text_eq c.path k then some c else find_change k cs)
unfolding find_change insert_change
find_change-insert_change k c [] = ground arith
find_change-insert_change k c (d ∷ ds) = elim (Bool-cases (text_lt d.path c.path)) [
  | inl before ↦ elim (Bool-cases (text_eq c.path k)) [
    | inl same ↦ elim (Bool-cases (text_eq d.path k)) [
      | inl also ↦
          let e : c.path ≡ d.path = ground (arith, text_eq_iff c.path k, text_eq_iff d.path k) in
          absurd (ground (arith, text_lt_irrefl d.path, e, before))
      | inr other ↦ ground (arith, before, same, other, find_change-insert_change k c ds)
    ]
    | inr other ↦ ground (arith, before, other, find_change-insert_change k c ds)
  ]
  | inr after ↦ ground (arith, after)
]

find_change-sort_changes :
    (k : Text) (cs : List Change) → find_change k (sort_changes cs) ≡ find_change k cs
unfolding find_change sort_changes
find_change-sort_changes k [] = refl
find_change-sort_changes k (c ∷ cs) =
    ground (arith, find_change-insert_change k c (sort_changes cs), find_change-sort_changes k cs)

abbrev pub first_of : Option Change → Option Change → Option Change
first_of none o = o
first_of (some c) o = some c

find_change-append :
    (k : Text) (cs ds : List Change)
    → find_change k (cs ++ ds) ≡ first_of (find_change k cs) (find_change k ds)
unfolding find_change
find_change-append k [] ds = refl
find_change-append k (c ∷ cs) ds = ground (arith, find_change-append k cs ds)

abbrev pub to_write : Text → Text → Option Text → Option Change
to_write k old none = none
to_write k old (some digest) =
    if text_eq old digest
    then none
    else some (record { path = k; deleted = false; subtree = false })

abbrev pub to_delete : Text → Option Text → Option Text → Option Change
to_delete k none listed = none
to_delete k (some d) (some digest) = none
to_delete k (some d) none = some (record { path = k; deleted = true; subtree = false })

find_change-writes :
    (k : Text) (indexed listed : Files)
    → HasKeys listed
    → find_change k (writes indexed listed) ≡ to_write k (digest_at k indexed) (lookup k listed)
unfolding find_change writes lookup
find_change-writes k indexed [] h = refl
find_change-writes k indexed ((j, d) ∷ files) h = elim (Bool-cases (text_eq j k)) [
  | inl same ↦
      let e : j ≡ k = (text_eq_iff j k).0 same in
      let gone : lookup k files ≡ none = lookup-Missing k files (rw (← e) h.0) in
      rw e (ground (arith, text_eq_refl k, find_change-writes k indexed files h.1, gone))
  | inr other ↦ ground (arith, other, find_change-writes k indexed files h.1)
]

find_change-deletions :
    (k : Text) (listed files : Files)
    → find_change k (deletions listed files) ≡ to_delete k (lookup k files) (lookup k listed)
unfolding find_change deletions lookup
find_change-deletions k listed [] = refl
find_change-deletions k listed ((j, d) ∷ files) = elim (Bool-cases (text_eq j k)) [
  | inl same ↦
      let e : j ≡ k = (text_eq_iff j k).0 same in
      rw e (ground (arith, text_eq_refl k, find_change-deletions k listed files))
  | inr other ↦ ground (arith, other, find_change-deletions k listed files)
]

-- A change of one path, as Update takes it.
abbrev pub IsPlain : Change → Type 0
IsPlain c = (normalize_relative c.path ≡ some c.path) × (c.subtree ≡ false)

module _ (digest_of : Text → Text) (max_bytes : ℕ) (w : Workspace) where
  abbrev pub changed_to : Text → Option Change → Option Text → Option Text
  changed_to k none old = old
  changed_to k (some c) old = if c.deleted then none else wanted digest_of max_bytes w k

  pub after_changes-find_change :
      (k : Text) (cs : List Change) (seen : List Text) (old : Option Text)
      → All IsPlain cs
      → after_changes digest_of max_bytes w k cs seen old
        ≡ (if contains k seen then old else changed_to k (find_change k cs) old)
  unfolding after_changes after_change find_change contains
  after_changes-find_change k [] seen old h = ground arith
  after_changes-find_change k (c ∷ cs) seen old h =
      let next = after_change digest_of max_bytes w k c.path c old in
      (elim (Bool-cases (text_eq c.path k)) [
        | inl same ↦
            let e : c.path ≡ k = (text_eq_iff c.path k).0 same in
            ground (
              arith,
              e,
              same,
              h.0.0,
              h.0.1,
              after_changes-find_change k cs seen old h.1,
              after_changes-find_change k cs (c.path ∷ seen) next h.1,
            )
        | inr other ↦ ground (
          arith,
          other,
          h.0.0,
          h.0.1,
          after_changes-find_change k cs seen old h.1,
          after_changes-find_change k cs (c.path ∷ seen) next h.1,
        )
      ])

-- Paths that normalizeRelative leaves as they are.
abbrev pub HasCleanNames : Files → Type 0
HasCleanNames = All (λ f. normalize_relative f.0 ≡ some f.0)

insert_change-All :
    (P : Change → Type 0) (c : Change) (cs : List Change)
    → P c
    → All P cs
    → All P (insert_change c cs)
unfolding insert_change
insert_change-All P c [] h hs = (h, tt)
insert_change-All P c (d ∷ ds) h hs =
    if_cases (All P) (text_lt d.path c.path) _ _ (λ _. (hs.0, insert_change-All P c ds h hs.1))
      (λ _. (h, hs))

sort_changes-All : (P : Change → Type 0) (cs : List Change) → All P cs → All P (sort_changes cs)
unfolding sort_changes
sort_changes-All P [] h = tt
sort_changes-All P (c ∷ cs) h =
    insert_change-All P c (sort_changes cs) h.0 (sort_changes-All P cs h.1)

writes-IsPlain :
    (indexed listed : Files) → HasCleanNames listed → All IsPlain (writes indexed listed)
unfolding writes
writes-IsPlain indexed [] h = tt
writes-IsPlain indexed ((j, d) ∷ files) h =
    if_cases (All IsPlain) (text_eq (digest_at j indexed) d) _ _
      (λ _. writes-IsPlain indexed files h.1) (λ _. ((h.0, refl), writes-IsPlain indexed files h.1))

deletions-IsPlain :
    (listed files : Files) → HasCleanNames files → All IsPlain (deletions listed files)
unfolding deletions
deletions-IsPlain listed [] h = tt
deletions-IsPlain listed ((j, d) ∷ files) h =
    let rest = deletions-IsPlain listed files h.1 in
    elim (lookup j listed)
      as (λ o. All IsPlain (elim o [
        | some x ↦ deletions listed files
        | none ↦ record { path = j; deleted = true; subtree = false } ∷ deletions listed files
      ])) [ some x ↦ rest | none ↦ ((h.0, refl), rest) ]

pub differences-IsPlain :
    (indexed listed : Files)
    → HasCleanNames indexed
    → HasCleanNames listed
    → All IsPlain (differences indexed listed)
unfolding differences
differences-IsPlain indexed listed hi hl =
    sort_changes-All IsPlain (writes indexed listed ++ deletions listed indexed) (
      All-append IsPlain (writes indexed listed) (deletions listed indexed)
        (writes-IsPlain indexed listed hl) (deletions-IsPlain listed indexed hi))

-- What the changes of Reconcile do to a path.
pub find_change-differences :
    (k : Text) (indexed listed : Files)
    → HasKeys listed
    → find_change k (differences indexed listed)
      ≡ first_of
          (to_write k (digest_at k indexed) (lookup k listed))
          (to_delete k (lookup k indexed) (lookup k listed))
unfolding differences
find_change-differences k indexed listed h =
    rw
      (
        find_change-sort_changes,
        find_change-append,
        find_change-writes k indexed listed h,
        find_change-deletions,
      )
      refl
