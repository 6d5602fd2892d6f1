-- ===== src/Index/Batch/Paths.antt =====
-- The loop of Store.Update, one path at a time.
use lctk.Prelude.{
  ℕ, ◌≡◌, ◌≢◌, refl, inl, inr, Bool, Bool-cases, true, leb, false, ◌&&◌, Option, Option-cases, none,
  some, List, [], ◌∷◌, ◌++◌, Text, text, text_eq, text_eq_iff, text_eq_refl, has_prefix, ltb,
  if◌then◌else◌, lookup, lookup-insert, lookup-delete, arith,
}
use lctk.Ignore.{contains}
use lctk.Inventory.{eligible}
use lctk.Inventory.Scope.{normalize_relative}
use lctk.Index.{Files, Change, Reading, bytes, missing, unreadable, ok, digest_at}
use lctk.Index.Batch.{
  Workspace, Batch, drop_file, drop_subtree, outside, digest_file, write_answer, write_digest,
  write_file, apply_change, apply_named, apply_changes,
}

pub lookup-outside :
    (prefix k : Text) (files : Files)
    → lookup k (outside prefix files) ≡ (if has_prefix prefix k then none else lookup k files)
unfolding outside lookup
lookup-outside prefix k [] = ground arith
lookup-outside prefix k ((j, d) ∷ files) = elim (Bool-cases (text_eq j k)) [
  | inl same ↦
      let e : j ≡ k = (text_eq_iff j k).0 same in
      rw e (ground (arith, text_eq_refl k, lookup-outside prefix k files))
  | inr other ↦ ground (arith, other, lookup-outside prefix k files)
]

pub lookup-drop_file :
    (k name : Text) (b : Batch)
    → lookup k (drop_file name b).files ≡ (if text_eq name k then none else lookup k b.files)
unfolding drop_file
lookup-drop_file k name b = elim (Option-cases (lookup name b.files)) [
  | inl absent ↦
      rw (absent, drop_file)
        (elim (Bool-cases (text_eq name k)) [
          | inl same ↦ rw (same, ← (text_eq_iff name k).0 same) absent
          | inr other ↦ rw other refl
        ])
  | inr (d, held) ↦ rw (held, drop_file) (lookup-delete name k b.files)
]

pub lookup-drop_subtree :
    (k name : Text) (b : Batch)
    → lookup k (drop_subtree name b).files
      ≡ (if has_prefix (name ++ text "/") k then none else lookup k b.files)
unfolding drop_subtree
lookup-drop_subtree k name b = lookup-outside (name ++ text "/") k b.files

-- A digest that is not empty is in the map.
pub digest_at-full :
    (name digest : Text) (files : Files)
    → digest_at name files ≡ digest
    → digest ≢ []
    → lookup name files ≡ some digest
unfolding digest_at
digest_at-full name digest files h full = ground arith

seen-drop_file : (name : Text) (b : Batch) → (drop_file name b).seen ≡ b.seen
unfolding drop_file
seen-drop_file name b = ground arith

seen-drop_subtree : (name : Text) (b : Batch) → (drop_subtree name b).seen ≡ b.seen
unfolding drop_subtree
seen-drop_subtree name b = refl

module _ (digest_of : Text → Text) (max_bytes : ℕ) (w : Workspace) where
  -- The digest that the index should hold for a path, from what the workspace holds there: the path is
  -- eligible, a regular file within the size limit stands there, and its content can be read.
  unfoldable pub wanted_content : Reading → Option Text
  wanted_content (bytes content) = some (digest_of content)
  wanted_content missing = none
  wanted_content unreadable = none

  unfoldable pub wanted_file : Reading → Option (Bool × ℕ) → Option Text
  unfolding wanted_content
  wanted_file reading none = none
  wanted_file reading (some (false, size)) = none
  wanted_file reading (some (true, size)) =
      if leb size max_bytes then wanted_content reading else none

  unfoldable pub wanted : Text → Option Text
  unfolding wanted_file
  wanted name =
      if eligible w.ignore_lines name then wanted_file (w.content name) (w.stat name) else none

  -- The same by the code's own answer for the file.
  answered : Option (Text × ℕ) → Option Text
  answered none = none
  answered (some (digest, size)) = if ltb max_bytes size then none else some digest

  answered-reading :
      (size : ℕ) (reading : Reading)
      → ltb max_bytes size ≡ false
      → answered (elim reading [
        | bytes content ↦ some (digest_of content, size)
        | missing ↦ none
        | unreadable ↦ none
      ])
        ≡ wanted_content reading
  unfolding answered wanted_content
  answered-reading size (bytes content) small = ground (arith, small)
  answered-reading size missing small = refl
  answered-reading size unreadable small = refl

  answered-stat :
      (name : Text) (found : Option (Bool × ℕ))
      → w.stat name ≡ found
      → answered (digest_file digest_of max_bytes w name) ≡ wanted_file (w.content name) found
  unfolding digest_file answered wanted_file
  answered-stat name none e = rw (e, digest_file) refl
  answered-stat name (some (false, size)) e = rw (e, digest_file) refl
  answered-stat name (some (true, size)) e = elim (Bool-cases (ltb max_bytes size)) [
    | inl big ↦
        let over : leb size max_bytes ≡ false = ground (arith, big) in
        rw (e, digest_file, big, over) (ground (arith, big))
    | inr small ↦
        let fits : leb size max_bytes ≡ true = ground (arith, small) in
        rw (e, digest_file, small, fits) (answered-reading size (w.content name) small)
  ]

  -- What one change does to the digest of a path.
  unfoldable pub after_change : Text → Text → Change → Option Text → Option Text
  after_change k name c old =
      if text_eq name k
      then (if c.deleted then none else wanted name)
      else if c.deleted && c.subtree && has_prefix (name ++ text "/") k
      then none
      else old

  -- What a batch does to it: the first change of each name counts.
  unfoldable pub after_changes : Text → List Change → List Text → Option Text → Option Text
  unfolding after_change contains
  after_changes k [] seen old = old
  after_changes k (c ∷ cs) seen old = elim (normalize_relative c.path) [
    | none ↦ after_changes k cs seen old
    | some name ↦
        let fresh = after_changes k cs (name ∷ seen) (after_change k name c old) in
        let skipped = after_changes k cs seen old in if contains name seen then skipped else fresh
  ]

  seen-write_answer :
      (name : Text) (answer : Option (Text × ℕ)) (b : Batch)
      → (write_answer digest_of max_bytes w name answer b).seen ≡ b.seen
  unfolding write_answer write_digest
  seen-write_answer name none b = seen-drop_file name b
  seen-write_answer name (some (digest, size)) b = ground (arith, seen-drop_file name b)

  pub seen-apply_change :
      (name : Text) (c : Change) (b : Batch)
      → (apply_change digest_of max_bytes w name c b).seen ≡ name ∷ b.seen
  unfolding apply_change write_file
  seen-apply_change name c b =
      let b' : Batch = record b { seen = name ∷ b.seen } in
      ground (
        arith,
        seen-drop_file name b',
        seen-drop_subtree name (drop_file name b'),
        seen-write_answer name (digest_file digest_of max_bytes w name) b',
      )

  module _ (hashed : (content : Text) → digest_of content ≢ []) where
    -- An answer within the limit has a digest.
    digest_file_full :
        (name digest : Text) (size : ℕ)
        → digest_file digest_of max_bytes w name ≡ some (digest, size)
        → ltb max_bytes size ≡ false
        → digest ≢ []
    unfolding digest_file
    digest_file_full name digest size h small = grind (arith, hashed)

    lookup-write_digest :
        (k name digest : Text) (b : Batch)
        → digest ≢ []
        → lookup k (write_digest digest_of max_bytes w name digest b).files
          ≡ (if text_eq name k then some digest else lookup k b.files)
    unfolding write_digest digest_at text_eq
    lookup-write_digest k name digest b full =
        elim (Bool-cases (text_eq (digest_at name b.files) digest)) [
          | inl same ↦ rw same (elim (Bool-cases (text_eq name k)) [
            | inl e ↦
                rw (e, ← (text_eq_iff name k).0 e)
                  (digest_at-full name digest b.files
                    ((text_eq_iff (digest_at name b.files) digest).0 same) full)
            | inr e ↦ rw e refl
          ])
          | inr changed ↦ rw changed (
              rw (lookup-insert name k digest (drop_file name b).files, lookup-drop_file k name b)
                (ground arith))
        ]

    lookup-write_answer :
        (k name : Text) (answer : Option (Text × ℕ)) (b : Batch)
        → digest_file digest_of max_bytes w name ≡ answer
        → lookup k (write_answer digest_of max_bytes w name answer b).files
          ≡ (if text_eq name k then answered answer else lookup k b.files)
    unfolding write_answer answered
    lookup-write_answer k name none b h = lookup-drop_file k name b
    lookup-write_answer k name (some (digest, size)) b h = elim (Bool-cases (ltb max_bytes size)) [
      | inl big ↦ rw big (lookup-drop_file k name b)
      | inr small ↦
          rw small (lookup-write_digest k name digest b (digest_file_full name digest size h small))
    ]

    lookup-write_file :
        (k name : Text) (b : Batch)
        → lookup k (write_file digest_of max_bytes w name b).files
          ≡ (if text_eq name k then wanted name else lookup k b.files)
    unfolding write_file wanted
    lookup-write_file k name b = elim (Bool-cases (eligible w.ignore_lines name)) [
      | inl e ↦
          rw (e, ← answered-stat name (w.stat name) refl) (lookup-write_answer k name _ b refl)
      | inr e ↦ rw e (lookup-drop_file k name b)
    ]

    lookup-apply_change :
        (k name : Text) (c : Change) (b : Batch)
        → lookup k (apply_change digest_of max_bytes w name c b).files
          ≡ after_change k name c (lookup k b.files)
    unfolding apply_change after_change
    lookup-apply_change k name c b =
        let b' : Batch = record b { seen = name ∷ b.seen } in
        ground (
          arith,
          lookup-drop_subtree k name (drop_file name b'),
          lookup-drop_file k name b',
          lookup-write_file k name b',
        )

    -- If no content has the empty digest and the loop of Update takes the whole batch, then what
    -- it lists for a path is what the changes leave there one after the other, the first change
    -- of each normalized name alone: a change of the path itself leaves nothing if it is a
    -- deletion, and otherwise the digest of the content if the path is eligible, a regular file
    -- within the size limit stands there and its content can be read, and nothing if not; a
    -- removal of a directory above the path leaves nothing; any other change leaves the path as
    -- it was.
    pub lookup-apply_changes :
        (k : Text) (cs : List Change) (b b' : Batch)
        → apply_changes digest_of max_bytes w cs b ≡ ok b'
        → lookup k b'.files ≡ after_changes k cs b.seen (lookup k b.files)
    unfolding apply_changes apply_named after_changes
    lookup-apply_changes k [] b b' h = cc
    lookup-apply_changes k (c ∷ cs) b b' h = elim (Option-cases (normalize_relative c.path)) [
      | inl refused ↦ absurd (ground (arith, h, refused))
      | inr (name, e) ↦
          let step = apply_change digest_of max_bytes w name c b in
          ground (
            arith,
            lookup-apply_changes k cs b b',
            lookup-apply_changes k cs step b',
            seen-apply_change name c b,
            lookup-apply_change k name c b,
          )
    ]

    wanted_file-full :
        (digest : Text) (reading : Reading) (entry : Option (Bool × ℕ))
        → wanted_file reading entry ≡ some digest
        → digest ≢ []
    unfolding wanted_file wanted_content
    wanted_file-full digest reading none h = cc
    wanted_file-full digest reading (some (false, size)) h = cc
    wanted_file-full digest (bytes content) (some (true, size)) h = grind (arith, hashed)
    wanted_file-full digest missing (some (true, size)) h = ground (arith, h)
    wanted_file-full digest unreadable (some (true, size)) h = ground (arith, h)

    -- A digest that the source gives is not the empty text.
    pub wanted-full : (name digest : Text) → wanted name ≡ some digest → digest ≢ []
    unfolding wanted
    wanted-full name digest h = elim (Bool-cases (eligible w.ignore_lines name)) [
      | inl e ↦ wanted_file-full digest (w.content name) (w.stat name) (rw e at h)
      | inr e ↦ absurd (ground (arith, h, e))
    ]
