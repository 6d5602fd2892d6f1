-- ===== src/Index/Batch.antt =====
-- The loop of Store.Update over a batch of changes: the files the index should list afterwards, the
-- paths it must retract and the paths it must add.
pub mod Paths
pub mod Adding
pub mod Tracking
pub mod Loop
pub mod Keys
use lctk.Prelude.{
  ℕ, suc, Bool, true, false, not, ◌&&◌, Option, none, some, List, [], ◌∷◌, ◌++◌, Text, text,
  text_eq, has_prefix, ltb, if◌then◌else◌, length, lookup, insert, delete,
}
use lctk.Ignore.{contains}
use lctk.Inventory.{Entries, eligible}
use lctk.Inventory.Scope.{normalize_relative}
use lctk.Index.{
  Limits, Files, Change, Code, invalid_pattern, Result, ok, err, Reading, bytes, missing,
  unreadable, digest_at,
}

-- The project's source as the store sees it: whether the root opens, the tree that fs.WalkDir goes
-- through and whether the walk ends, the lines of an ignore file, Lstat as regular or not with the
-- size, and the content of a file.
pub record Workspace : Type 0 where
  pub opens : Bool
  pub tree : Entries
  pub walked : Result (Unit {0})
  pub ignore_lines : Text → Option (List Text)
  pub stat : Text → Option (Bool × ℕ)
  pub content : Text → Reading

pub record Batch : Type 0 where
  pub files : Files
  pub seen : List Text
  pub tombstone : List Text
  pub add : List Text
  pub unchanged : ℕ

-- set[name] = struct{}{}.
unfoldable pub add_name : Text → List Text → List Text
unfolding contains
add_name name names = if contains name names then names else name ∷ names

-- The closure drop of Update.
unfoldable pub drop_file : Text → Batch → Batch
unfolding add_name
drop_file name b = elim (lookup name b.files) [
  | none ↦ b
  | some d ↦ record b { files = delete name b.files; tombstone = add_name name b.tombstone }
]

-- The files that a removed directory takes, and those it leaves.
unfoldable pub below : Text → Files → List Text
below prefix [] = []
below prefix ((k, d) ∷ files) =
    if has_prefix prefix k then k ∷ below prefix files else below prefix files

unfoldable pub outside : Text → Files → Files
outside prefix [] = []
outside prefix ((k, d) ∷ files) =
    if has_prefix prefix k then outside prefix files else (k, d) ∷ outside prefix files

unfoldable pub add_names : List Text → List Text → List Text
unfolding add_name
add_names [] names = names
add_names (n ∷ ns) names = add_names ns (add_name n names)

-- The loop over the files below a removed directory.
unfoldable pub drop_subtree : Text → Batch → Batch
unfolding below outside add_names
drop_subtree name b =
    let prefix = name ++ text "/" in
    record b {
      files = outside prefix b.files;
      tombstone = add_names (below prefix b.files) b.tombstone;
    }

module _ (digest_of : Text → Text) (max_bytes : ℕ) (w : Workspace) where
  -- digestFile: none for an error.
  unfoldable pub digest_file : Text → Option (Text × ℕ)
  digest_file name = elim (w.stat name) [
    | none ↦ none
    | some (regular, size) ↦
        if not regular
        then none
        else if ltb max_bytes size
        then some ([], size)
        else elim (w.content name) [
          | bytes content ↦ some (digest_of content, size)
          | missing ↦ none
          | unreadable ↦ none
        ]
  ]

  -- A file whose digest is known and whose size is within the limit.
  unfoldable pub write_digest : Text → Text → Batch → Batch
  unfolding digest_at drop_file
  write_digest name digest b =
      if text_eq (digest_at name b.files) digest
      then record b { unchanged = suc b.unchanged }
      else let dropped = drop_file name b in
        record dropped {
          files = insert name digest dropped.files;
          add = dropped.add ++ (name ∷ []);
        }

  -- What the loop does with the answer of digestFile.
  unfoldable pub write_answer : Text → Option (Text × ℕ) → Batch → Batch
  unfolding write_digest drop_file
  write_answer name none b = drop_file name b
  write_answer name (some (digest, size)) b =
      if ltb max_bytes size then drop_file name b else write_digest name digest b

  -- The part of the loop's body for a change that is not a deletion.
  unfoldable pub write_file : Text → Batch → Batch
  unfolding digest_file write_answer drop_file
  write_file name b =
      if not (eligible w.ignore_lines name)
      then drop_file name b
      else write_answer name (digest_file name) b

  -- The loop's body for a name that the batch has not seen.
  unfoldable pub apply_change : Text → Change → Batch → Batch
  unfolding write_file drop_file drop_subtree
  apply_change name c b =
      let b' = record b { seen = name ∷ b.seen } in
      if c.deleted
      then (if c.subtree then drop_subtree name (drop_file name b') else drop_file name b')
      else write_file name b'

  unfoldable pub apply_named : Text → Change → Batch → Batch
  unfolding apply_change contains
  apply_named name c b = if contains name b.seen then b else apply_change name c b

  -- The loop of Update.
  unfoldable pub apply_changes : List Change → Batch → Result Batch
  unfolding apply_named
  apply_changes [] b = ok b
  apply_changes (c ∷ cs) b = elim (normalize_relative c.path) [
    | none ↦ err invalid_pattern
    | some name ↦ apply_changes cs (apply_named name c b)
  ]

-- The batch before the loop.
abbrev pub new_batch : Files → Batch
new_batch files = record { files = files; seen = []; tombstone = []; add = []; unchanged = 0 }

-- The number of paths that a batch changes.
unfoldable pub not_retracted : List Text → List Text → ℕ
unfolding contains
not_retracted tombstone [] = 0
not_retracted tombstone (n ∷ add) =
    let rest = not_retracted tombstone add in if contains n tombstone then rest else suc rest
