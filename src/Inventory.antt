-- ===== src/Inventory.antt =====
-- images/code-intel/internal/searchindex/inventory.go and watchset.go: which files of a workspace are
-- indexed and which directories are watched. The workspace is a tree, in the order of fs.WalkDir; an
-- error of the walk, the digests and the parallel reading of the files are left out.
pub mod Agreement
pub mod Watching
pub mod Scope
pub mod Tally
use lctk.Prelude.{
  ℕ, suc, Bool, true, false, ◌&&◌, ◌||◌, not, Option, none, some, List, [], ◌∷◌, ◌++◌, Text, text,
  text_eq, split, ltb, leb, if◌then◌else◌, length,
}
use lctk.Ignore.{Pattern, ignored, join, is_ignore_file, contains, with_files, root_rules}

abbrev pub excluded_directories : List Text
excluded_directories = text ".git" ∷ text ".hg" ∷ text ".svn" ∷ []

-- A file with whether it is regular and its size, or a directory.
mutual
  pub data Node : Type 0 where
    file : Bool → ℕ → Node
    directory : Entries → Node

  pub data Entries : Type 0 where
    nil : Entries
    entry : Text → Node → Entries → Entries

abbrev pub Candidate : Type 0
Candidate = Text × ℕ

abbrev pub excluded : Text → Bool
excluded name = contains name excluded_directories

-- The callback on a file.
unfoldable pub candidate : ℕ → List Pattern → Text → Bool → ℕ → List Candidate
candidate max_bytes rules path regular size =
    if not regular
    then []
    else if not (is_ignore_file path) && ignored rules path false
    then []
    else if ltb max_bytes size
    then []
    else (path, size) ∷ []

-- Whether the walk enters a directory.
unfoldable pub entered : List Pattern → Text → Text → Bool
unfolding contains
entered rules name path = not (excluded name) && not (ignored rules path true)

module _ (read : Text → Option (List Text)) (max_bytes : ℕ) where
  -- The walk of inventory below a directory, with the rules that hold in it.
  unfoldable mutual
    unfolding candidate entered

    pub visit : List Pattern → Text → Text → Node → List Candidate
    visit rules name path (file regular size) = candidate max_bytes rules path regular size
    visit rules name path (directory es) =
        let below = walk (with_files read path rules) path es in
        if entered rules name path then below else []

    pub walk : List Pattern → Text → Entries → List Candidate
    walk rules base nil = []
    walk rules base (entry name node es) =
        visit rules name (join base name) node ++ walk rules base es

  -- inventory.
  unfoldable pub inventory : Entries → List Candidate
  unfolding walk
  inventory es = walk (root_rules read) [] es

module _ (read : Text → Option (List Text)) where
  -- The loop of eligible, from a prefix on.
  unfoldable pub eligible_from : List Pattern → Text → List Text → Bool
  unfolding entered
  eligible_from rules prefix [] = true
  eligible_from rules prefix (name ∷ []) =
      let path = join prefix name in
      not (excluded name) && not (not (is_ignore_file path) && ignored rules path false)
  eligible_from rules prefix (name ∷ next ∷ rest) =
      let path = join prefix name in
      let below = eligible_from (with_files read path rules) path (next ∷ rest) in
      entered rules name path && below

  -- eligible.
  unfoldable pub eligible : Text → Bool
  unfolding eligible_from
  eligible relative = eligible_from (root_rules read) [] (split b'/' relative)
