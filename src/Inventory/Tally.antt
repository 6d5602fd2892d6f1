-- ===== src/Inventory/Tally.antt =====
-- What the walk of Store.inventory counts beside the files it lists: the files above the size limit,
-- the entries that the project's rules exclude, and the ignore files it found.
use lctk.Prelude.{ℕ, suc, Bool, false, true, ◌&&◌, not, Option, List, [], Text, ltb, if◌then◌else◌}
use lctk.Ignore.{Pattern, ignored, join, is_ignore_file, with_files, note_sources, root_rules}
use lctk.Inventory.{Node, file, directory, Entries, nil, entry, excluded}

pub record Tally : Type 0 where
  pub skipped_big : ℕ
  pub skipped_ignored : ℕ
  pub sources : List Text

-- The counts of the callback on a file.
unfoldable pub tally_file : ℕ → List Pattern → Text → Bool → ℕ → Tally → Tally
tally_file max_bytes rules path regular size t =
    if not regular
    then t
    else if not (is_ignore_file path) && ignored rules path false
    then record t { skipped_ignored = suc t.skipped_ignored }
    else if ltb max_bytes size
    then record t { skipped_big = suc t.skipped_big }
    else t

module _ (read : Text → Option (List Text)) (max_bytes : ℕ) where
  unfoldable mutual
    unfolding tally_file

    pub tally_visit : List Pattern → Text → Text → Node → Tally → Tally
    tally_visit rules name path (file regular size) t =
        tally_file max_bytes rules path regular size t
    tally_visit rules name path (directory es) t =
        let noted = record t { sources = note_sources read path t.sources } in
        let below = tally_walk (with_files read path rules) path es noted in
        if excluded name
        then t
        else if ignored rules path true
        then record t { skipped_ignored = suc t.skipped_ignored }
        else below

    pub tally_walk : List Pattern → Text → Entries → Tally → Tally
    tally_walk rules base nil t = t
    tally_walk rules base (entry name node es) t =
        tally_walk rules base es (tally_visit rules name (join base name) node t)

  -- The counts of inventory.
  unfoldable pub tally : Entries → Tally
  unfolding tally_walk
  tally es =
      tally_walk (root_rules read) [] es
        (record { skipped_big = 0; skipped_ignored = 0; sources = note_sources read [] [] })
