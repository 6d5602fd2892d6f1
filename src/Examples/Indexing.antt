-- ===== src/Examples/Indexing.antt =====
-- Globs, ignore rules, and the files and directories of a small tree.
use lctk.Prelude.{
  ℕ, ◌<◌, ◌≤◌, ◌≡◌, ◌≢◌, refl, ◌⊎◌, inl, inr, ◌↔◌, true, false, Option, none, List, [], ◌∷◌, Text,
  text, text_eq, has_prefix, split, Any, arith, length, take,
}
use lctk.Glob.{match_segment, match_glob, segment_loop, segment_fuel, any_segments, star}
use lctk.Glob.Segment.{Fits, IsPlain}
use lctk.Glob.Segment.Search.{match_segment-Fits}
use lctk.Glob.Paths.{Covers, match_glob-Covers}
use lctk.Ignore.{Pattern, applies, ignored, root_rules, is_ignore_file, join, contains}
use lctk.Inventory.{
  file, directory, Entries, nil, entry, Candidate, inventory, eligible, excluded, candidate,
  entered,
}
use lctk.Inventory.Agreement.{
  Leads, join_all, last_name, IsTree, is_name, eligible-inventory, inventory-eligible,
  metadata_file_disagrees,
}

abbrev glob_text : Text
glob_text = text "a*c"

abbrev name_text : Text
name_text = text "abbc"

plain : {c : ℕ} → (c ≢ star) × (c ≢ b'[') → IsPlain c
plain h = h

match_segment-Fits_example :
    (segment_loop (segment_fuel glob_text name_text) glob_text name_text none ≢ none)
    × ((match_segment glob_text name_text ≡ true) ↔ Fits glob_text name_text)
match_segment-Fits_example = match_segment-Fits glob_text name_text (omega arith)

abbrev path_glob : Text
path_glob = text "a/*"

abbrev subject : Text
subject = text "a/b/c"

match_glob-Covers_example : (match_glob path_glob subject ≡ true) ↔ (
    (path_glob ≡ any_segments)
    ⊎ Covers (split b'/' path_glob) (split b'/' subject)
    ⊎ ((length (split b'/' path_glob) < length (split b'/' subject))
        × Covers
            (split b'/' path_glob)
            (take (length (split b'/' path_glob)) (split b'/' subject))))
match_glob-Covers_example = match_glob-Covers path_glob subject (omega arith)

abbrev logs : Pattern
logs = record { base = []; glob = text "*.log"; negate = false; dir_only = false; anchored = false }

abbrev keep : Pattern
keep = record {
  base = [];
  glob = text "keep.log";
  negate = true;
  dir_only = false;
  anchored = false;
}

abbrev other : Pattern
other = record { base = []; glob = text "x"; negate = false; dir_only = false; anchored = false }

abbrev no_files : Text → Option (List Text)
no_files _ = none

abbrev tree : Entries
tree = entry (text "s") (directory (entry (text "f") (file true 3) nil)) nil

abbrev f_path : List Text
f_path = text "s" ∷ text "f" ∷ []

f_eligible : eligible no_files (join_all [] f_path) ≡ true
unfolding eligible ignored applies root_rules text_eq match_glob split has_prefix is_ignore_file
    join
f_eligible = refl

tree-IsTree : IsTree tree
unfolding text_eq
tree-IsTree = (refl, (refl, tt, tt), tt)

f-Leads : Leads tree f_path 3
f-Leads = inl (text "f", [], refl, inl (refl, refl, refl))

eligible-inventory_example : Any (λ f. f ≡ (join_all [] f_path, 3)) (inventory no_files 10 tree)
eligible-inventory_example =
    eligible-inventory no_files 10 tree tree-IsTree f_path 3 f-Leads (omega arith) f_eligible

abbrev listed : Candidate
listed = (text "s/f", 3)

f_listed : Any (λ f. f ≡ listed) (inventory no_files 10 tree)
unfolding inventory entered ignored applies root_rules text_eq match_glob split has_prefix
    is_ignore_file join candidate
f_listed = inl refl

inventory-eligible_example :
    (path : List Text) × (listed.0 ≡ join_all [] path)
    × Leads tree path listed.1
    × (listed.1 ≤ 10)
    × ((eligible no_files listed.0 ≡ true) ⊎ (excluded (last_name path) ≡ true))
inventory-eligible_example = inventory-eligible no_files 10 tree tree-IsTree listed f_listed

git_is_name : is_name (text ".git") ≡ true
unfolding text_eq
git_is_name = refl

git_is_excluded : excluded (text ".git") ≡ true
unfolding contains text_eq
git_is_excluded = refl

git_not_ignored : ignored (root_rules no_files) (text ".git") false ≡ false
unfolding ignored applies root_rules text_eq match_glob split has_prefix
git_not_ignored = refl

abbrev with_git : Entries
with_git = entry (text "README") (file true 7) (entry (text ".git") (file true 40) tree)

metadata_file_disagrees_example :
    Any (λ f. f ≡ (text ".git", 40)) (inventory no_files 100 with_git)
    × (eligible no_files (text ".git") ≡ false)
metadata_file_disagrees_example =
    metadata_file_disagrees no_files 100 (text ".git") 40 with_git git_is_name git_is_excluded
      git_not_ignored (omega arith) (inr (inl (refl, refl, refl)))

abbrev dotted : Text
dotted = text " a/./b/../c "
