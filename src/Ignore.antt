-- ===== src/Ignore.antt =====
-- images/code-intel/internal/searchindex/ignore.go: the ignore rules of a project. `read` opens a file
-- under the workspace's root and gives its lines. A sourceSet is the list of its names.
pub mod Order
use lctk.Prelude.{
  ℕ, Bool, true, false, ◌&&◌, ◌||◌, not, Option, none, some, List, [], ◌∷◌, ◌++◌, map, Text, text,
  text_eq, has_prefix, split, leb, ◌==◌, if◌then◌else◌, length, drop,
}
use mathlib.Core.List.{reverse}
use lctk.Glob.{match_glob}

abbrev pub git_ignore_file : Text
git_ignore_file = text ".gitignore"

abbrev pub lctk_ignore_file : Text
lctk_ignore_file = text ".lctkignore"

abbrev pub lctk_ignore_local_file : Text
lctk_ignore_local_file = text ".lctkignore.local"

abbrev pub ignore_file_names : List Text
ignore_file_names = git_ignore_file ∷ lctk_ignore_file ∷ lctk_ignore_local_file ∷ []

pub record Pattern : Type 0 where
  pub base : Text
  pub glob : Text
  pub negate : Bool
  pub dir_only : Bool
  pub anchored : Bool

-- strings.TrimRight with a space and a tab.
blank : ℕ → Bool
blank c = c == b' ' || c == 9

trim_blanks : Text → Text
unfolding blank
trim_blanks [] = []
trim_blanks (c ∷ s) = if blank c then trim_blanks s else c ∷ s

unfoldable pub trim_right : Text → Text
unfolding trim_blanks
trim_right s = reverse (trim_blanks (reverse s))

unfoldable pub trim_one : ℕ → Text → Text
trim_one c [] = []
trim_one c (x ∷ s) = if x == c then s else x ∷ s

-- strings.Contains of one character.
unfoldable pub has : ℕ → Text → Bool
has c [] = false
has c (x ∷ s) = x == c || has c s

-- The slashes of a rule: at its end, at its start, elsewhere.
unfoldable pub parse_slashes : Text → Bool → Text → Option Pattern
unfolding trim_one has
parse_slashes base negate rule =
    let dir_only = has_prefix (text "/") (reverse rule) in
    let stem = reverse (trim_one b'/' (reverse rule)) in
    let anchored = has b'/' stem in
    let glob = trim_one b'/' stem in
    if text_eq glob []
    then none
    else some (record {
      base = base;
      glob = glob;
      negate = negate;
      dir_only = dir_only;
      anchored = anchored;
    })

-- parsePattern.
unfoldable pub parse_pattern : Text → Text → Option Pattern
unfolding trim_right parse_slashes
parse_pattern line base =
    let trimmed = trim_right line in
    if text_eq trimmed [] || has_prefix (text "#") trimmed
    then none
    else let negate = has_prefix (text "!") trimmed in
      let rule = trim_one 92 (if negate then drop 1 trimmed else trimmed) in
      if text_eq rule [] then none else parse_slashes base negate rule

-- The loop of readPatterns.
unfoldable pub parse_all : Text → List Text → List Pattern
unfolding parse_pattern
parse_all base [] = []
parse_all base (l ∷ ls) =
    let rest = parse_all base ls in elim (parse_pattern l base) [ some p ↦ p ∷ rest | none ↦ rest ]

-- The suffixes of a path that follow a slash.
unfoldable pub from_slashes : (Text → Bool) → Text → Bool
from_slashes test [] = false
from_slashes test (c ∷ s) =
    let rest = from_slashes test s in if c == b'/' then test s || rest else rest

unfoldable pub matches_subject : Pattern → Text → Bool
unfolding from_slashes
matches_subject p subject =
    match_glob p.glob subject || (not p.anchored && from_slashes (match_glob p.glob) subject)

-- pattern.matches.
unfoldable pub matches : Pattern → Text → Bool
unfolding matches_subject
matches p relative =
    if text_eq p.base []
    then matches_subject p relative
    else if has_prefix (p.base ++ text "/") relative
    then matches_subject p (drop (length p.base) (drop 1 relative))
    else false

-- A rule that is not for directories only, or a directory; and the rule matches.
unfoldable pub applies : Pattern → Text → Bool → Bool
unfolding matches
applies p relative is_dir = (is_dir || not p.dir_only) && matches p relative

ignored_from : Bool → List Pattern → Text → Bool → Bool
unfolding applies
ignored_from result [] relative is_dir = result
ignored_from result (p ∷ ps) relative is_dir =
    ignored_from (if applies p relative is_dir then not p.negate else result) ps relative is_dir

-- ignoreSet.ignored.
unfoldable pub ignored : List Pattern → Text → Bool → Bool
unfolding ignored_from
ignored ps relative is_dir = ignored_from false ps relative is_dir

-- path.Join of a clean base with a file's name.
unfoldable pub join : Text → Text → Text
join base name = if text_eq base [] then name else base ++ text "/" ++ name

-- sourceSet.add.
unfoldable pub add_source : Text → List Text → List Text
add_source name [] = name ∷ []
add_source name (n ∷ names) = if text_eq n name then n ∷ names else n ∷ add_source name names

unfoldable pub contains : Text → List Text → Bool
contains name [] = false
contains name (n ∷ names) = text_eq n name || contains name names

-- sourceSet.list.
unfoldable pub list_sources : List Text → List Text
unfolding contains
list_sources names = pick ignore_file_names
  where
    pick : List Text → List Text
    pick [] = []
    pick (c ∷ cs) = if contains c names then c ∷ pick cs else pick cs

-- path.Base of path.Clean, with both slashes as separators: the stack of the path's elements.
unfoldable pub clean_parent : Bool → List Text → List Text
clean_parent rooted [] = if rooted then [] else text ".." ∷ []
clean_parent rooted (t ∷ ts) = if text_eq t (text "..") then text ".." ∷ t ∷ ts else ts

unfoldable pub clean_step : Bool → List Text → Text → List Text
unfolding clean_parent
clean_step rooted stack s =
    if text_eq s [] || text_eq s (text ".")
    then stack
    else if text_eq s (text "..")
    then clean_parent rooted stack
    else s ∷ stack

unfoldable pub clean_stack : Bool → List Text → List Text → List Text
unfolding clean_step
clean_stack rooted stack [] = stack
clean_stack rooted stack (s ∷ ss) = clean_stack rooted (clean_step rooted stack s) ss

unfoldable pub clean_base : Text → Text
unfolding clean_stack
clean_base path =
    let slashed = map (λ c. if c == 92 then b'/' else c) path in
    let rooted = has_prefix (text "/") slashed in
    elim (clean_stack rooted [] (split b'/' slashed)) [
      | [] ↦ if rooted then text "/" else text "."
      | t ∷ ts ↦ t
    ]

-- isIgnoreFile.
unfoldable pub is_ignore_file : Text → Bool
unfolding clean_base contains
is_ignore_file relative = contains (clean_base relative) ignore_file_names

module _ (read : Text → Option (List Text)) where
  -- The rules of a directory's ignore files, in the files' order.
  unfoldable pub added_rules : Text → List Text → List Pattern
  unfolding parse_all join
  added_rules base [] = []
  added_rules base (name ∷ names) =
      let rest = added_rules base names in
      elim (read (join base name)) [ some lines ↦ parse_all base lines ++ rest | none ↦ rest ]

  -- withFiles, without the names it notes.
  unfoldable pub with_files : Text → List Pattern → List Pattern
  unfolding added_rules
  with_files base ps = ps ++ added_rules base ignore_file_names

  -- The names that withFiles notes.
  unfoldable pub note_sources : Text → List Text → List Text
  unfolding add_source join
  note_sources base seen = note ignore_file_names seen
    where
      note : List Text → List Text → List Text
      note [] seen = seen
      note (name ∷ names) seen =
          note names
            (elim (read (join base name)) [ some lines ↦ add_source name seen | none ↦ seen ])

  abbrev pub default_ignore_patterns : List Text
  default_ignore_patterns =
      text "node_modules/"
      ∷ text ".venv/"
      ∷ text "venv/"
      ∷ text "__pycache__/"
      ∷ text ".mypy_cache/"
      ∷ text ".pytest_cache/"
      ∷ text ".tox/"
      ∷ text ".gradle/"
      ∷ text ".turbo/"
      ∷ text ".next/"
      ∷ text ".nuxt/"
      ∷ text ".parcel-cache/"
      ∷ []

  -- rootIgnoreSet.
  unfoldable pub root_rules : List Pattern
  unfolding parse_all with_files
  root_rules = with_files [] (parse_all [] default_ignore_patterns)
