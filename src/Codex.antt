-- ===== src/Codex.antt =====
-- internal/codexconfig/merge.go: the region of a project in a shared configuration file, by lines. The
-- lines that Entry.Render of entry.go gives are the argument `body`. Whether a document is valid TOML
-- is the argument `valid`, for github.com/pelletier/go-toml.
pub mod Regions
pub mod Forced
use lctk.Prelude.{
  ℕ, zero, suc, ◌+◌, ◌-◌, Bool, true, false, ◌||◌, ◌&&◌, not, Option, none, some, List, [], ◌∷◌,
  ◌++◌, Text, text, text_eq, trim_space, has_prefix, split, ltb, leb, ◌==◌, if◌then◌else◌, length,
  take, drop,
}
use mathlib.Core.List.{reverse}

-- EntryName.
entry_char : ℕ → ℕ
entry_char c =
    if (leb b'a' c && leb c b'z') || (leb b'0' c && leb c b'9')
    then c
    else if leb b'A' c && leb c b'Z'
    then c + 32
    else b'_'

entry_chars : Text → Text
unfolding entry_char
entry_chars [] = []
entry_chars (c ∷ s) = entry_char c ∷ entry_chars s

unfoldable pub entry_name : Text → Text
unfolding entry_chars
entry_name id = text "lctk_" ++ entry_chars id

unfoldable pub begin_marker : Text → Text
begin_marker id = text "# lctk:begin " ++ id

unfoldable pub end_marker : Text → Text
end_marker id = text "# lctk:end " ++ id

pub data Placement : Type 0 where
  absent managed foreign foreign_inline : Placement

-- Location, with the range of the lines.
pub record Location : Type 0 where
  pub placement : Placement
  pub first : ℕ
  pub last : ℕ

abbrev pub Span : Type 0
Span = Option (ℕ × ℕ)

-- The loop of findManagedRegion, from a line on.
unfoldable pub region_from : Text → Text → ℕ → Option ℕ → List Text → Span
region_from start end i first [] = none
region_from start end i none (l ∷ ls) =
    region_from start end (suc i) (if text_eq (trim_space l) start then some i else none) ls
region_from start end i (some f) (l ∷ ls) =
    let rest = region_from start end (suc i) (some f) ls in
    if text_eq (trim_space l) end then some (f, i) else rest

unfoldable pub find_managed_region : List Text → Text → Span
unfolding region_from
find_managed_region lines id = region_from (begin_marker id) (end_marker id) 0 none lines

-- The state of splitKeyPath. No quote is 0.
pub record Splitter : Type 0 where
  pub segments : List Text
  pub current : Text
  pub quote : ℕ
  pub escaped : Bool
  pub quoted : Bool

abbrev fresh_splitter : Splitter
fresh_splitter = record { segments = []; current = []; quote = 0; escaped = false; quoted = false }

-- flush.
flush : Splitter → Option Splitter
flush s =
    let part = if s.quoted then s.current else trim_space s.current in
    if not s.quoted && text_eq part []
    then none
    else some (record s { segments = s.segments ++ part ∷ []; current = []; quoted = false })

abbrev write_rune : ℕ → Splitter → Splitter
write_rune r s = record s { current = s.current ++ r ∷ [] }

split_step : ℕ → Splitter → Option Splitter
unfolding flush
split_step r s =
    if s.escaped
    then some (record (write_rune r s) { escaped = false })
    else if s.quote == 34 && r == 92
    then some (record s { escaped = true })
    else if not (s.quote == 0) && r == s.quote
    then some (record s { quote = 0 })
    else if not (s.quote == 0)
    then some (write_rune r s)
    else if r == 34 || r == 39
    then some (record s { quote = r; quoted = true })
    else if r == b'.'
    then flush s
    else some (write_rune r s)

split_loop : Text → Splitter → Option (List Text)
unfolding split_step flush
split_loop [] s =
    if not (s.quote == 0) || s.escaped
    then none
    else elim (flush s) [ none ↦ none | some t ↦ some t.segments ]
split_loop (r ∷ rs) s = elim (split_step r s) [ none ↦ none | some t ↦ split_loop rs t ]

-- splitKeyPath.
unfoldable pub split_key_path : Text → Option (List Text)
unfolding split_loop
split_key_path raw = split_loop raw fresh_splitter

-- What stands before the last closing bracket, the text given backwards.
before_last : Text → Option Text
before_last [] = none
before_last (c ∷ s) = if c == b']' then some (reverse s) else before_last s

-- parseTableHeader. The bracket at the start is not the closing one.
unfoldable pub parse_table_header : Text → Option (List Text)
unfolding split_key_path before_last
parse_table_header line =
    let trimmed = trim_space line in
    if not (has_prefix (text "[") trimmed) || has_prefix (text "[[") trimmed
    then none
    else elim (before_last (reverse (drop 1 trimmed))) [
      | none ↦ none
      | some inner ↦ split_key_path inner
    ]

abbrev pub servers : Text
servers = text "mcp_servers"

-- The table of a server, and a table below it.
unfoldable pub is_server : Text → List Text → Bool
is_server name (a ∷ b ∷ []) = text_eq a servers && text_eq b name
is_server name path = false

unfoldable pub is_below : Text → List Text → Bool
is_below name (a ∷ b ∷ c ∷ path) = text_eq a servers && text_eq b name
is_below name path = false

-- Whether a line begins the server's table, and whether one ends it.
unfoldable pub opens : Text → Option (List Text) → Bool
unfolding is_server
opens name none = false
opens name (some path) = is_server name path

unfoldable pub closes : Text → Option (List Text) → Bool
unfolding is_below
closes name none = false
closes name (some path) = not (is_below name path)

-- The loop of findServerTable, from a line on, with the first line of the table.
unfoldable pub table_from : Text → ℕ → Option ℕ → List Text → Span
table_from name i none [] = none
table_from name i (some f) [] = some (f, i - 1)
table_from name i none (l ∷ ls) =
    table_from name (suc i) (if opens name (parse_table_header l) then some i else none) ls
table_from name i (some f) (l ∷ ls) =
    let rest = table_from name (suc i) (some f) ls in
    if closes name (parse_table_header l) then some (f, i - 1) else rest

unfoldable pub find_server_table : List Text → Text → Span
unfolding table_from opens closes
find_server_table lines name = table_from name 0 none lines

-- parseKeyName.
before_equals : Text → Option Text
before_equals [] = none
before_equals (c ∷ s) =
    if c == b'=' then some [] else elim (before_equals s) [ none ↦ none | some k ↦ some (c ∷ k) ]

first_segment : Option (List Text) → Option Text
first_segment none = none
first_segment (some []) = none
first_segment (some (s ∷ ss)) = some s

unfoldable pub parse_key_name : Text → Option Text
unfolding before_equals first_segment split_key_path
parse_key_name line =
    let trimmed = trim_space line in
    if text_eq trimmed [] || has_prefix (text "#") trimmed
    then none
    else elim (before_equals trimmed) [
      | none ↦ none
      | some key ↦ if text_eq key [] then none else first_segment (split_key_path key)
    ]

is_servers : List Text → Bool
is_servers (a ∷ []) = text_eq a servers
is_servers path = false

names_it : Text → Option Text → Bool
names_it name none = false
names_it name (some key) = text_eq key name

-- The loop of findInlineServerKey.
unfoldable pub inline_from : Text → ℕ → Bool → List Text → Option ℕ
unfolding is_servers names_it
inline_from name i inside [] = none
inline_from name i inside (l ∷ ls) = elim (parse_table_header l) [
  | some path ↦ inline_from name (suc i) (is_servers path) ls
  | none ↦
      if inside && names_it name (parse_key_name l)
      then some i
      else inline_from name (suc i) inside ls
]

unfoldable pub find_inline_server_key : List Text → Text → Option ℕ
unfolding inline_from
find_inline_server_key lines name = inline_from name 0 false lines

-- Locate, of the lines of a document.
unfoldable pub locate : List Text → Text → Location
unfolding find_managed_region find_server_table find_inline_server_key
locate lines id = elim (find_managed_region lines id) [
  | some (first, last) ↦ record { placement = managed; first = first; last = last }
  | none ↦ elim (find_server_table lines (entry_name id)) [
    | some (first, last) ↦ record { placement = foreign; first = first; last = last }
    | none ↦ elim (find_inline_server_key lines (entry_name id)) [
      | some index ↦ record { placement = foreign_inline; first = index; last = index }
      | none ↦ record { placement = absent; first = 0; last = 0 }
    ]
  ]
]

unfoldable pub trim_leading_blanks : List Text → List Text
trim_leading_blanks [] = []
trim_leading_blanks (l ∷ ls) = if text_eq (trim_space l) [] then trim_leading_blanks ls else l ∷ ls

-- trimTrailingBlanks.
unfoldable pub trim_trailing_blanks : List Text → List Text
unfolding trim_leading_blanks
trim_trailing_blanks lines = reverse (trim_leading_blanks (reverse lines))

-- appendBlock.
unfoldable pub after_blank : List Text → List Text → List Text
after_blank [] block = block
after_blank (l ∷ ls) block = (l ∷ ls) ++ ([] ∷ block)

unfoldable pub append_block : List Text → List Text → List Text
unfolding after_blank trim_trailing_blanks
append_block lines block = after_blank (trim_trailing_blanks lines) block

-- replaceLines.
unfoldable pub replace_lines : List Text → ℕ → ℕ → List Text → List Text
replace_lines lines first last block = take first lines ++ (block ++ drop (last + 1) lines)

-- The lines of renderRegion.
unfoldable pub region : Text → List Text → List Text
region id body =
    begin_marker id
    ∷ text "# Generated by LCTK. This region is rewritten; edit it through lctk."
    ∷ text "# The grant token is read from the named environment variable and is never stored here."
    ∷ (body ++ end_marker id ∷ [])

pub data MergeError : Type 0 where
  existing_invalid foreign_entry foreign_inline_entry invalid_document : MergeError

pub data Merged : Type 0 where
  merged : List Text → Merged
  refused : MergeError → Merged

-- The switch of Merge, by the placement.
unfoldable pub place : Bool → List Text → List Text → Location → Placement → Merged
unfolding append_block replace_lines
place force lines block l managed = merged (replace_lines lines l.first l.last block)
place force lines block l foreign =
    if force then merged (replace_lines lines l.first l.last block) else refused foreign_entry
place force lines block l foreign_inline = refused foreign_inline_entry
place force lines block l absent = merged (append_block lines block)

-- strings.TrimSpace of the document is empty.
unfoldable pub is_blank : List Text → Bool
is_blank [] = true
is_blank (l ∷ ls) = text_eq (trim_space l) [] && is_blank ls

module _ (valid : List Text → Bool) where
  check_result : Merged → Merged
  check_result (refused e) = refused e
  check_result (merged lines) = if valid lines then merged lines else refused invalid_document

  -- Merge, after the check of the entry, of the lines of a document.
  unfoldable pub merge : List Text → Text → List Text → Bool → Merged
  unfolding place locate check_result is_blank
  merge lines id body force =
      if not (is_blank lines) && not (valid lines)
      then refused existing_invalid
      else let l = locate lines id in
        check_result (place force lines (region id body) l l.placement)

  unfoldable pub remove_at : List Text → Location → Placement → Merged × Bool
  unfolding replace_lines trim_trailing_blanks is_blank
  remove_at lines l managed =
      let left = trim_trailing_blanks (replace_lines lines l.first l.last []) in
      if is_blank left || valid left then (merged left, true) else (refused invalid_document, false)
  remove_at lines l other = (merged lines, false)

  -- Remove.
  unfoldable pub remove : List Text → Text → Merged × Bool
  unfolding remove_at locate
  remove lines id = let l = locate lines id in remove_at lines l l.placement
