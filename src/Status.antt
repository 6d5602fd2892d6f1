-- ===== src/Status.antt =====
-- internal/gitinfo/parse.go: the reading of `git status --porcelain=v2 --branch -z`. A text is the
-- list of its bytes.
pub mod Splitting
pub mod Counts
pub mod Records
use lctk.Prelude.{
  ℕ, zero, suc, ◌+◌, ◌-◌, ◌*◌, ◌^◌, Bool, true, false, ◌&&◌, ◌||◌, not, Option, none, some, List,
  [], ◌∷◌, ◌++◌, Text, text, text_eq, has_prefix, ltb, leb, ◌==◌, if◌then◌else◌, length, take, drop,
  get_elem?, onto_first, split, cut,
}
use mathlib.Core.Option

pub record Change : Type 0 where
  pub path : Text
  pub state : Text
  pub staged : Bool
  pub working_tree : Bool
  pub from : Text

-- What parseStatus fills of Status.
pub record Status : Type 0 where
  pub branch : Text
  pub detached : Bool
  pub commit : Text
  pub short_commit : Text
  pub upstream : Text
  pub ahead : ℕ
  pub behind : ℕ
  pub dirty : Bool
  pub changed : List Change
  pub total : ℕ
  pub truncated : Bool
  pub unborn : Bool

abbrev pub no_change : Change
no_change = record { path = []; state = []; staged = false; working_tree = false; from = [] }

abbrev pub no_status : Status
no_status = record {
  branch = [];
  detached = false;
  commit = [];
  short_commit = [];
  upstream = [];
  ahead = 0;
  behind = 0;
  dirty = false;
  changed = [];
  total = 0;
  truncated = false;
  unborn = false;
}

-- strings.SplitN at one character, into at most so many parts.
unfoldable pub split_n : ℕ → ℕ → Text → List Text
split_n c zero s = []
split_n c (suc zero) s = s ∷ []
split_n c (suc (suc n)) [] = [] ∷ []
split_n c (suc (suc n)) (x ∷ s) =
    let fewer = split_n c (suc n) s in
    let same = split_n c (suc (suc n)) s in if x == c then [] ∷ fewer else onto_first x same

-- strings.TrimSuffix with one character.
unfoldable pub trim_suffix : ℕ → Text → Text
trim_suffix c [] = []
trim_suffix c (x ∷ []) = if x == c then [] else x ∷ []
trim_suffix c (x ∷ y ∷ s) = x ∷ trim_suffix c (y ∷ s)

-- strings.TrimLeft with the characters + and -.
trim_signs : Text → Text
trim_signs [] = []
trim_signs (x ∷ s) = if x == b'+' || x == b'-' then trim_signs s else x ∷ s

digits : ℕ → Text → Option ℕ
digits n [] = some n
digits n (x ∷ s) = if leb b'0' x && leb x b'9' then digits (10 * n + (x - b'0')) s else none

-- signedCount: strconv.Atoi after the signs, 0 where it fails.
unfoldable pub signed_count : Text → ℕ
unfolding trim_signs digits
signed_count field =
    let rest = trim_signs field in
    if text_eq rest []
    then 0
    else elim (digits 0 rest) [ some n ↦ if ltb n (2 ^ 63) then n else 0 | none ↦ 0 ]

-- parseHeader, after the header is cut.
unfoldable pub apply_header : Text → Text → Status → Status
unfolding signed_count
apply_header key value s =
    if text_eq key (text "branch.oid")
    then (if text_eq value (text "(initial)")
        then record s { unborn = true }
        else record s { commit = value })
    else if text_eq key (text "branch.head")
    then (if text_eq value (text "(detached)")
        then record s { detached = true }
        else record s { branch = value })
    else if text_eq key (text "branch.upstream")
    then record s { upstream = value }
    else if text_eq key (text "branch.ab")
    then elim (cut 32 value) [
      | some (ahead, behind) ↦ record s { ahead = signed_count ahead; behind = signed_count behind }
      | none ↦ s
    ]
    else s

unfoldable pub parse_header : Text → Status → Status
unfolding cut apply_header
parse_header header s = elim (cut 32 header) [
  | some (key, value) ↦ apply_header key value s
  | none ↦ s
]

unfoldable pub state_of : ℕ → Text
state_of c =
    if c == b'A'
    then text "added"
    else if c == b'M'
    then text "modified"
    else if c == b'D'
    then text "deleted"
    else if c == b'R'
    then text "renamed"
    else if c == b'C'
    then text "copied"
    else if c == b'T'
    then text "type-changed"
    else if c == b'U'
    then text "conflicted"
    else text "modified"

-- changeFromXY.
unfoldable pub change_from_xy : Text → Change
unfolding state_of
change_from_xy (x ∷ y ∷ rest) = record no_change {
  state = state_of (if x == b'.' then y else x);
  staged = not (x == b'.');
  working_tree = not (y == b'.');
}
change_from_xy _ = no_change

abbrev pub part : ℕ → List Text → Text
part i ts = elim (get_elem? ts i) [ some t ↦ t | none ↦ [] ]

-- lastField.
unfoldable pub last_field : Text → ℕ → Option Text
unfolding split_n
last_field line fixed =
    let parts = split_n 32 (suc fixed) line in
    if leb (length parts) fixed || text_eq (part fixed parts) []
    then none
    else some (part fixed parts)

-- parseOrdinary and parseRename, with 8 and 9 fixed fields.
unfoldable pub parse_fixed : ℕ → Text → Option Change
unfolding split_n change_from_xy
parse_fixed fixed line =
    let parts = split_n 32 (suc fixed) line in
    let path = part fixed parts in
    if ltb (length parts) (suc fixed) || text_eq path []
    then none
    else some (record (change_from_xy (part 1 parts)) { path = path })

-- Status.add.
unfoldable pub add : ℕ → Change → Status → Status
add max c s =
    if text_eq c.path []
    then s
    else if leb max (length s.changed)
    then record s { total = suc s.total; truncated = true }
    else record s { total = suc s.total; changed = s.changed ++ c ∷ [] }

abbrev pub add_parsed : ℕ → Option Change → Status → Status
add_parsed max none s = s
add_parsed max (some c) s = add max c s

-- One record: what it says, and for a rename the change that the next field completes.
unfoldable pub parse_record : ℕ → Text → Status → Option (Option Change) × Status
unfolding parse_header last_field parse_fixed add
parse_record max line s =
    if text_eq line []
    then (none, s)
    else if has_prefix (text "# ") line
    then (none, parse_header (drop 2 line) s)
    else if has_prefix (text "1 ") line
    then (none, add_parsed max (parse_fixed 8 line) s)
    else if has_prefix (text "2 ") line
    then (some (parse_fixed 9 line), s)
    else if has_prefix (text "u ") line
    then (
      none,
      add_parsed max
          (Option.map
            (λ p. record no_change { path = p; state = text "conflicted"; working_tree = true })
            (last_field line 11))
          s,
    )
    else if has_prefix (text "? ") line
    then (
      none,
      add max
          (record no_change { path = drop 2 line; state = text "untracked"; working_tree = true })
          s,
    )
    else (none, s)

abbrev pub from_path : Text → Change → Change
from_path f c = record c { from = f }

-- The loop of parseStatus. The field after a rename's record is its original path.
unfoldable pub parse_fields : ℕ → Option (Option Change) → Status → List Text → Status
unfolding parse_record
parse_fields max none s [] = s
parse_fields max (some c) s [] = add_parsed max c s
parse_fields max (some c) s (f ∷ fields) =
    parse_fields max none (add_parsed max (Option.map (from_path f) c) s) fields
parse_fields max none s (line ∷ fields) =
    parse_fields max (parse_record max line s).0 (parse_record max line s).1 fields

unfoldable pub finish : Status → Status
finish s = record s {
  dirty = ltb 0 s.total;
  short_commit = if leb 7 (length s.commit) then take 7 s.commit else s.short_commit;
}

unfoldable pub parse_status : Text → ℕ → Status
unfolding split trim_suffix parse_fields finish
parse_status raw max = finish (parse_fields max none no_status (split 0 (trim_suffix 0 raw)))
