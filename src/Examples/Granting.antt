-- ===== src/Examples/Granting.antt =====
-- Credentials of projects, a reading of git's output, and a ring of records.
use lctk.Prelude.{
  ℕ, ◌≡◌, ◌≢◌, refl, true, false, none, List, [], ◌∷◌, ◌++◌, Text, text, text_eq, trim_space, All,
  Any, arith, map, take, drop, ◌-◌,
}
use lctk.Grants.{Grant, found, resolve, contains, is_expired, permits}
use lctk.Grants.Scope.{resolve-found}
use lctk.Ring.{new, add_all, snapshot}
use lctk.Ring.Order.{snapshot-add_all}
use lctk.Status.{parse_status, parse_record, no_status}
use lctk.Status.Splitting.{fixed_then, terminated}
use lctk.Status.Records.{
  Entry, ordinary, renamed, untracked, header_fields, all_fields, meant, IsWritten,
  parse_status-entries, unmerged_dropped,
}

abbrev held : Grant
held = record {
  id = text "g";
  client = text "codex";
  project_ids = text "p" ∷ text "qq" ∷ [];
  token = text "tok";
  issued_at = 0;
  expires_at = 50;
  revoked = false;
}

accepted : resolve (text " tok ") (text "p") 40 (held ∷ []) ≡ found held
unfolding resolve contains permits is_expired text_eq trim_space
accepted = refl

resolve-found_example :
    Any (λ h. (h ≡ held) × (h.token ≡ trim_space (text " tok "))) (held ∷ [])
    × (trim_space (text " tok ") ≢ [])
    × (false ≡ false)
    × (is_expired 40 held ≡ false)
    × (permits (text "p") held ≡ true)
resolve-found_example = resolve-found (text " tok ") (text "p") 40 (held ∷ []) held accepted

trimmed : trim_space (text "new") ≡ text "new"
unfolding trim_space
trimmed = refl

named : text "new" ≢ []
named e = cc e

abbrev six : List Text
six = text "N" ∷ text "1" ∷ text "1" ∷ text "1" ∷ text "h" ∷ text "h" ∷ []

abbrev edited : Entry
edited = ordinary b'.' b'M' six (text "a b.go")

abbrev moved : Entry
moved = renamed b'R' b'.' (six ++ text "R9" ∷ []) (text "new.go") (text "old.go")

abbrev added : Entry
added = untracked (text "x")

sample-IsWritten : All IsWritten (edited ∷ moved ∷ added ∷ [])
sample-IsWritten = ground arith

abbrev branch : List Text
branch = text "branch.head main" ∷ text "branch.ab +1 -0" ∷ []

parse_status-entries_example :
    let s =
      parse_status
        (terminated (
          header_fields (text "branch.oid 12ab" ∷ branch)
          ++ all_fields (edited ∷ moved ∷ added ∷ [])))
        2 in
    (s.changed ≡ take 2 (map meant (edited ∷ moved ∷ added ∷ [])))
    × (s.total ≡ 3)
    × (s.dirty ≡ true)
unfolding text_eq
parse_status-entries_example =
    parse_status-entries (text "branch.oid 12ab") branch (edited ∷ moved ∷ added ∷ []) 2
      sample-IsWritten (ground arith)

abbrev nine : List Text
nine = text "UU" ∷ six ++ text "h" ∷ text "h" ∷ []

unmerged_dropped_example :
    parse_record 5 (fixed_then (text "u" ∷ nine) (text "main.go")) no_status ≡ (none, no_status)
unmerged_dropped_example =
    unmerged_dropped 5 nine (text "main.go") no_status refl (ground arith) (ground arith)

abbrev three : List ℕ
three = 1 ∷ 2 ∷ 3 ∷ []

snapshot-add_all_example : snapshot (add_all three (new 0 2)) ≡ drop (3 - 2) three
snapshot-add_all_example = snapshot-add_all 0 2 three
