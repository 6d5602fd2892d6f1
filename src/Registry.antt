-- ===== src/Registry.antt =====
-- internal/projectregistry/registry.go and store.go: the registrations of projects. A registry is the
-- list of its projects. Canonical paths, derived ids, the identity of files and the folding of
-- names are a record `Host`: packages os and internal/projectpath, and strings.EqualFold.
pub mod Validity
pub mod Finding
pub mod Storing
use lctk.Prelude.{
  ℕ, ◌-◌, ◌%◌, Bool, true, false, ◌||◌, ◌&&◌, not, Option, none, some, List, [], ◌∷◌, ◌++◌, Text,
  text, text_eq, text_lt, trim_space, has_prefix, ltb, ◌==◌, if◌then◌else◌, map,
}
use lctk.Files.{Disk, Faults, write_file, WriteError}
use lctk.Policy.{Approvals}

abbrev pub schema_version : ℕ
schema_version = 1

abbrev pub profile_minimal : Text
profile_minimal = text "minimal"

abbrev pub profile_full : Text
profile_full = text "full"

-- Profile.Valid.
unfoldable pub is_profile : Text → Bool
is_profile p = text_eq p profile_minimal || text_eq p profile_full

pub record Project : Type 0 where
  pub id : Text
  pub name : Text
  pub path : Text
  pub key : Text
  pub case_insensitive : Bool
  pub profile : Text
  pub registered_at : ℕ
  pub manifest_present : Bool
  pub commands : Approvals
  pub resource_mode : Text

-- projectpath.Canonical, without the input.
pub record Canonical : Type 0 where
  pub display : Text
  pub key : Text
  pub base : Text
  pub case_insensitive : Bool

-- What is not in the package: os.Stat with os.SameFile, projectpath.Resolve, projectpath.DeriveID,
-- strings.EqualFold.
pub record Host : Type 0 where
  pub stat : Text → Option ℕ
  pub canonical : Text → Option Canonical
  pub derive_id : Canonical → Text
  pub equal_fold : Text → Text → Bool

pub data RegistryError : Type 0 where
  invalid_profile : Text → RegistryError
  already_registered : Project → Bool → RegistryError
  id_taken : Text → Text → RegistryError
  not_found : RegistryError
  ambiguous : List Text → RegistryError
  schema_too_new empty_id : RegistryError
  empty_path empty_key : Text → RegistryError
  bad_profile : Text → Text → RegistryError
  id_used_twice : Text → RegistryError
  unreadable : RegistryError
  unwritten : WriteError → RegistryError

pub data Outcome : Type 0 where
  found : Project → Outcome
  refused : RegistryError → Outcome

abbrev pub Registry : Type 0
Registry = List Project

-- List.
insert_by_id : Project → List Project → List Project
insert_by_id p [] = p ∷ []
insert_by_id p (q ∷ qs) = if text_lt p.id q.id then p ∷ q ∷ qs else q ∷ insert_by_id p qs

unfoldable pub list : Registry → List Project
unfolding insert_by_id
list [] = []
list (p ∷ ps) = insert_by_id p (list ps)

-- The first registration with an id.
unfoldable pub with_id : Text → Registry → Option Project
with_id id [] = none
with_id id (p ∷ ps) = if text_eq p.id id then some p else with_id id ps

-- One round of matching: the same file, another file, or a path that cannot be inspected.
unfoldable pub compare_files : Option ℕ → Option ℕ → Option Bool
compare_files (some a) (some b) = some (a == b)
compare_files (some a) none = none
compare_files none b = none

abbrev pub Match : Type 0
Match = Option (Project × Bool)

unfoldable pub match_one : Option Bool → Bool → Project → Match → Match
match_one (some true) same_key p rest = some (p, true)
match_one (some false) same_key p rest = rest
match_one none same_key p rest = if same_key then some (p, false) else rest

-- The ids in the order of sort.Strings.
insert_text : Text → List Text → List Text
insert_text s [] = s ∷ []
insert_text s (t ∷ ts) = if text_lt s t then s ∷ t ∷ ts else t ∷ insert_text s ts

unfoldable pub sorted_ids : List Project → List Text
unfolding insert_text
sorted_ids [] = []
sorted_ids (p ∷ ps) = insert_text p.id (sorted_ids ps)

unfoldable pub by_count : List Project → Outcome
unfolding sorted_ids
by_count [] = refused not_found
by_count (p ∷ []) = found p
by_count (p ∷ q ∷ ps) = refused (ambiguous (sorted_ids (p ∷ q ∷ ps)))

-- The loop of SetCommands and SetResourceMode.
unfoldable pub change_first : Text → (Project → Project) → Registry → Registry
change_first id f [] = []
change_first id f (p ∷ ps) = if text_eq p.id id then f p ∷ ps else p ∷ change_first id f ps

unfoldable pub change_one : Text → (Project → Project) → Registry → Registry × Option RegistryError
unfolding change_first with_id
change_one id f ps = elim (with_id id ps) [
  | some p ↦ (change_first id f ps, none)
  | none ↦ (ps, some not_found)
]

unfoldable pub set_commands : Text → Approvals → Registry → Registry × Option RegistryError
unfolding change_one
set_commands id commands ps = change_one id (λ p. record p { commands = commands }) ps

unfoldable pub set_resource_mode : Text → Text → Registry → Registry × Option RegistryError
unfolding change_one
set_resource_mode id mode ps = change_one id (λ p. record p { resource_mode = mode }) ps

unfoldable pub remove_first : Text → Registry → Registry
remove_first id [] = []
remove_first id (p ∷ ps) = if text_eq p.id id then ps else p ∷ remove_first id ps

-- The end of Remove.
unfoldable pub remove_found : Outcome → Registry → Registry × Outcome
unfolding remove_first with_id
remove_found (refused e) ps = (ps, refused e)
remove_found (found p) ps = elim (with_id p.id ps) [
  | some q ↦ (remove_first p.id ps, found p)
  | none ↦ (ps, refused not_found)
]

-- The end of Add.
unfoldable pub add_new : Project → Registry → Registry × Outcome
unfolding with_id
add_new project ps = elim (with_id project.id ps) [
  | some p ↦ (ps, refused (id_taken p.id p.path))
  | none ↦ (ps ++ project ∷ [], found project)
]

module _ (h : Host) where
  unfoldable pub matching_from : Option ℕ → Canonical → Registry → Match
  unfolding match_one compare_files
  matching_from candidate c [] = none
  matching_from candidate c (p ∷ ps) =
      match_one (compare_files candidate (h.stat p.path)) (text_eq p.key c.key) p
        (matching_from candidate c ps)

  -- matching.
  unfoldable pub matching : Canonical → Registry → Match
  unfolding matching_from
  matching c ps = matching_from (h.stat c.display) c ps

  abbrev pub new_project : Canonical → Text → Bool → ℕ → Project
  new_project c profile manifest now = record {
    id = h.derive_id c;
    name = c.base;
    path = c.display;
    key = c.key;
    case_insensitive = c.case_insensitive;
    profile = profile;
    registered_at = now - now % 1000000000;
    manifest_present = manifest;
    commands = record { image = []; network = []; approvals = [] };
    resource_mode = [];
  }

  -- Add.
  unfoldable pub add : Canonical → Text → Bool → ℕ → Registry → Registry × Outcome
  unfolding is_profile matching add_new
  add c asked manifest now ps =
      let profile = if text_eq asked [] then profile_minimal else asked in
      if not (is_profile profile)
      then (ps, refused (invalid_profile profile))
      else elim (matching c ps) [
        | some (existing, same_file) ↦ (ps, refused (already_registered existing same_file))
        | none ↦ add_new (new_project c profile manifest now) ps
      ]

  -- The projects that a name or the beginning of an id picks.
  unfoldable pub picked : Text → Registry → List Project
  picked reference [] = []
  picked reference (p ∷ ps) =
      if h.equal_fold p.name reference || has_prefix reference p.id
      then p ∷ picked reference ps
      else picked reference ps

  -- The path that a reference names.
  unfoldable pub by_path : Option Canonical → Registry → Match
  unfolding matching
  by_path none ps = none
  by_path (some c) ps = matching c ps

  resolve_trimmed : Text → Registry → Outcome
  unfolding by_path picked by_count
  resolve_trimmed reference ps =
      if text_eq reference [] then refused not_found else elim (with_id reference ps) [
        | some p ↦ found p
        | none ↦ elim (by_path (h.canonical reference) ps) [
          | some (p, same_file) ↦ found p
          | none ↦ by_count (picked reference ps)
        ]
      ]

  -- Resolve.
  unfoldable pub resolve : Text → Registry → Outcome
  unfolding resolve_trimmed
  resolve reference ps = resolve_trimmed (trim_space reference) ps

  -- Remove.
  unfoldable pub remove : Text → Registry → Registry × Outcome
  unfolding remove_found resolve
  remove reference ps = remove_found (resolve reference ps) ps

-- validate, from a registration on, with the ids that were seen.
unfoldable pub contains : Text → List Text → Bool
contains id [] = false
contains id (i ∷ ids) = text_eq i id || contains id ids

unfoldable pub check_one : List Text → Project → Option RegistryError
unfolding is_profile contains
check_one seen p =
    if text_eq p.id []
    then some empty_id
    else if text_eq p.path []
    then some (empty_path p.id)
    else if text_eq p.key []
    then some (empty_key p.id)
    else if not (is_profile p.profile)
    then some (bad_profile p.id p.profile)
    else if contains p.id seen
    then some (id_used_twice p.id)
    else none

unfoldable pub validate_from : List Text → Registry → Option RegistryError
unfolding check_one
validate_from seen [] = none
validate_from seen (p ∷ ps) = elim (check_one seen p) [
  | some e ↦ some e
  | none ↦ validate_from (p.id ∷ seen) ps
]

unfoldable pub validate : Registry → Option RegistryError
unfolding validate_from
validate ps = validate_from [] ps

pub record Document : Type 0 where
  pub version : ℕ
  pub projects : List Project

with_profile : Project → Project
with_profile p = if text_eq p.profile [] then record p { profile = profile_minimal } else p

-- migrate. A document of version 0 is read as one of version 1. A negative version, which is read
-- like one, is represented by 1.
unfoldable pub migrate : Document → Option Registry
unfolding with_profile
migrate d =
    let version = if d.version == 0 then 1 else d.version in
    if ltb schema_version version then none else some (map with_profile d.projects)

-- What reading the file gives.
pub data Stored : Type 0 where
  missing broken : Stored
  stored : Document → Stored

pub data Loaded : Type 0 where
  loaded : Registry → Loaded
  failed : RegistryError → Loaded

unfoldable pub load_valid : Registry → Loaded
unfolding validate
load_valid ps = elim (validate ps) [ some e ↦ failed e | none ↦ loaded ps ]

-- Load.
unfoldable pub load : Stored → Loaded
unfolding migrate load_valid
load missing = loaded []
load broken = failed unreadable
load (stored d) = elim (migrate d) [ none ↦ failed schema_too_new | some ps ↦ load_valid ps ]

-- Save.
unfoldable pub save : Faults → Registry → Disk Document → Disk Document × Option RegistryError
unfolding validate list
save f ps disk = elim (validate ps) [
  | some e ↦ (disk, some e)
  | none ↦
      let (disk', e) =
        write_file f (record { version = schema_version; projects = list ps }) disk in
      (disk', elim e [ none ↦ none | some why ↦ some (unwritten why) ])
]
