-- ===== src/Examples/Searching.antt =====
-- An index of two files, an engine that keeps documents in a list, and the operations of the store.
use lctk.Prelude.{
  Bool, map, ltb, length, ap, ◌∙◌, ℕ, ◌≡◌, ◌≢◌, refl, subst, inl, inr, Bool-cases, true, false,
  none, some, List, [], ◌∷◌, ◌++◌, Text, text, text_eq, text_eq_iff, trim_bytes, has_prefix, split,
  text_lt, if◌then◌else◌, lookup, insert, delete, pos, arith,
}
use lctk.Ignore.{contains, ignored, applies, root_rules, is_ignore_file, list_sources, note_sources}
use lctk.Glob.{match_glob}
use lctk.Inventory.{file, nil, entry, inventory, eligible}
use lctk.Inventory.Tally.{tally}
use lctk.Inventory.Scope.{normalize_relative}
use lctk.Index.{
  default_limits, Files, State, Change, Result, ok, err, index_corrupt, invalid_pattern, Reading,
  bytes, missing, digest_at, touches_ignore_rules,
}
use lctk.Index.Batch.{Workspace, Batch, new_batch, apply_changes}
use lctk.Index.Batch.Adding.{Spares, removes_above}
use lctk.Index.Batch.Paths.{wanted, after_changes, lookup-apply_changes}
use lctk.Index.Building.{decoded, points, Generation, Run, Engine, Index, resolve_current, build}
use lctk.Index.Updating.{
  InventoryResult, Applied, nothing_applied, take_inventory, update, reconcile, rebuild,
  differences, delta_plan,
}
use lctk.Index.Updating.Outcomes.{IsSound, Reports, update-Reports}
use lctk.Index.Updating.Reconciling.{Lists, reconcile-Lists}
use lctk.Index.Updating.Refusing.{Numbered, other_schema, reconcile_refused}
use lctk.Index.Updating.Documents.{matching, IsEngine}
use lctk.Index.Updating.Serving.{Serves, PublishesServing, delta-Serves}
use lctk.Index.Searching.{no_cursor, check_limit, all_pages}
use lctk.Index.Searching.Pages.{all_pages_lem}

-- The documents of the names that are not retracted.
retained : List Text → List (Text × Text) → List (Text × Text)
unfolding contains
retained names [] = []
retained names ((n, c) ∷ ds) =
    let rest = retained names ds in if contains n names then rest else (n, c) ∷ rest

abbrev engine : Engine
engine = record {
  Shards = List (Text × Text);
  no_shards = [];
  index_files = λ base names files. some (retained names base ++ files);
}

matching-retained :
    (names : List Text) (ds : List (Text × Text)) (k : Text)
    → matching k (retained names ds) ≡ (if contains k names then [] else matching k ds)
unfolding matching retained
matching-retained names [] k = ground arith
matching-retained names ((n, c) ∷ ds) k = elim (Bool-cases (text_eq n k)) [
  | inl same ↦
      let e : n ≡ k = (text_eq_iff n k).0 same in
      ground (arith, e, same, matching-retained names ds k)
  | inr other ↦ ground (arith, other, matching-retained names ds k)
]

matching-join :
    (ds es : List (Text × Text)) (k : Text) → matching k (ds ++ es) ≡ matching k ds ++ matching k es
unfolding matching
matching-join [] es k = refl
matching-join ((n, c) ∷ ds) es k = ground (arith, matching-join ds es k)

-- What this engine stores: a marker for a content that is too short to have a trigram.
kept : Text → Text
kept content = if ltb (length content) 3 then text "NOT-INDEXED" else content

kept-append : (cs ds : List Text) → map kept (cs ++ ds) ≡ map kept cs ++ map kept ds
kept-append [] ds = refl
kept-append (c ∷ cs) ds = ap (λ m. kept c ∷ m) (kept-append cs ds)

kept-matching :
    (out : Bool) (cs ds : List Text)
    → map kept ((if out then [] else cs) ++ ds) ≡ (if out then [] else map kept cs) ++ map kept ds
kept-matching true cs ds = refl
kept-matching false cs ds = kept-append cs ds

abbrev stored_for : List (Text × Text) → Text → List Text
stored_for ds k = map kept (matching k ds)

engine-IsEngine : IsEngine engine Text kept stored_for
unfolding matching
engine-IsEngine = record {
  no_documents = λ k. refl;
  documents-index_files = λ base built names files k e.
      let made : retained names base ++ files ≡ built = cc in
      subst
        (λ ds.
          stored_for ds k
          ≡ (if contains k names then [] else stored_for base k) ++ map kept (matching k files))
        made
        (ap (map kept) (
            matching-join (retained names base) files k
            ∙ ap (λ m. m ++ matching k files) (matching-retained names base k))
          ∙ kept-matching (contains k names) (matching k base) (matching k files));
}

hash : Text → Text
hash content = b'#' ∷ content

hash_full : (content : Text) → hash content ≢ []
unfolding hash
hash_full content e = cc

abbrev file_a : Text
file_a = text "a"

abbrev file_b : Text
file_b = text "b"

abbrev content_of : Text → Text → Text → Reading
content_of name content k = if text_eq name k then bytes content else missing

-- A workspace of one file.
abbrev workspace_of : Text → Text → Workspace
workspace_of name content = record {
  opens = true;
  tree = entry name (file true 1) nil;
  walked = ok tt;
  ignore_lines = λ path. none;
  stat = λ k. if text_eq name k then some (true, 1) else none;
  content = content_of name content;
}

abbrev workspace : Workspace
workspace = workspace_of file_a (text "x")

abbrev run_in : Workspace → Run (List (Text × Text))
run_in w = record {
  workspace = w;
  time = 7;
  cancelled = false;
  cancelled_at = λ k. false;
  no_generations = false;
  no_staging = false;
  no_links = false;
  no_state = false;
  target_kept = false;
  remains = none;
  not_renamed = false;
  not_published = false;
  not_listed = false;
  not_removed = λ n. false;
}

-- The published state lists an old digest of one file and a file that is gone.
abbrev old_files : Files
old_files = (file_a, text "#o") ∷ (file_b, text "#b") ∷ []

abbrev state_of : ℕ → State
state_of version = record {
  schema_version = version;
  generation = 4;
  delta_depth = 1;
  files = old_files;
  file_count = 2;
  skipped_big = 0;
  skipped_ignored = 0;
  source_bytes = 2;
  ignore_sources = [];
  built_at = 3;
  full_build = false;
}

abbrev generation_of_version : ℕ → Generation (List (Text × Text))
generation_of_version version = record {
  state = decoded (state_of version);
  shards = (file_a, text "o") ∷ (file_b, text "b") ∷ [];
}

abbrev store_of : ℕ → Index engine
store_of version = record {
  current = points 4;
  generations = λ n. some (generation_of_version version);
  searcher = none;
}

abbrev published : State
published = state_of 1

is_resolved : resolve_current (store_of 1) ≡ ok (4, published)
unfolding resolve_current
is_resolved = refl

apart_names : file_b ≢ file_a
apart_names e = ground (arith, e)

is_sound : IsSound default_limits published
is_sound = (refl, omega arith, ((apart_names, tt), (tt, tt)))

abbrev write_a : Change
write_a = record { path = file_a; deleted = false; subtree = false }

abbrev ReportsHere : State → (Result State × Applied × Index engine) → Type 0
ReportsHere = Reports engine hash default_limits (run_in workspace) workspace 4

update-Reports_example :
    ReportsHere published
      (update engine hash default_limits (run_in workspace) workspace (write_a ∷ []) (store_of 1))
    × ReportsHere published
        (reconcile engine hash default_limits (run_in workspace) workspace (store_of 1))
update-Reports_example =
    update-Reports engine hash default_limits (run_in workspace) workspace 4 published
      (write_a ∷ []) (store_of 1) (omega arith) refl is_sound is_resolved

-- What the loop makes of the write.
abbrev written : Batch
written = record {
  files = (file_a, text "#x") ∷ (file_b, text "#b") ∷ [];
  seen = file_a ∷ [];
  tombstone = file_a ∷ [];
  add = file_a ∷ [];
  unchanged = 0;
}

is_written :
    apply_changes hash default_limits.max_file_bytes workspace (write_a ∷ []) (new_batch old_files)
    ≡ ok written
unfolding apply_changes normalize_relative trim_bytes has_prefix split text_eq eligible ignored
    applies root_rules match_glob is_ignore_file contains lookup insert delete hash
is_written = refl

lookup-apply_changes_example :
    lookup file_b written.files
    ≡ after_changes hash default_limits.max_file_bytes workspace file_b
        (write_a ∷ [])
        []
        (lookup file_b old_files)
lookup-apply_changes_example =
    lookup-apply_changes hash default_limits.max_file_bytes workspace hash_full file_b
      (write_a ∷ []) (new_batch old_files) written is_written

clean_a : normalize_relative file_a ≡ some file_a
unfolding normalize_relative trim_bytes has_prefix split text_eq
clean_a = refl

clean_b : normalize_relative file_b ≡ some file_b
unfolding normalize_relative trim_bytes has_prefix split text_eq
clean_b = refl

spared_a : Spares file_a write_a
unfolding removes_above
spared_a = inr (file_a, clean_a, refl)

old_a :
    Serves engine Text kept stored_for engine-IsEngine hash file_a
      (generation_of_version 1).shards
      (lookup file_a old_files)
unfolding matching text_eq lookup hash kept
old_a = (text "o", refl, refl)

delta-Serves_example :
    PublishesServing engine Text kept stored_for engine-IsEngine hash file_a
      (build engine default_limits (run_in workspace) (delta_plan 4 published written) (store_of 1))
delta-Serves_example =
    delta-Serves engine Text kept stored_for engine-IsEngine hash file_a default_limits
      (run_in workspace) workspace 4 published (write_a ∷ []) written (generation_of_version 1)
      (store_of 1) (omega arith) is_written (spared_a, tt) refl refl old_a

abbrev listed : InventoryResult
listed = record {
  files = (file_a, text "#x") ∷ [];
  source_bytes = 1;
  skipped_big = 0;
  skipped_ignored = 0;
  ignore_sources = [];
}

is_listed : take_inventory hash workspace default_limits.max_file_bytes ≡ ok listed
unfolding take_inventory inventory tally ignored applies root_rules match_glob split text_eq
    has_prefix is_ignore_file contains insert hash list_sources note_sources
is_listed = refl

wanted_a : wanted hash default_limits.max_file_bytes workspace file_a ≡ some (text "#x")
unfolding wanted eligible ignored applies root_rules match_glob split text_eq has_prefix
    is_ignore_file contains hash
wanted_a = refl

settled :
    (k d : Text)
    → lookup k listed.files ≡ some d
    → wanted hash default_limits.max_file_bytes workspace k ≡ some d
unfolding lookup
settled k d e = elim (Bool-cases (text_eq file_a k)) [
  | inl same ↦
      let is_a : file_a ≡ k = (text_eq_iff file_a k).0 same in
      subst (λ n. wanted hash default_limits.max_file_bytes workspace n ≡ some d) is_a
        (ground (arith, wanted_a, e, same))
  | inr other ↦ absurd (ground (arith, e, other))
]

reconcile-Lists_example :
    Lists engine hash default_limits
      (run_in workspace)
      workspace
      listed.files
      (reconcile engine hash default_limits (run_in workspace) workspace (store_of 1))
reconcile-Lists_example =
    reconcile-Lists engine hash default_limits (run_in workspace) workspace listed is_listed
      hash_full published settled (clean_a, (clean_b, tt)) (clean_a, tt) 4 (store_of 1) is_resolved

other_schema_example :
    (update engine hash default_limits (run_in workspace) workspace (write_a ∷ []) (store_of 2)
      ≡ (err index_corrupt, nothing_applied, store_of 2))
    × (reconcile engine hash default_limits (run_in workspace) workspace (store_of 2)
        ≡ (err index_corrupt, nothing_applied, store_of 2))
    × Numbered 1 (rebuild engine hash default_limits (run_in workspace) workspace (store_of 2))
other_schema_example =
    other_schema engine hash default_limits (run_in workspace) workspace (store_of 2) (write_a ∷ [])
      4 (generation_of_version 2) (state_of 2) refl refl refl (omega arith)

-- A file name that looks like a path with a drive letter.
abbrev drive_name : Text
drive_name = text "c:d"

abbrev drive_workspace : Workspace
drive_workspace = workspace_of drive_name (text "x")

abbrev drive_listed : InventoryResult
drive_listed = record listed { files = (drive_name, text "#x") ∷ [] }

drive_is_listed :
    take_inventory hash drive_workspace default_limits.max_file_bytes ≡ ok drive_listed
unfolding take_inventory inventory tally ignored applies root_rules match_glob split text_eq
    has_prefix is_ignore_file contains insert hash list_sources note_sources
drive_is_listed = refl

drive_refused : normalize_relative drive_name ≡ none
unfolding normalize_relative trim_bytes has_prefix split text_eq
drive_refused = refl

drive_held : lookup drive_name drive_listed.files ≡ some (text "#x")
unfolding lookup text_eq
drive_held = refl

drive_stale : digest_at drive_name old_files ≢ text "#x"
unfolding digest_at lookup text_eq
drive_stale e = cc

no_rules : touches_ignore_rules (differences old_files drive_listed.files) ≡ false
unfolding touches_ignore_rules differences lookup digest_at text_eq text_lt is_ignore_file contains
    split has_prefix
no_rules = refl

reconcile_refused_example :
    reconcile engine hash default_limits (run_in drive_workspace) drive_workspace (store_of 1)
    ≡ (err invalid_pattern, nothing_applied, store_of 1)
reconcile_refused_example =
    reconcile_refused engine hash default_limits (run_in drive_workspace) drive_workspace 4
      published drive_listed drive_name (text "#x") (store_of 1) refl is_resolved drive_is_listed
      drive_held drive_stale drive_refused no_rules

abbrev hits : List ℕ
hits = 4 ∷ 7 ∷ 9 ∷ []

fills : text_eq (trim_bytes (text "x")) [] ≡ false
unfolding text_eq trim_bytes
fills = refl

two_each : check_limit (pos 2) ≡ ok 2
unfolding check_limit
two_each = refl

all_pages_lem_example : all_pages published 4 (text "x") (pos 2) hits no_cursor ≡ ok hits
all_pages_lem_example = all_pages_lem published (text "x") (pos 2) 2 hits fills two_each
