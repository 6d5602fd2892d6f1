-- ===== src/Index/Updating.antt =====
-- Store.Rebuild, Store.Update and Store.Reconcile of store.go, over the inventory of a workspace. `w`
-- is the source as an operation first reads it, the run of a build holds it as the build reads it.
pub mod Outcomes
pub mod Refusing
pub mod Documents
pub mod Serving
pub mod Reconciling
pub mod Differences
use lctk.Prelude.{
  ℕ, zero, suc, ◌+◌, ◌*◌, ◌%◌, ◌^◌, Bool, true, false, not, ◌&&◌, ◌||◌, Option, none, some, List,
  [], ◌∷◌, ◌++◌, Text, text_eq, text_lt, ltb, ◌==◌, if◌then◌else◌, length, lookup, insert,
}
use lctk.Ignore.{list_sources}
use lctk.Inventory.{Candidate, inventory}
use lctk.Inventory.Tally.{tally}
use lctk.Index.{
  Limits, Files, State, Change, Code, index_not_ready, index_corrupt, invalid_pattern,
  invalid_cursor, limit_exceeded, internal_error, context_error, Result, ok, err, ◌>>=◌, ◌>>◌,
  unless, Reading, bytes, missing, unreadable, bulk, touches_ignore_rules, digest_at,
}
use lctk.Index.Batch.{Workspace, Batch, new_batch, apply_changes, not_retracted}
use lctk.Index.Building.{Store, BuildPlan, Run, Engine, Index, sort_names, resolve_current, build}

pub record InventoryResult : Type 0 where
  pub files : Files
  pub source_bytes : ℕ
  pub skipped_big : ℕ
  pub skipped_ignored : ℕ
  pub ignore_sources : List Text

pub record Applied : Type 0 where
  pub changed : ℕ
  pub unchanged : ℕ
  pub rebuilt : Bool
  pub generations : ℕ

abbrev pub nothing_applied : Applied
nothing_applied = record { changed = 0; unchanged = 0; rebuilt = false; generations = 0 }

-- What Update and Reconcile return, with the store they leave.
abbrev pub Outcome : Engine → Type 0
Outcome E = Result State × Applied × Index E

-- Generation is a uint64.
unfoldable pub next_generation : ℕ → ℕ
next_generation n = (n + 1) % 2 ^ 64

unfoldable pub total_size : List Candidate → ℕ
total_size [] = 0
total_size (c ∷ cs) = c.1 + total_size cs

-- The keys of a map.
unfoldable pub names : Files → List Text
names [] = []
names (f ∷ files) = f.0 ∷ names files

-- sort.Slice by the path.
unfoldable pub insert_change : Change → List Change → List Change
insert_change c [] = c ∷ []
insert_change c (d ∷ ds) = if text_lt d.path c.path then d ∷ insert_change c ds else c ∷ d ∷ ds

unfoldable pub sort_changes : List Change → List Change
unfolding insert_change
sort_changes [] = []
sort_changes (c ∷ cs) = insert_change c (sort_changes cs)

-- The two loops of Reconcile: over the inventory's files, and over the state's.
unfoldable pub writes : Files → Files → List Change
unfolding digest_at
writes indexed [] = []
writes indexed ((name, digest) ∷ files) =
    let rest = writes indexed files in
    if text_eq (digest_at name indexed) digest
    then rest
    else record { path = name; deleted = false; subtree = false } ∷ rest

unfoldable pub deletions : Files → Files → List Change
deletions listed [] = []
deletions listed ((name, digest) ∷ files) =
    let rest = deletions listed files in
    elim (lookup name listed) [
      | some d ↦ rest
      | none ↦ record { path = name; deleted = true; subtree = false } ∷ rest
    ]

unfoldable pub differences : Files → Files → List Change
unfolding writes deletions sort_changes
differences indexed listed = sort_changes (writes indexed listed ++ deletions listed indexed)

unfoldable pub file_count_of : Result State → ℕ
file_count_of (ok s) = s.file_count
file_count_of (err e) = 0

abbrev pub whole_build : ℕ → Applied
whole_build count = record { changed = count; unchanged = 0; rebuilt = true; generations = 1 }

module _ (digest_of : Text → Text) (w : Workspace) where
  unfoldable pub digest_answer : Text → Reading → Files → Result Files
  digest_answer name (bytes content) files = ok (insert name (digest_of content) files)
  digest_answer name missing files = err internal_error
  digest_answer name unreadable files = err internal_error

  -- The digests of the candidates, in the candidates' order.
  unfoldable pub digest_all : List Candidate → Files → Result Files
  unfolding digest_answer
  digest_all [] files = ok files
  digest_all ((name, size) ∷ cs) files = do
    files' ← digest_answer name (w.content name) files
    digest_all cs files'

  -- Store.inventory.
  unfoldable pub take_inventory : ℕ → Result InventoryResult
  unfolding digest_all total_size
  take_inventory max_bytes = do
    unless (not w.opens) internal_error
    w.walked
    let candidates = inventory w.ignore_lines max_bytes w.tree
    let t = tally w.ignore_lines max_bytes w.tree
    files ← digest_all candidates []
    ok (record {
      files = files;
      source_bytes = total_size candidates;
      skipped_big = t.skipped_big;
      skipped_ignored = t.skipped_ignored;
      ignore_sources = list_sources t.sources;
    })

unfoldable pub generation_of : Result (ℕ × State) → ℕ
generation_of (ok (n, s)) = s.generation
generation_of (err e) = 0

unfoldable pub rebuild_plan : ℕ → InventoryResult → BuildPlan
unfolding next_generation names
rebuild_plan previous i = record {
  generation = next_generation previous;
  full = true;
  previous = none;
  delta_depth = 0;
  files = i.files;
  skipped_big = i.skipped_big;
  ignored = i.skipped_ignored;
  sources = i.ignore_sources;
  source_bytes = i.source_bytes;
  add = sort_names (names i.files);
  tombstone = [];
}

unfoldable pub delta_plan : ℕ → State → Batch → BuildPlan
unfolding next_generation
delta_plan dir s b = record {
  generation = next_generation s.generation;
  full = false;
  previous = some dir;
  delta_depth = s.delta_depth + 1;
  files = b.files;
  skipped_big = s.skipped_big;
  ignored = s.skipped_ignored;
  sources = s.ignore_sources;
  source_bytes = s.source_bytes;
  add = sort_names b.add;
  tombstone = sort_names b.tombstone;
}

module _ (E : Engine) (digest_of : Text → Text) (limits : Limits) (r : Run E.Shards)
    (w : Workspace) where
  unfoldable pub rebuild_from : Result InventoryResult → Index E → Result State × Index E
  unfolding rebuild_plan generation_of
  rebuild_from (err e) st = (err e, st)
  rebuild_from (ok i) st = build E limits r (rebuild_plan (generation_of (resolve_current st)) i) st

  -- Store.Rebuild.
  unfoldable pub rebuild : Index E → Result State × Index E
  unfolding rebuild_from take_inventory
  rebuild st = rebuild_from (take_inventory digest_of w limits.max_file_bytes) st

  unfoldable pub escalated : Result State × Index E → Outcome E
  escalated (ok s, st) = (ok s, whole_build s.file_count, st)
  escalated (err e, st) = (err e, nothing_applied, st)

  -- rebuildFor.
  unfoldable pub rebuild_for : Index E → Outcome E
  unfolding escalated rebuild
  rebuild_for st = escalated (rebuild st)

  unfoldable pub changed_paths : Batch → ℕ
  unfolding not_retracted
  changed_paths b = length b.tombstone + not_retracted b.tombstone b.add

  unfoldable pub applied_delta : Batch → Result State × Index E → Outcome E
  unfolding changed_paths
  applied_delta b (err e, st) = (err e, nothing_applied, st)
  applied_delta b (ok s, st) = (
    ok s,
    record { changed = changed_paths b; unchanged = b.unchanged; rebuilt = false; generations = 1 },
    st,
  )

  -- Whether a batch is built as a whole.
  unfoldable pub escalates : State → Batch → Bool
  unfolding bulk changed_paths
  escalates s b =
      ltb limits.max_delta_generations (s.delta_depth + 1)
      || bulk limits (changed_paths b) s.file_count

  -- Update after its loop.
  unfoldable pub apply_batch : ℕ → State → Result Batch → Index E → Outcome E
  unfolding escalates delta_plan applied_delta rebuild_for
  apply_batch dir s (err e) st = (err e, nothing_applied, st)
  apply_batch dir s (ok b) st =
      if length b.add == 0 && length b.tombstone == 0
      then (ok s, record nothing_applied { unchanged = b.unchanged }, st)
      else if escalates s b
      then rebuild_for st
      else applied_delta b (build E limits r (delta_plan dir s b) st)

  unfoldable pub update_published : ℕ → State → List Change → Index E → Outcome E
  unfolding touches_ignore_rules apply_batch rebuild_for
  update_published dir s [] st = (ok s, nothing_applied, st)
  update_published dir s (c ∷ cs) st =
      if touches_ignore_rules (c ∷ cs)
      then rebuild_for st
      else if not w.opens
      then (err internal_error, nothing_applied, st)
      else apply_batch dir s
          (apply_changes digest_of limits.max_file_bytes w (c ∷ cs) (new_batch s.files)) st

  unfoldable pub first_build : Result State × Index E → Outcome E
  unfolding file_count_of
  first_build built = (built.0, whole_build (file_count_of built.0), built.1)

  unfoldable pub not_ready : Code → Bool
  not_ready index_not_ready = true
  not_ready index_corrupt = false
  not_ready invalid_pattern = false
  not_ready invalid_cursor = false
  not_ready limit_exceeded = false
  not_ready internal_error = false
  not_ready context_error = false

  unfoldable pub update_resolved : Result (ℕ × State) → List Change → Index E → Outcome E
  unfolding not_ready first_build rebuild update_published
  update_resolved (err e) cs st =
      if not_ready e then first_build (rebuild st) else (err e, nothing_applied, st)
  update_resolved (ok (dir, s)) cs st = update_published dir s cs st

  -- Store.Update.
  unfoldable pub update : List Change → Index E → Outcome E
  unfolding update_resolved
  update cs st = update_resolved (resolve_current st) cs st

  unfoldable pub reconcile_with : State → Result InventoryResult → Index E → Outcome E
  unfolding differences update
  reconcile_with s (err e) st = (err e, nothing_applied, st)
  reconcile_with s (ok i) st =
      let cs = differences s.files i.files in
      if length cs == 0 then (ok s, nothing_applied, st) else update cs st

  unfoldable pub reconcile_resolved : Result (ℕ × State) → Index E → Outcome E
  unfolding reconcile_with take_inventory rebuild_for not_ready
  reconcile_resolved (err e) st =
      if not_ready e then rebuild_for st else (err e, nothing_applied, st)
  reconcile_resolved (ok (dir, s)) st =
      reconcile_with s (take_inventory digest_of w limits.max_file_bytes) st

  -- Store.Reconcile.
  unfoldable pub reconcile : Index E → Outcome E
  unfolding reconcile_resolved
  reconcile st = reconcile_resolved (resolve_current st) st
