-- ===== src/Index/Building.antt =====
-- How the index is built and published: resolveCurrent, Store.build, publish, prune, searcherFor and
-- invalidate of store.go and search.go. The shards are values of the engine, which is a parameter: it
-- gives none where creating the builder, adding a file or finishing fails. The staging directory and
-- the temporary link are left out of the state, since nothing reads them.
pub mod Publishing
use lctk.Prelude.{
  ℕ, zero, suc, ◌+◌, ◌-◌, Bool, true, false, not, ◌&&◌, ◌||◌, Option, none, some, List, [], ◌∷◌,
  ◌++◌, Text, text_lt, leb, ◌==◌, if◌then◌else◌, length,
}
use lctk.Index.{
  Limits, Files, State, schema_version, Code, index_not_ready, index_corrupt, internal_error,
  context_error, Result, ok, err, ◌>>=◌, ◌>>◌, unless, Reading, bytes, missing, unreadable,
}
use lctk.Index.Batch.{Workspace}

-- state.json of a generation.
pub data StateFile : Type 0 where
  unreadable_state : StateFile
  not_json : StateFile
  decoded : State → StateFile

-- What the link `current` resolves to.
pub data Link : Type 0 where
  absent : Link
  unresolvable : Link
  points : ℕ → Link

pub record Generation (Shards : Type 0) : Type 0 where
  pub state : StateFile
  pub shards : Shards

-- The state root with its generations, and the searcher that is open with its generation.
pub record Store (Shards : Type 0) : Type 0 where
  pub current : Link
  pub generations : ℕ → Option (Generation Shards)
  pub searcher : Option (ℕ × Shards)

pub record BuildPlan : Type 0 where
  pub generation : ℕ
  pub full : Bool
  pub previous : Option ℕ
  pub delta_depth : ℕ
  pub files : Files
  pub skipped_big : ℕ
  pub ignored : ℕ
  pub sources : List Text
  pub source_bytes : ℕ
  pub add : List Text
  pub tombstone : List Text

-- What one build meets: the source when it reads it, the time, which of its steps fail, what a failed
-- removal leaves of the target directory, and which old directories cannot be removed.
pub record Run (Shards : Type 0) : Type 0 where
  pub workspace : Workspace
  pub time : ℕ
  pub cancelled : Bool
  pub cancelled_at : Text → Bool
  pub no_generations : Bool
  pub no_staging : Bool
  pub no_links : Bool
  pub no_state : Bool
  pub target_kept : Bool
  pub remains : Option (Generation Shards)
  pub not_renamed : Bool
  pub not_published : Bool
  pub not_listed : Bool
  pub not_removed : ℕ → Bool

-- The engine over its shards: an empty directory, and a build over the shards it starts from, which
-- retracts the first names and adds the files.
pub record Engine : Type 1 where
  pub Shards : Type 0
  pub no_shards : Shards
  pub index_files : Shards → List Text → List (Text × Text) → Option Shards

-- sort.Strings.
unfoldable pub insert_name : Text → List Text → List Text
insert_name name [] = name ∷ []
insert_name name (n ∷ ns) = if text_lt n name then n ∷ insert_name name ns else name ∷ n ∷ ns

unfoldable pub sort_names : List Text → List Text
unfolding insert_name
sort_names [] = []
sort_names (n ∷ ns) = insert_name n (sort_names ns)

unfoldable pub read_state : ℕ → StateFile → Result (ℕ × State)
read_state n unreadable_state = err index_corrupt
read_state n not_json = err index_corrupt
read_state n (decoded s) =
    if s.schema_version == schema_version then ok (n, s) else err index_corrupt

unfoldable pub read_generation : {Sh : Type 0} → ℕ → Option (Generation Sh) → Result (ℕ × State)
unfolding read_state
read_generation n none = err index_not_ready
read_generation n (some g) = read_state n g.state

unfoldable pub resolve_link :
    {Sh : Type 0} → Link → (ℕ → Option (Generation Sh)) → Result (ℕ × State)
unfolding read_generation
resolve_link absent gens = err index_not_ready
resolve_link unresolvable gens = err index_corrupt
resolve_link (points n) gens = read_generation n (gens n)

-- resolveCurrent.
unfoldable pub resolve_current : {Sh : Type 0} → Store Sh → Result (ℕ × State)
unfolding resolve_link
resolve_current st = resolve_link st.current st.generations

-- A directory in place of another.
unfoldable pub put_generation :
    {Sh : Type 0}
    → ℕ
    → Option (Generation Sh)
    → (ℕ → Option (Generation Sh))
    → ℕ
    → Option (Generation Sh)
put_generation n g gens m = if n == m then g else gens m

-- Whether prune removes the directory of a number.
unfoldable pub pruned : ℕ → ℕ → ℕ → Bool
pruned keep current number = not (number == 0) && leb keep current && leb number (current - keep)

unfoldable pub read_answer : Text → Reading → Result (List (Text × Text))
read_answer name (bytes content) = ok ((name, content) ∷ [])
read_answer name missing = ok []
read_answer name unreadable = err internal_error

module _ (E : Engine) where
  abbrev pub Index : Type 0
  Index = Store E.Shards

  module _ (limits : Limits) (r : Run E.Shards) where
    -- The loop of build over the files to add.
    unfoldable pub read_files : List Text → Result (List (Text × Text))
    unfolding read_answer
    read_files [] = ok []
    read_files (name ∷ names) = do
      unless (r.cancelled_at name) context_error
      document ← read_answer name (r.workspace.content name)
      documents ← read_files names
      ok (document ++ documents)

    -- The shards that a build starts from: linkShards for a delta.
    unfoldable pub carried : BuildPlan → Index → Result E.Shards
    carried p st = if p.full then ok E.no_shards else elim p.previous [
      | none ↦ ok E.no_shards
      | some n ↦ elim (st.generations n) [
        | none ↦ err internal_error
        | some g ↦ if r.no_links then err internal_error else ok g.shards
      ]
    ]

    unfoldable pub built_state : BuildPlan → State
    built_state p = record {
      schema_version = schema_version;
      generation = p.generation;
      delta_depth = p.delta_depth;
      files = p.files;
      file_count = length p.files;
      skipped_big = p.skipped_big;
      skipped_ignored = p.ignored;
      source_bytes = p.source_bytes;
      ignore_sources = p.sources;
      built_at = r.time;
      full_build = p.full;
    }

    unfoldable pub finished : Option E.Shards → Result E.Shards
    finished none = err internal_error
    finished (some shards) = ok shards

    -- build up to the staged generation.
    unfoldable pub stage : BuildPlan → Index → Result (Generation E.Shards)
    unfolding read_files carried built_state finished
    stage p st = do
      unless r.cancelled context_error
      unless (r.no_generations || r.no_staging) internal_error
      base ← carried p st
      unless (not r.workspace.opens) internal_error
      documents ← read_files p.add
      shards ← finished (E.index_files base p.tombstone documents)
      unless r.no_state internal_error
      ok (record { state = decoded (built_state p); shards = shards })

    -- prune.
    unfoldable pub prune : ℕ → (ℕ → Option (Generation E.Shards)) → ℕ → Option (Generation E.Shards)
    unfolding pruned
    prune current gens m =
        if not r.not_listed && pruned limits.keep_generations current m && not (r.not_removed m)
        then none
        else gens m

    -- What a failed removal leaves of a directory, if it was there.
    unfoldable pub left_behind : Option (Generation E.Shards) → Option (Generation E.Shards)
    left_behind none = none
    left_behind (some g) = r.remains

    -- invalidate.
    unfoldable pub invalidate : Index → Index
    invalidate st = record st { searcher = none }

    -- build from the staged generation on: the target's removal, the rename, publish, invalidate, prune.
    unfoldable pub commit : ℕ → Generation E.Shards → State → Index → Result State × Index
    unfolding put_generation prune invalidate left_behind
    commit n g s st =
        let placed = put_generation n (some g) st.generations in
        if r.target_kept
        then (
          err internal_error,
          record st {
            generations = put_generation n (left_behind (st.generations n)) st.generations;
          },
        )
        else if r.not_renamed
        then (err internal_error, record st { generations = put_generation n none st.generations })
        else if r.not_published
        then (err internal_error, record st { generations = placed })
        else (ok s, invalidate (record st { current = points n; generations = prune n placed }))

    unfoldable pub commit_staged :
        BuildPlan → Result (Generation E.Shards) → Index → Result State × Index
    unfolding commit built_state
    commit_staged p (err e) st = (err e, st)
    commit_staged p (ok g) st = commit p.generation g (built_state p) st

    -- Store.build.
    unfoldable pub build : BuildPlan → Index → Result State × Index
    unfolding commit_staged stage
    build p st = commit_staged p (stage p st) st

  -- searcherFor: `opened` is what opening the directory gives, as an error or its shards.
  unfoldable pub searcher_for : ℕ → Result E.Shards → Index → Result E.Shards × Index
  searcher_for generation opened st =
      let open_new : Result E.Shards × Index = elim opened [
        | err e ↦ (err e, st)
        | ok shards ↦ (ok shards, record st { searcher = some (generation, shards) })
      ] in
      elim st.searcher [
        | none ↦ open_new
        | some (g, shards) ↦ if g == generation then (ok shards, st) else open_new
      ]
