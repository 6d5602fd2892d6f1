-- ===== src/Index/Updating/Serving.antt =====
-- What the shards hold, path by path, agrees with the files that the state lists.
use lctk.Prelude.{
  map, ℕ, ◌<◌, ◌≡◌, refl, ap, ◌∙◌, inl, inr, Bool-cases, true, false, not, ◌||◌, Option, none, some,
  List, [], ◌∷◌, ◌++◌, append_nil, replicate, Text, if◌then◌else◌, if_cases, lookup, arith, All,
}
use lctk.Ignore.{contains}
use lctk.Index.{
  Limits, State, Change, Result, ok, err, bytes, first_step_ok, unless, context_error,
  internal_error,
}
use lctk.Index.Batch.{Workspace, Batch, new_batch, apply_changes}
use lctk.Index.Batch.Tracking.{
  occurrences, occurrences-absent, IsTracked, new_batch-IsTracked, apply_changes-IsTracked,
}
use lctk.Index.Batch.Adding.{Spares, new_batch-IsAdded, apply_changes-IsAdded}
use lctk.Index.Building.{
  Run, Engine, Index, Generation, sort_names, put_generation, read_files, carried, finished, stage,
  commit, commit_staged, built_state, build, invalidate,
}
use lctk.Index.Building.Publishing.{prune-kept}
use lctk.Index.Updating.{delta_plan}
use lctk.Index.Updating.Documents.{
  matching, IsEngine, occurrences-sort_names, contains-sort_names, occurrences-contained,
  matching-read_files,
}

module _ (E : Engine) (Document : Type 0) (stored : Text → Document)
    (documents : E.Shards → Text → List Document) (engine : IsEngine E Document stored documents)
    (digest_of : Text → Text) (k : Text) where
  -- The shards hold nothing for a path that is not listed, and for one that is, one document, which is
  -- what the engine stores for a content with the listed digest.
  abbrev pub Serves : E.Shards → Option Text → Type 0
  Serves shards none = documents shards k ≡ []
  Serves shards (some digest) =
      (content : Text) × (documents shards k ≡ stored content ∷ []) × (digest_of content ≡ digest)

  -- The shards of the generation that a success returns serve its files.
  abbrev pub PublishesServing : Result State × Index E → Type 0
  PublishesServing (ok s', st') =
      (g : Generation E.Shards) × (st'.generations s'.generation ≡ some g)
      × Serves g.shards (lookup k s'.files)
  PublishesServing (err e, st') = Unit {0}

  same-Serves :
      (base built : E.Shards) (o : Option Text)
      → documents built k ≡ documents base k
      → Serves base o
      → Serves built o
  same-Serves base built none e h = e ∙ h
  same-Serves base built (some d) e (content, one, digest) = (content, e ∙ one, digest)

  module _ (limits : Limits) (r : Run E.Shards) (s : State) (b : Batch)
      (tracked : IsTracked k s.files b)
      (stable : contains k b.add ≡ true
        → (content : Text) × (r.workspace.content k ≡ bytes content)
          × (lookup k b.files ≡ some (digest_of content))) where
    added_once : contains k b.add ≡ true → occurrences k (sort_names b.add) ≡ 1
    added_once added =
        omega (
          arith,
          occurrences-sort_names k b.add,
          occurrences-contained k b.add added,
          tracked.single,
        )

    never_added : contains k b.add ≡ false → occurrences k (sort_names b.add) ≡ 0
    never_added absent = occurrences-sort_names k b.add ∙ occurrences-absent k b.add absent

    -- What the earlier shards keep of a path that is added.
    nothing_carried :
        (base : E.Shards)
        → Serves base (lookup k s.files)
        → contains k b.add ≡ true
        → (if contains k (sort_names b.tombstone) then [] else documents base k) ≡ []
    nothing_carried base before added = elim (Bool-cases (contains k b.tombstone)) [
      | inl gone ↦ rw (contains-sort_names k b.tombstone, gone) refl
      | inr kept ↦
          rw (contains-sort_names k b.tombstone, kept) (rw (tracked.replaced added kept) at before)
    ]

    added-Serves :
        (base built : E.Shards) (read : List (Text × Text))
        → Serves base (lookup k s.files)
        → read_files E limits r (sort_names b.add) ≡ ok read
        → E.index_files base (sort_names b.tombstone) read ≡ some built
        → contains k b.add ≡ true
        → Serves built (lookup k b.files)
    added-Serves base built read before h made added =
        let (content, found, listed) = stable added in
        rw listed (
          content,
          rw
              (
                engine.documents-index_files base built (sort_names b.tombstone) read k made,
                nothing_carried base before added,
                matching-read_files E limits r k (sort_names b.add) read content h (λ _. found),
                added_once added,
              )
              refl,
          refl,
        )

    absent-Serves :
        (base built : E.Shards) (read : List (Text × Text))
        → Serves base (lookup k s.files)
        → read_files E limits r (sort_names b.add) ≡ ok read
        → E.index_files base (sort_names b.tombstone) read ≡ some built
        → contains k b.add ≡ false
        → Serves built (lookup k b.files)
    absent-Serves base built read before h made absent =
        let nothing : matching k read ≡ [] =
          matching-read_files E limits r k (sort_names b.add) read [] h
            (λ (c : contains k (sort_names b.add) ≡ true).
              absurd (ground (arith, c, contains-sort_names k b.add, absent)))
          ∙ ap (λ n. replicate n []) (never_added absent) in
        let law : documents built k
            ≡ (if contains k (sort_names b.tombstone) then [] else documents base k)
              ++ map stored [] =
          rw nothing at
            (engine.documents-index_files base built (sort_names b.tombstone) read k made) in
        elim (Bool-cases (contains k b.tombstone)) [
          | inl gone ↦
              rw (tracked.retracted absent gone)
                (rw (contains-sort_names k b.tombstone, gone) at law)
          | inr kept ↦ rw (tracked.kept absent kept) (
              same-Serves base built (lookup k s.files)
                ((rw (contains-sort_names k b.tombstone, kept) at law)
                  ∙ append_nil (documents base k))
                before)
        ]

    pub shards-Serves :
        (base built : E.Shards) (read : List (Text × Text))
        → Serves base (lookup k s.files)
        → read_files E limits r (sort_names b.add) ≡ ok read
        → E.index_files base (sort_names b.tombstone) read ≡ some built
        → Serves built (lookup k b.files)
    shards-Serves base built read before h made = elim (Bool-cases (contains k b.add)) [
      | inl added ↦ added-Serves base built read before h made added
      | inr absent ↦ absent-Serves base built read before h made absent
    ]

    stage-delta :
        (dir : ℕ) (g g' : Generation E.Shards) (st : Index E)
        → st.generations dir ≡ some g
        → stage E limits r (delta_plan dir s b) st ≡ ok g'
        → (read : List (Text × Text)) × (read_files E limits r (sort_names b.add) ≡ ok read)
          × (E.index_files g.shards (sort_names b.tombstone) read ≡ some g'.shards)
    unfolding stage delta_plan carried finished
    stage-delta dir g g' st held h =
        let (_, _, h1) = first_step_ok (unless r.cancelled context_error) _ h in
        let (_, _, h2) =
          first_step_ok (unless (r.no_generations || r.no_staging) internal_error) _ h1 in
        let (base, from, h3) = first_step_ok (carried E limits r (delta_plan dir s b) st) _ h2 in
        let (_, _, h4) = first_step_ok (unless (not r.workspace.opens) internal_error) _ h3 in
        let (read, h5, h6) = first_step_ok (read_files E limits r (sort_names b.add)) _ h4 in
        let (built, h7, h8) =
          first_step_ok (finished E limits r (E.index_files base (sort_names b.tombstone) read)) _
            h6 in
        let (_, _, h9) = first_step_ok (unless r.no_state internal_error) _ h8 in
        let same : base ≡ g.shards = ground (arith, from, held) in
        (read, h5, rw (← same) (ground (arith, h7, h9)))

    placed_here :
        (n : ℕ) (g : Option (Generation E.Shards)) (gens : ℕ → Option (Generation E.Shards))
        → put_generation n g gens n ≡ g
    unfolding put_generation
    placed_here n g gens = ground arith

    -- A pair that is a success, with what its store holds of a generation.
    abbrev Places : ℕ → Generation E.Shards → State → Result State × Index E → Type 0
    Places n g s' (ok s'', st') = (s'' ≡ s') × (st'.generations n ≡ some g)
    Places n g s' (err e, st') = Unit {0}

    commit-Places :
        (n : ℕ) (g : Generation E.Shards) (s' : State) (st : Index E)
        → 0 < limits.keep_generations
        → Places n g s' (commit E limits r n g s' st)
    unfolding commit put_generation invalidate
    commit-Places n g s' st keep =
        if_cases (Places n g s') r.target_kept _ _ (λ _. tt)
          λ _.
            if_cases (Places n g s') r.not_renamed _ _ (λ _. tt)
              λ _.
                if_cases (Places n g s') r.not_published _ _ (λ _. tt)
                  λ _. (
                    refl,
                    prune-kept E limits r 0 s n n (put_generation n (some g) st.generations)
                          (omega (arith, keep))
                        ∙ placed_here n (some g) st.generations,
                  )

    placed-Serving :
        (dir : ℕ) (g' : Generation E.Shards) (out : Result State × Index E)
        → Places
            (delta_plan dir s b).generation
            g'
            (built_state E limits r (delta_plan dir s b))
            out
        → Serves g'.shards (lookup k b.files)
        → PublishesServing out
    unfolding built_state delta_plan
    placed-Serving dir g' (ok s', st') h serves =
        let e : s'.generation ≡ (delta_plan dir s b).generation = ground (arith, h.0) in
        let same : s'.files ≡ b.files = ground (arith, h.0) in (g', rw e h.1, rw same serves)
    placed-Serving dir g' (err e, st') h serves = tt

    staged-Serving :
        (dir : ℕ) (g : Generation E.Shards) (staged : Result (Generation E.Shards)) (st : Index E)
        → 0 < limits.keep_generations
        → st.generations dir ≡ some g
        → Serves g.shards (lookup k s.files)
        → stage E limits r (delta_plan dir s b) st ≡ staged
        → PublishesServing (commit_staged E limits r (delta_plan dir s b) staged st)
    unfolding commit_staged
    staged-Serving dir g (err e) st keep held before h = tt
    staged-Serving dir g (ok g') st keep held before h =
        let (read, found, made) = stage-delta dir g g' st held h in
        placed-Serving dir g' _ (commit-Places _ g' _ st keep)
          (shards-Serves g.shards g'.shards read before found made)

    delta-Serving :
        (dir : ℕ) (g : Generation E.Shards) (st : Index E)
        → 0 < limits.keep_generations
        → st.generations dir ≡ some g
        → Serves g.shards (lookup k s.files)
        → PublishesServing (build E limits r (delta_plan dir s b) st)
    unfolding build
    delta-Serving dir g st keep held before =
        staged-Serving dir g (stage E limits r (delta_plan dir s b) st) st keep held before refl

  -- Let the engine hold after a build what it held before, less the names retracted, and what it
  -- stores for each file added, be it the content or a marker in its place; let the loop of
  -- Update take a batch whose changes remove no directory above a path, and the path's content be
  -- the same when the build reads it as when the loop did. If the generation that the delta
  -- starts from holds for the path one document, stored for a content with the digest that the
  -- old state lists, or none where it lists none, and at least one generation is kept, then a
  -- delta that is built without an error is published under its number, and its shards hold for
  -- the path one document, stored for a content with the digest that the new state lists, or none
  -- where it lists none.
  pub delta-Serves :
      (limits : Limits) (r : Run E.Shards) (w : Workspace) (dir : ℕ) (s : State) (cs : List Change)
      (b : Batch) (g : Generation E.Shards) (st : Index E)
      → 0 < limits.keep_generations
      → apply_changes digest_of limits.max_file_bytes w cs (new_batch s.files) ≡ ok b
      → All (Spares k) cs
      → r.workspace.content k ≡ w.content k
      → st.generations dir ≡ some g
      → Serves g.shards (lookup k s.files)
      → PublishesServing (build E limits r (delta_plan dir s b) st)
  delta-Serves limits r w dir s cs b g st keep applied spared unchanged held before =
      delta-Serving limits r s b
        (apply_changes-IsTracked k s.files digest_of limits.max_file_bytes w cs (new_batch s.files)
          b (new_batch-IsTracked k s.files) applied)
        (rw unchanged
          (apply_changes-IsAdded k digest_of limits.max_file_bytes w cs (new_batch s.files) b spared
            (new_batch-IsAdded k digest_of limits.max_file_bytes w s.files) applied).read)
        dir g st keep held before
