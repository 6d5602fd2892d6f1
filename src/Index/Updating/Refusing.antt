-- ===== src/Index/Updating/Refusing.antt =====
-- A file whose name normalizeRelative refuses: a full build lists it, Store.Reconcile cannot.
use lctk.Prelude.{
  ℕ, ◌≡◌, ◌≢◌, refl, subst, inl, inr, Bool-cases, true, false, Option-cases, none, some, List, [],
  ◌∷◌, Text, text_eq, text_eq_iff, if_cases, lookup, length, ◌==◌, arith,
}
use lctk.Inventory.Scope.{normalize_relative}
use lctk.Index.{
  Limits, State, Change, Code, Result, ok, err, invalid_pattern, index_corrupt, schema_version,
  digest_at, touches_ignore_rules,
}
use lctk.Index.Batch.{Workspace, Batch, new_batch, apply_named, apply_changes}
use lctk.Index.Building.{
  Run, Engine, Index, Store, Generation, BuildPlan, points, decoded, stage, commit, commit_staged,
  built_state, build, resolve_current, resolve_link, read_generation, read_state,
}
use lctk.Index.Updating.{
  InventoryResult, nothing_applied, take_inventory, apply_batch, update_published, update_resolved,
  update, reconcile_with, reconcile_resolved, reconcile, differences, rebuild_from, rebuild,
  rebuild_plan, next_generation, generation_of,
}
use lctk.Index.Updating.Outcomes.{take_inventory-HasKeys}
use lctk.Index.Updating.Differences.{find_change, find_change-differences}

module _ (digest_of : Text → Text) (max_bytes : ℕ) (w : Workspace) (k : Text) where
  -- One refused name refuses the batch.
  apply_changes-refused :
      (cs : List Change) (b : Batch)
      → find_change k cs ≢ none
      → normalize_relative k ≡ none
      → apply_changes digest_of max_bytes w cs b ≡ err invalid_pattern
  unfolding apply_changes find_change
  apply_changes-refused [] b found h = absurd (found refl)
  apply_changes-refused (c ∷ cs) b found h = elim (Bool-cases (text_eq c.path k)) [
    | inl same ↦ let e : c.path ≡ k = (text_eq_iff c.path k).0 same in ground (arith, e, h)
    | inr other ↦ elim (Option-cases (normalize_relative c.path)) [
      | inl refused ↦ ground (arith, refused)
      | inr (name, n) ↦ ground (
        arith,
        n,
        apply_changes-refused cs (apply_named digest_of max_bytes w name c b) (rw other at found) h,
      )
    ]
  ]

module _ (E : Engine) (digest_of : Text → Text) (limits : Limits) (r : Run E.Shards) (w : Workspace)
    (n : ℕ) (s : State) (i : InventoryResult) (k d : Text) where
  found_length : (cs : List Change) → find_change k cs ≢ none → (length cs == 0) ≡ false
  unfolding find_change
  found_length [] found = absurd (found refl)
  found_length (c ∷ cs) found = ground arith

  found_difference :
      take_inventory digest_of w limits.max_file_bytes ≡ ok i
      → lookup k i.files ≡ some d
      → digest_at k s.files ≢ d
      → find_change k (differences s.files i.files) ≢ none
  found_difference taken listed stale e =
      let keys = take_inventory-HasKeys digest_of w limits.max_file_bytes i taken in
      let found = find_change-differences k s.files i.files keys in
      elim (Bool-cases (text_eq (digest_at k s.files) d)) [
        | inl same ↦ stale ((text_eq_iff (digest_at k s.files) d).0 same)
        | inr other ↦ absurd (ground (arith, found, e, listed, other))
      ]

  update_published-refused :
      (cs : List Change) (st : Index E)
      → w.opens ≡ true
      → find_change k cs ≢ none
      → normalize_relative k ≡ none
      → touches_ignore_rules cs ≡ false
      → update_published E digest_of limits r w n s cs st
        ≡ (err invalid_pattern, nothing_applied, st)
  unfolding update_published apply_batch find_change
  update_published-refused [] st opens found h calm = absurd (found refl)
  update_published-refused (c ∷ cs) st opens found h calm =
      let refused =
        apply_changes-refused digest_of limits.max_file_bytes w k (c ∷ cs) (new_batch s.files) found
          h in
      rw (calm, refused) (ground (arith, opens))

  -- Let a state be published, the workspace open, the inventory be taken without an error, and no
  -- difference between them name an ignore file. If the inventory lists a file with another
  -- digest than the state has and normalizeRelative refuses its name, then Reconcile returns
  -- INVALID_PATTERN with nothing applied and leaves the store as it is.
  pub reconcile_refused :
      (st : Index E)
      → w.opens ≡ true
      → resolve_current st ≡ ok (n, s)
      → take_inventory digest_of w limits.max_file_bytes ≡ ok i
      → lookup k i.files ≡ some d
      → digest_at k s.files ≢ d
      → normalize_relative k ≡ none
      → touches_ignore_rules (differences s.files i.files) ≡ false
      → reconcile E digest_of limits r w st ≡ (err invalid_pattern, nothing_applied, st)
  unfolding reconcile reconcile_resolved reconcile_with update update_resolved
  reconcile_refused st opens h taken listed stale refused calm =
      let found = found_difference taken listed stale in
      let updated =
        update_published-refused (differences s.files i.files) st opens found refused calm in
      let some_change : (length (differences s.files i.files) == 0) ≡ false =
        found_length (differences s.files i.files) found in
      rw (h, taken, some_change, h) updated

-- The number of a state that a success returns.
abbrev pub Numbered : {Sh : Type 0} → ℕ → Result State × Store Sh → Type 0
Numbered n (ok s, st) = s.generation ≡ n
Numbered n (err e, st) = Unit {0}

module _ (E : Engine) (digest_of : Text → Text) (limits : Limits) (r : Run E.Shards)
    (w : Workspace) where
  commit_staged-Numbered :
      (p : BuildPlan) (g : Result (Generation E.Shards)) (st : Index E)
      → Numbered p.generation (commit_staged E limits r p g st)
  unfolding commit_staged commit built_state
  commit_staged-Numbered p (err e) st = tt
  commit_staged-Numbered p (ok g) st =
      if_cases (Numbered p.generation) r.target_kept _ _ (λ _. tt)
        λ _.
          if_cases (Numbered p.generation) r.not_renamed _ _ (λ _. tt)
            λ _. if_cases (Numbered p.generation) r.not_published _ _ (λ _. tt) λ _. refl

  build-Numbered : (p : BuildPlan) (st : Index E) → Numbered p.generation (build E limits r p st)
  unfolding build
  build-Numbered p st = commit_staged-Numbered p (stage E limits r p st) st

  first_number :
      (st : Index E) (e : Code)
      → resolve_current st ≡ err e
      → (i : InventoryResult) → (rebuild_plan (generation_of (resolve_current st)) i).generation ≡ 1
  unfolding rebuild_plan generation_of next_generation
  first_number st e h i = rw h refl

  rebuild_from-Numbered :
      (i : Result InventoryResult) (st : Index E) (e : Code)
      → resolve_current st ≡ err e
      → Numbered 1 (rebuild_from E digest_of limits r w i st)
  unfolding rebuild_from
  rebuild_from-Numbered (err c) st e h = tt
  rebuild_from-Numbered (ok i) st e h =
      let p = rebuild_plan (generation_of (resolve_current st)) i in
      let first : p.generation ≡ 1 = first_number st e h i in
      subst (λ n. Numbered n (build E limits r p st)) first (build-Numbered p st)

  corrupt_state :
      (st : Index E) (n : ℕ) (g : Generation E.Shards) (s : State)
      → st.current ≡ points n
      → st.generations n ≡ some g
      → g.state ≡ decoded s
      → s.schema_version ≢ schema_version
      → resolve_current st ≡ err index_corrupt
  unfolding resolve_current resolve_link read_generation read_state
  corrupt_state st n g s link held read other = ground arith

  -- If the published generation was written with another schema version, Update with any batch
  -- and Reconcile return INDEX_CORRUPT with nothing applied and leave the store as it is, and a
  -- Rebuild that succeeds returns a state with the number one.
  pub other_schema :
      (st : Index E) (cs : List Change) (n : ℕ) (g : Generation E.Shards) (s : State)
      → st.current ≡ points n
      → st.generations n ≡ some g
      → g.state ≡ decoded s
      → s.schema_version ≢ schema_version
      → (update E digest_of limits r w cs st ≡ (err index_corrupt, nothing_applied, st))
        × (reconcile E digest_of limits r w st ≡ (err index_corrupt, nothing_applied, st))
        × Numbered 1 (rebuild E digest_of limits r w st)
  unfolding update update_resolved reconcile reconcile_resolved rebuild
  other_schema st cs n g s link held read other =
      let corrupt : resolve_current st ≡ err index_corrupt =
        corrupt_state st n g s link held read other in
      (
        rw corrupt refl,
        rw corrupt refl,
        rebuild_from-Numbered (take_inventory digest_of w limits.max_file_bytes) st index_corrupt
            corrupt,
      )
