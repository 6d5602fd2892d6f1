-- ===== src/Index/Updating/Reconciling.antt =====
-- After Store.Reconcile the index lists what a full build would list.
use lctk.Prelude.{
  ℕ, ◌≡◌, ◌≢◌, refl, sym, ap, ◌∙◌, inl, inr, Bool-cases, true, false, not, ◌&&◌, Option, none, some,
  List, [], ◌∷◌, Text, text_eq, text_eq_iff, if_cases, lookup, length, ◌==◌, arith,
}
use lctk.Ignore.{contains}
use lctk.Index.{Limits, Files, State, Change, Result, ok, err, digest_at, touches_ignore_rules}
use lctk.Index.Batch.{Workspace, Batch, new_batch, apply_changes}
use lctk.Index.Batch.Paths.{wanted, lookup-apply_changes, digest_at-full, wanted-full}
use lctk.Index.Batch.Tracking.{IsTracked, new_batch-IsTracked, apply_changes-IsTracked}
use lctk.Index.Building.{
  BuildPlan, Run, Engine, Index, Generation, resolve_current, build, built_state, stage, commit,
  commit_staged,
}
use lctk.Index.Updating.{
  InventoryResult, Outcome, rebuild_plan, delta_plan, take_inventory, rebuild_from, rebuild,
  rebuild_for, escalated, applied_delta, escalates, apply_batch, update_published, update_resolved,
  update, reconcile_with, reconcile_resolved, reconcile, differences, generation_of,
}
use lctk.Index.Updating.Outcomes.{take_inventory-HasKeys}
use lctk.Index.Updating.Differences.{
  HasCleanNames, differences-IsPlain, find_change-differences, after_changes-find_change,
  changed_to, to_write, to_delete, first_of,
}

contains-empty : (k : Text) (ns : List Text) → length ns ≡ 0 → contains k ns ≡ false
unfolding contains
contains-empty k [] h = refl
contains-empty k (n ∷ ns) h = absurd (omega arith)

-- Files that the index lists as another list does.
abbrev pub ListsAlike : Files → Files → Type 0
ListsAlike files listed = (k : Text) → lookup k files ≡ lookup k listed

module _ (E : Engine) (digest_of : Text → Text) (limits : Limits) (r : Run E.Shards)
    (w : Workspace) where
  abbrev Builds : Files → Result State × Index E → Type 0
  Builds files (ok s, st) = s.files ≡ files
  Builds files (err e, st) = Unit {0}

  commit-Builds :
      (p : BuildPlan) (g : Generation E.Shards) (st : Index E)
      → Builds p.files (commit E limits r p.generation g (built_state E limits r p) st)
  unfolding commit built_state
  commit-Builds p g st =
      if_cases (Builds p.files) r.target_kept _ _ (λ _. tt)
        λ _.
          if_cases (Builds p.files) r.not_renamed _ _ (λ _. tt)
            λ _. if_cases (Builds p.files) r.not_published _ _ (λ _. tt) λ _. refl

  commit_staged-Builds :
      (p : BuildPlan) (g : Result (Generation E.Shards)) (st : Index E)
      → Builds p.files (commit_staged E limits r p g st)
  unfolding commit_staged
  commit_staged-Builds p (err e) st = tt
  commit_staged-Builds p (ok g) st = commit-Builds p g st

  build-Builds : (p : BuildPlan) (st : Index E) → Builds p.files (build E limits r p st)
  unfolding build
  build-Builds p st = commit_staged-Builds p (stage E limits r p st) st

  -- A successful outcome lists these files.
  abbrev pub Lists : Files → Outcome E → Type 0
  Lists listed (ok s, a, st) = ListsAlike s.files listed
  Lists listed (err e, a, st) = Unit {0}

  module _ (i : InventoryResult)
      (taken : take_inventory digest_of w limits.max_file_bytes ≡ ok i) where
    escalated-Lists :
        (out : Result State × Index E)
        → Builds i.files out
        → Lists i.files (escalated E digest_of limits r w out)
    unfolding escalated
    escalated-Lists (ok s, st) e = λ k. ap (lookup k) e
    escalated-Lists (err e, st) h = tt

    applied_delta-Lists :
        (b : Batch) (out : Result State × Index E)
        → Builds b.files out
        → ListsAlike b.files i.files
        → Lists i.files (applied_delta E digest_of limits r w b out)
    unfolding applied_delta
    applied_delta-Lists b (ok s, st) e h = λ k. ap (lookup k) e ∙ h k
    applied_delta-Lists b (err e, st) h alike = tt

    rebuild_for-Lists : (st : Index E) → Lists i.files (rebuild_for E digest_of limits r w st)
    unfolding rebuild_for rebuild rebuild_from rebuild_plan
    rebuild_for-Lists st =
        let p = rebuild_plan (generation_of (resolve_current st)) i in
        rw taken (escalated-Lists (build E limits r p st) (build-Builds p st))

    module _ (s : State) (b : Batch) (alike : ListsAlike b.files i.files)
        (tracked : (k : Text) → IsTracked k s.files b) where
      same-Lists : length b.add == 0 && length b.tombstone == 0 ≡ true → ListsAlike s.files i.files
      same-Lists none_changed k =
          let (added, retracted) : (length b.add ≡ 0) × (length b.tombstone ≡ 0) = ground arith in
          sym (
            (tracked k).kept (contains-empty k b.add added)
              (contains-empty k b.tombstone retracted))
          ∙ alike k

      apply_batch-Lists :
          (n : ℕ) (st : Index E) → Lists i.files (apply_batch E digest_of limits r w n s (ok b) st)
      unfolding apply_batch delta_plan
      apply_batch-Lists n st =
          if_cases (Lists i.files) (length b.add == 0 && length b.tombstone == 0) _ _
            (λ none_changed. same-Lists none_changed)
            (λ _.
              if_cases (Lists i.files) (escalates E digest_of limits r w s b) _ _
                (λ _. rebuild_for-Lists st)
                (λ _. applied_delta-Lists b _ (build-Builds (delta_plan n s b) st) alike))

    module _ (hashed : (content : Text) → digest_of content ≢ []) (s : State)
        (settled : (k d : Text)
          → lookup k i.files ≡ some d
          → wanted digest_of limits.max_file_bytes w k ≡ some d)
        (indexed_clean : HasCleanNames s.files) (listed_clean : HasCleanNames i.files) where
      settled_path :
          (k : Text) (listed : Option Text)
          → lookup k i.files ≡ listed
          → changed_to digest_of limits.max_file_bytes w k
              (first_of
                (to_write k (digest_at k s.files) listed)
                (to_delete k (lookup k s.files) listed))
              (lookup k s.files)
            ≡ listed
      settled_path k none e = ground arith
      settled_path k (some d) e =
          let found = settled k d e in
          let full = wanted-full digest_of limits.max_file_bytes w hashed k d found in
          elim (Bool-cases (text_eq (digest_at k s.files) d)) [
            | inl same ↦
                let held =
                  digest_at-full k d s.files ((text_eq_iff (digest_at k s.files) d).0 same) full in
                ground (arith, same, held)
            | inr other ↦ ground (arith, other, found)
          ]

      batch_alike :
          (b : Batch)
          → apply_changes digest_of limits.max_file_bytes w
              (differences s.files i.files)
              (new_batch s.files)
            ≡ ok b
          → ListsAlike b.files i.files
      unfolding contains
      batch_alike b e k =
          let cs = differences s.files i.files in
          let keys = take_inventory-HasKeys digest_of w limits.max_file_bytes i taken in
          let plain = differences-IsPlain s.files i.files indexed_clean listed_clean in
          lookup-apply_changes digest_of limits.max_file_bytes w hashed k cs (new_batch s.files) b e
          ∙ after_changes-find_change digest_of limits.max_file_bytes w k cs [] (lookup k s.files)
              plain
          ∙ ap (λ o. changed_to digest_of limits.max_file_bytes w k o (lookup k s.files))
              (find_change-differences k s.files i.files keys)
          ∙ settled_path k (lookup k i.files) refl

      no_differences : differences s.files i.files ≡ [] → ListsAlike s.files i.files
      unfolding apply_changes
      no_differences e = batch_alike (new_batch s.files) (rw e refl)

      changed-Lists :
          (n : ℕ) (batch : Result Batch) (st : Index E)
          → apply_changes digest_of limits.max_file_bytes w
              (differences s.files i.files)
              (new_batch s.files)
            ≡ batch
          → Lists i.files (apply_batch E digest_of limits r w n s batch st)
      changed-Lists n (err e) st h = unfold apply_batch in tt
      changed-Lists n (ok b) st h =
          apply_batch-Lists s b (batch_alike b h)
            (λ k.
              apply_changes-IsTracked k s.files digest_of limits.max_file_bytes w
                (differences s.files i.files) (new_batch s.files) b (new_batch-IsTracked k s.files)
                h)
            n st

      update_published-Lists :
          (n : ℕ) (cs : List Change) (st : Index E)
          → differences s.files i.files ≡ cs
          → Lists i.files (update_published E digest_of limits r w n s cs st)
      unfolding update_published
      update_published-Lists n [] st e = no_differences e
      update_published-Lists n (c ∷ cs) st e =
          if_cases (Lists i.files) (touches_ignore_rules (c ∷ cs)) _ _ (λ _. rebuild_for-Lists st)
            (λ _.
              if_cases (Lists i.files) (not w.opens) _ _ (λ _. tt)
                (λ _.
                  changed-Lists n
                    (apply_changes digest_of limits.max_file_bytes w (c ∷ cs) (new_batch s.files))
                    st (rw e refl)))

      update-Lists :
          (n : ℕ) (st : Index E)
          → resolve_current st ≡ ok (n, s)
          → Lists i.files (update E digest_of limits r w (differences s.files i.files) st)
      unfolding update update_resolved
      update-Lists n st h = rw h (update_published-Lists n (differences s.files i.files) st refl)

      -- Let a state be published, the inventory of the workspace be taken without an error, no
      -- content have the empty digest, a targeted read of each file that the inventory lists find
      -- the digest that the inventory lists, and normalizeRelative leave the names of the state's
      -- files and of the inventory's as they are. Then a state that Reconcile returns without an
      -- error lists every path with the digest that the inventory lists for it, and no other
      -- path, whether it was built as a delta, as a whole or not at all.
      pub reconcile-Lists :
          (n : ℕ) (st : Index E)
          → resolve_current st ≡ ok (n, s)
          → Lists i.files (reconcile E digest_of limits r w st)
      unfolding reconcile reconcile_resolved reconcile_with
      reconcile-Lists n st h =
          rw (h, taken)
            (if_cases (Lists i.files) (length (differences s.files i.files) == 0) _ _
              (λ same. no_differences (ground arith)) (λ _. update-Lists n st h))
