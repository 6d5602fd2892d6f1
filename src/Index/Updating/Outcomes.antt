-- ===== src/Index/Updating/Outcomes.antt =====
-- What Store.Update and Store.Reconcile leave published, and what they report of it.
use lctk.Prelude.{
  ℕ, ◌≤◌, ◌<◌, ◌≡◌, ◌≢◌, refl, ap, not, ◌⊎◌, inl, inr, false, ◌&&◌, List, [], ◌∷◌, Text, HasKeys,
  insert-HasKeys, insert, arith, ◌==◌, if_cases, length,
}
use lctk.Inventory.{Candidate, inventory}
use lctk.Index.{
  Limits, Files, State, Change, Result, ok, err, Reading, bytes, missing, unreadable, unless,
  internal_error, first_step_ok, touches_ignore_rules,
}
use lctk.Index.Batch.{Workspace, Batch, new_batch, apply_changes}
use lctk.Index.Batch.Keys.{apply_changes-HasKeys}
use lctk.Index.Building.{BuildPlan, Run, Engine, Index, resolve_current, build, built_state}
use lctk.Index.Building.Publishing.{Publishes, build-Publishes}
use lctk.Index.Updating.{
  InventoryResult, nothing_applied, Outcome, next_generation, rebuild_plan, delta_plan,
  digest_answer, digest_all, take_inventory, generation_of, rebuild_from, rebuild, rebuild_for,
  escalated, applied_delta, escalates, apply_batch, update_published, update_resolved, update,
  reconcile_with, reconcile_resolved, reconcile, differences,
}

digest_answer-HasKeys :
    (digest_of : Text → Text) (w : Workspace) (name : Text) (reading : Reading)
    (files files' : Files)
    → HasKeys files
    → digest_answer digest_of w name reading files ≡ ok files'
    → HasKeys files'
unfolding digest_answer
digest_answer-HasKeys digest_of w name (bytes content) files files' h e =
    let same : insert name (digest_of content) files ≡ files' = ground arith in
    rw (← same) (insert-HasKeys name (digest_of content) files h)
digest_answer-HasKeys digest_of w name missing files files' h e = cc
digest_answer-HasKeys digest_of w name unreadable files files' h e = cc

digest_all-HasKeys :
    (digest_of : Text → Text) (w : Workspace) (cs : List Candidate) (files files' : Files)
    → HasKeys files
    → digest_all digest_of w cs files ≡ ok files'
    → HasKeys files'
unfolding digest_all
digest_all-HasKeys digest_of w [] files files' h e =
    let same : files ≡ files' = ground arith in rw (← same) h
digest_all-HasKeys digest_of w ((name, size) ∷ cs) files files' h e =
    let (next, one, rest) =
      first_step_ok (digest_answer digest_of w name (w.content name) files) _ e in
    digest_all-HasKeys digest_of w cs next files'
      (digest_answer-HasKeys digest_of w name (w.content name) files next h one) rest

-- The digests that an inventory holds are those of the files it lists.
pub take_inventory-digest_all :
    (digest_of : Text → Text) (w : Workspace) (max_bytes : ℕ) (i : InventoryResult)
    → take_inventory digest_of w max_bytes ≡ ok i
    → digest_all digest_of w (inventory w.ignore_lines max_bytes w.tree) [] ≡ ok i.files
unfolding take_inventory
take_inventory-digest_all digest_of w max_bytes i e =
    let (_, _, e') = first_step_ok (unless (not w.opens) internal_error) _ e in
    let (_, _, e'') = first_step_ok w.walked _ e' in
    let (files, digested, last) =
      first_step_ok (digest_all digest_of w (inventory w.ignore_lines max_bytes w.tree) []) _ e'' in
    ground arith

pub take_inventory-HasKeys :
    (digest_of : Text → Text) (w : Workspace) (max_bytes : ℕ) (i : InventoryResult)
    → take_inventory digest_of w max_bytes ≡ ok i
    → HasKeys i.files
take_inventory-HasKeys digest_of w max_bytes i e =
    digest_all-HasKeys digest_of w (inventory w.ignore_lines max_bytes w.tree) [] i.files tt
      (take_inventory-digest_all digest_of w max_bytes i e)

-- The counts of a state agree with its files, and its deltas are within the limit.
abbrev pub IsSound : Limits → State → Type 0
IsSound l s =
    (s.file_count ≡ length s.files) × (s.delta_depth ≤ l.max_delta_generations) × HasKeys s.files

module _ (E : Engine) (digest_of : Text → Text) (limits : Limits) (r : Run E.Shards)
    (w : Workspace) where
  -- After an error a reader sees what it saw. After a success that reports no generation, too, and
  -- that is what is returned; after one that reports a generation, the next one, which is returned.
  abbrev pub Reports : ℕ → State → Outcome E → Type 0
  Reports n s (err e, a, st) = (a ≡ nothing_applied) × (resolve_current st ≡ ok (n, s))
  Reports n s (ok s', a, st) =
      ((a.generations ≡ 0) × (s' ≡ s) × (resolve_current st ≡ ok (n, s)))
      ⊎ ((a.generations ≡ 1)
          × (s'.generation ≡ next_generation s.generation)
          × IsSound limits s'
          × (resolve_current st ≡ ok (s'.generation, s')))

  module _ (n : ℕ) (s : State) (keep : 0 < limits.keep_generations)
      (numbered : n ≡ s.generation) where
    numbered_apart : next_generation s.generation ≢ n
    unfolding next_generation
    numbered_apart e = omega (arith, e, numbered)

    escalated-Reports :
        (p : BuildPlan) (out : Result State × Index E)
        → p.generation ≡ next_generation s.generation
        → IsSound limits (built_state E limits r p)
        → Publishes E limits r n s p out
        → Reports n s (escalated E digest_of limits r w out)
    unfolding escalated built_state
    escalated-Reports p (ok s', st) e sound h =
        inr (refl, ground (arith, e, h.0), rw h.0 sound, ground (arith, h))
    escalated-Reports p (err c, st) e sound h = (refl, h)

    applied_delta-Reports :
        (p : BuildPlan) (b : Batch) (out : Result State × Index E)
        → p.generation ≡ next_generation s.generation
        → IsSound limits (built_state E limits r p)
        → Publishes E limits r n s p out
        → Reports n s (applied_delta E digest_of limits r w b out)
    unfolding applied_delta built_state
    applied_delta-Reports p b (ok s', st) e sound h =
        inr (refl, ground (arith, e, h.0), rw h.0 sound, ground (arith, h))
    applied_delta-Reports p b (err c, st) e sound h = (refl, h)

    generation_of_ok : generation_of (ok (n, s)) ≡ s.generation
    unfolding generation_of
    generation_of_ok = refl

    rebuild_from-Reports :
        (i : Result InventoryResult) (st : Index E)
        → resolve_current st ≡ ok (n, s)
        → take_inventory digest_of w limits.max_file_bytes ≡ i
        → Reports n s (escalated E digest_of limits r w (rebuild_from E digest_of limits r w i st))
    unfolding rebuild_from escalated rebuild_plan built_state
    rebuild_from-Reports (err e) st h taken = (refl, h)
    rebuild_from-Reports (ok i) st h taken =
        let p = rebuild_plan (generation_of (resolve_current st)) i in
        let from : generation_of (resolve_current st) ≡ s.generation = rw h generation_of_ok in
        escalated-Reports p (build E limits r p st) (ap next_generation from)
          (refl, omega arith, take_inventory-HasKeys digest_of w limits.max_file_bytes i taken)
          (build-Publishes E limits r n s p st h keep (rw from numbered_apart))

    rebuild_for-Reports :
        (st : Index E)
        → resolve_current st ≡ ok (n, s)
        → Reports n s (rebuild_for E digest_of limits r w st)
    unfolding rebuild_for rebuild
    rebuild_for-Reports st h =
        rebuild_from-Reports (take_inventory digest_of w limits.max_file_bytes) st h refl

    delta-IsSound :
        (b : Batch)
        → HasKeys b.files
        → escalates E digest_of limits r w s b ≡ false
        → IsSound limits (built_state E limits r (delta_plan n s b))
    unfolding built_state delta_plan escalates
    delta-IsSound b h few = (refl, ground (arith, few), h)

    delta_next : (b : Batch) → (delta_plan n s b).generation ≡ next_generation s.generation
    unfolding delta_plan
    delta_next b = refl

    apply_batch-Reports :
        (batch : Result Batch) (st : Index E)
        → resolve_current st ≡ ok (n, s)
        → ((b : Batch) → batch ≡ ok b → HasKeys b.files)
        → Reports n s (apply_batch E digest_of limits r w n s batch st)
    unfolding apply_batch
    apply_batch-Reports (err e) st h keys = (refl, h)
    apply_batch-Reports (ok b) st h keys =
        if_cases (Reports n s) (length b.add == 0 && length b.tombstone == 0) _ _
          (λ _. inl (refl, refl, h))
          (λ _.
            if_cases (Reports n s) (escalates E digest_of limits r w s b) _ _
              (λ _. rebuild_for-Reports st h)
              (λ few.
                let p = delta_plan n s b in
                applied_delta-Reports p b (build E limits r p st) (delta_next b)
                  (delta-IsSound b (keys b refl) few)
                  (build-Publishes E limits r n s p st h keep (rw (delta_next b) numbered_apart))))

    update_published-Reports :
        (cs : List Change) (st : Index E)
        → resolve_current st ≡ ok (n, s)
        → HasKeys s.files
        → Reports n s (update_published E digest_of limits r w n s cs st)
    unfolding update_published
    update_published-Reports [] st h keys = inl (refl, refl, h)
    update_published-Reports (c ∷ cs) st h keys =
        let batch = apply_changes digest_of limits.max_file_bytes w (c ∷ cs) (new_batch s.files) in
        if_cases (Reports n s) (touches_ignore_rules (c ∷ cs)) _ _ (λ _. rebuild_for-Reports st h)
          (λ _.
            if_cases (Reports n s) (not w.opens) _ _ (λ _. (refl, h))
              (λ _. apply_batch-Reports batch st h (λ b e.
                apply_changes-HasKeys digest_of limits.max_file_bytes w (c ∷ cs) (new_batch s.files)
                  b keys e)))

    update_resolved-Reports :
        (cs : List Change) (st : Index E)
        → resolve_current st ≡ ok (n, s)
        → IsSound limits s
        → Reports n s (update E digest_of limits r w cs st)
    unfolding update update_resolved
    update_resolved-Reports cs st h sound = rw h (update_published-Reports cs st h sound.2)

    reconcile_with-Reports :
        (i : Result InventoryResult) (st : Index E)
        → resolve_current st ≡ ok (n, s)
        → IsSound limits s
        → Reports n s (reconcile_with E digest_of limits r w s i st)
    unfolding reconcile_with
    reconcile_with-Reports (err e) st h sound = (refl, h)
    reconcile_with-Reports (ok i) st h sound =
        if_cases (Reports n s) (length (differences s.files i.files) == 0) _ _
          (λ _. inl (refl, refl, h))
          (λ _. update_resolved-Reports (differences s.files i.files) st h sound)

    reconcile_resolved-Reports :
        (st : Index E)
        → resolve_current st ≡ ok (n, s)
        → IsSound limits s
        → Reports n s (reconcile E digest_of limits r w st)
    unfolding reconcile reconcile_resolved
    reconcile_resolved-Reports st h sound =
        rw h (reconcile_with-Reports (take_inventory digest_of w limits.max_file_bytes) st h sound)

  -- Let the published generation be the directory of its own number, its count of files be right,
  -- its deltas be within the limit and no path stand twice in its files; and let the store keep
  -- at least one generation. Then Update with any batch, and Reconcile, whatever step fails, end
  -- in one of three ways. An error: nothing is reported as applied and a reader resolves what it
  -- resolved before. A success that reports no generation: the state that was published is
  -- returned and is still what a reader resolves. A success that reports one generation: a reader
  -- resolves the state that is returned, whose number is the next one and for which the same
  -- holds again: its count of files is right, its deltas are within the limit and no path stands
  -- twice.
  pub update-Reports :
      (n : ℕ) (s : State) (cs : List Change) (st : Index E)
      → 0 < limits.keep_generations
      → n ≡ s.generation
      → IsSound limits s
      → resolve_current st ≡ ok (n, s)
      → Reports n s (update E digest_of limits r w cs st)
        × Reports n s (reconcile E digest_of limits r w st)
  update-Reports n s cs st keep numbered sound h = (
    update_resolved-Reports n s keep numbered cs st h sound,
    reconcile_resolved-Reports n s keep numbered st h sound,
  )
