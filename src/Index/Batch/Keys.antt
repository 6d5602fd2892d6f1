-- ===== src/Index/Batch/Keys.antt =====
-- The loop of Store.Update keeps one entry for each path.
use lctk.Prelude.{
  ℕ, ◌≡◌, List, [], ◌∷◌, ◌++◌, Text, text, HasKeys, Missing, delete-HasKeys, insert-HasKeys, arith,
}
use lctk.Index.Batch.Loop.{apply_change-keeps, apply_changes-keeps}
use lctk.Index.{Files, Change, ok}
use lctk.Index.Batch.{
  Workspace, Batch, drop_file, drop_subtree, outside, write_digest, apply_change, apply_changes,
}

Missing-outside :
    (prefix k : Text) (files : Files) → Missing k files → Missing k (outside prefix files)
unfolding outside
Missing-outside prefix k [] h = tt
Missing-outside prefix k ((j, d) ∷ files) h = ground (arith, Missing-outside prefix k files h.1)

outside-HasKeys : (prefix : Text) (files : Files) → HasKeys files → HasKeys (outside prefix files)
unfolding outside
outside-HasKeys prefix [] h = tt
outside-HasKeys prefix ((j, d) ∷ files) h =
    ground (arith, Missing-outside prefix j files h.0, outside-HasKeys prefix files h.1)

drop_file-HasKeys : (name : Text) (b : Batch) → HasKeys b.files → HasKeys (drop_file name b).files
unfolding drop_file
drop_file-HasKeys name b h = ground (arith, delete-HasKeys name b.files h)

module _ (digest_of : Text → Text) (max_bytes : ℕ) (w : Workspace) where
  write_digest-HasKeys :
      (name digest : Text) (b : Batch)
      → HasKeys b.files
      → HasKeys (write_digest digest_of max_bytes w name digest b).files
  unfolding write_digest
  write_digest-HasKeys name digest b h =
      let dropped = drop_file name b in
      ground (arith, insert-HasKeys name digest dropped.files (drop_file-HasKeys name b h))

  apply_change-HasKeys :
      (name : Text) (c : Change) (b : Batch)
      → HasKeys b.files
      → HasKeys (apply_change digest_of max_bytes w name c b).files
  unfolding drop_subtree
  apply_change-HasKeys name c b h =
      apply_change-keeps digest_of max_bytes w (λ d. HasKeys d.files) name c b
        (λ d e. drop_file-HasKeys name d (rw e h))
        (λ d e _ _.
          outside-HasKeys (name ++ text "/") (drop_file name d).files
            (drop_file-HasKeys name d (rw e h)))
        (λ d digest size e _ _ _. write_digest-HasKeys name digest d (rw e h))

  pub apply_changes-HasKeys :
      (cs : List Change) (b b' : Batch)
      → HasKeys b.files
      → apply_changes digest_of max_bytes w cs b ≡ ok b'
      → HasKeys b'.files
  apply_changes-HasKeys =
      apply_changes-keeps digest_of max_bytes w (λ d. HasKeys d.files)
        (λ name c b _. apply_change-HasKeys name c b)
