-- ===== src/Index/Batch/Loop.antt =====
-- What the steps of the loop of Store.Update keep, the loop keeps.
use lctk.Prelude.{
  ℕ, ◌≡◌, refl, inl, inr, Bool-cases, true, false, not, Option, Option-cases, none, some, List, [],
  ◌∷◌, All, Text, ltb, if_cases, arith, subst,
}
use lctk.Ignore.{contains}
use lctk.Inventory.{eligible}
use lctk.Inventory.Scope.{normalize_relative}
use lctk.Index.{Change, ok}
use lctk.Index.Batch.{
  Workspace, Batch, drop_file, drop_subtree, digest_file, write_answer, write_digest, write_file,
  apply_change, apply_named, apply_changes,
}

All-Unit : (cs : List Change) → All (λ _. Unit {0}) cs
All-Unit [] = tt
All-Unit (c ∷ cs) = (tt, All-Unit cs)

module _ (digest_of : Text → Text) (max_bytes : ℕ) (w : Workspace) (P : Batch → Type 0) where
  -- A change is a deletion, a deletion of a directory, or a write of a file.
  pub apply_change-keeps :
      (name : Text) (c : Change) (b : Batch)
      → ((d : Batch) → d ≡ record b { seen = name ∷ b.seen } → P (drop_file name d))
      → ((d : Batch)
          → d ≡ record b { seen = name ∷ b.seen }
          → c.deleted ≡ true
          → c.subtree ≡ true
          → P (drop_subtree name (drop_file name d)))
      → ((d : Batch) (digest : Text) (size : ℕ)
          → d ≡ record b { seen = name ∷ b.seen }
          → eligible w.ignore_lines name ≡ true
          → digest_file digest_of max_bytes w name ≡ some (digest, size)
          → ltb max_bytes size ≡ false
          → P (write_digest digest_of max_bytes w name digest d))
      → P (apply_change digest_of max_bytes w name c b)
  unfolding apply_change write_file write_answer
  apply_change-keeps name c b dropped cleared written =
      let b' : Batch = record b { seen = name ∷ b.seen } in
      if_cases P c.deleted _ _
        (λ gone. if_cases P c.subtree _ _ (λ all. cleared b' refl gone all) (λ _. dropped b' refl))
        (λ _.
          if_cases P (not (eligible w.ignore_lines name)) _ _ (λ _. dropped b' refl)
            (λ allowed.
              answered (ground (arith, allowed)) (digest_file digest_of max_bytes w name) refl))
    where
      answered :
          eligible w.ignore_lines name ≡ true
          → (answer : Option (Text × ℕ)) → digest_file digest_of max_bytes w name ≡ answer
          → P (write_answer digest_of max_bytes w name answer (record b { seen = name ∷ b.seen }))
      answered allowed none e = dropped _ refl
      answered allowed (some (digest, size)) e =
          if_cases P (ltb max_bytes size) _ _ (λ _. dropped _ refl)
            (λ small. written _ digest size refl allowed e small)

  -- What holds of each change of the batch may be used.
  pub apply_changes-keeps_of :
      (Q : Change → Type 0)
      → ((name : Text) (c : Change) (b : Batch)
          → Q c
          → normalize_relative c.path ≡ some name
          → contains name b.seen ≡ false
          → P b
          → P (apply_change digest_of max_bytes w name c b))
      → (cs : List Change) (b b' : Batch) → All Q cs
      → P b
      → apply_changes digest_of max_bytes w cs b ≡ ok b'
      → P b'
  unfolding apply_changes apply_named
  apply_changes-keeps_of Q step [] b b' q h e = let same : b ≡ b' = ground arith in subst P same h
  apply_changes-keeps_of Q step (c ∷ cs) b b' q h e =
      elim (Option-cases (normalize_relative c.path)) [
        | inl refused ↦ absurd (ground (arith, e, refused))
        | inr (name, n) ↦ elim (Bool-cases (contains name b.seen)) [
          | inl again ↦ apply_changes-keeps_of Q step cs b b' q.1 h (ground (arith, e, n, again))
          | inr fresh ↦
              apply_changes-keeps_of Q step cs (apply_change digest_of max_bytes w name c b) b' q.1
                (step name c b q.0 n fresh h) (ground (arith, e, n, fresh))
        ]
      ]

  pub apply_changes-keeps :
      ((name : Text) (c : Change) (b : Batch)
        → contains name b.seen ≡ false
        → P b
        → P (apply_change digest_of max_bytes w name c b))
      → (cs : List Change) (b b' : Batch) → P b
      → apply_changes digest_of max_bytes w cs b ≡ ok b'
      → P b'
  apply_changes-keeps step cs b b' =
      apply_changes-keeps_of (λ _. Unit) (λ name c b _ _. step name c b) cs b b' (All-Unit cs)
