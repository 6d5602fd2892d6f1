-- ===== src/Index/Batch/Adding.antt =====
-- The paths that the loop of Store.Update adds are in the files it leaves, unless the batch removes a
-- directory above them.
use lctk.Prelude.{
  ℕ, ◌≡◌, refl, ap, ◌⊎◌, inl, inr, Bool, Bool-cases, true, false, ◌&&◌, none, some, List, [], ◌∷◌,
  ◌++◌, Text, text, text_eq, text_eq_iff, has_prefix, ltb, if_cases, lookup, lookup-insert, All,
  arith, subst,
}
use lctk.Ignore.{contains}
use lctk.Inventory.Scope.{normalize_relative}
use lctk.Index.{Files, Change, Reading, ok, bytes, missing, unreadable, digest_at}
use lctk.Index.Batch.{
  Workspace, Batch, new_batch, digest_file, drop_file, drop_subtree, write_digest, apply_changes,
}
use lctk.Index.Batch.Loop.{apply_change-keeps, apply_changes-keeps_of}
use lctk.Index.Batch.Paths.{lookup-drop_file, lookup-drop_subtree}
use lctk.Index.Batch.Tracking.{
  rewritten, contains-append, add-drop_file, seen-drop_file, add-drop_subtree, seen-drop_subtree,
}

abbrev files_of : Batch → Files
files_of b = b.files

abbrev add_of : Batch → List Text
add_of b = b.add

abbrev seen_of : Batch → List Text
seen_of b = b.seen

module _ (k : Text) where
  -- A change that removes a directory above the path.
  unfoldable pub removes_above : Text → Change → Bool
  removes_above name c = c.deleted && c.subtree && has_prefix (name ++ text "/") k

  abbrev pub Spares : Change → Type 0
  Spares c =
      (normalize_relative c.path ≡ none)
      ⊎ ((name : Text) × (normalize_relative c.path ≡ some name) × (removes_above name c ≡ false))

  module _ (digest_of : Text → Text) (max_bytes : ℕ) (w : Workspace) where
    -- A path that is added is among the files, with the digest of its content.
    pub record IsAdded (b : Batch) : Type 0 where
      pub read :
          contains k b.add ≡ true
          → (content : Text) × (w.content k ≡ bytes content)
            × (lookup k b.files ≡ some (digest_of content))
      pub named : contains k b.add ≡ true → contains k b.seen ≡ true

    pub new_batch-IsAdded : (files : Files) → IsAdded (new_batch files)
    unfolding contains
    new_batch-IsAdded files = record { read = λ h. absurd (cc); named = λ h. absurd (cc) }

    apart :
        (name : Text) (b : Batch)
        → contains name b.seen ≡ false
        → IsAdded b
        → contains k b.add ≡ true
        → text_eq name k ≡ false
    apart name b fresh t held = elim (Bool-cases (text_eq name k)) [
      | inl same ↦
          let e : name ≡ k = (text_eq_iff name k).0 same in
          absurd (ground (arith, t.named held, fresh, e))
      | inr other ↦ other
    ]

    drop_file-IsAdded :
        (name : Text) (b d : Batch)
        → d ≡ record b { seen = name ∷ b.seen }
        → contains name b.seen ≡ false
        → IsAdded b
        → IsAdded (drop_file name d)
    unfolding contains
    drop_file-IsAdded name b d e fresh t = record {
      read = λ h.
          let held = dropped_add h in
          let (content, found, listed) = t.read held in
          (
            content,
            found,
            ground (
              arith,
              lookup-drop_file k name d,
              apart name b fresh t held,
              listed,
              ap files_of e,
            ),
          );
      named = λ h. ground (arith, t.named (dropped_add h), seen-drop_file name d, ap seen_of e);
    }
      where
        dropped_add : contains k (drop_file name d).add ≡ true → contains k b.add ≡ true
        dropped_add h = ground (arith, h, add-drop_file name d, ap add_of e)

    clear_subtree-IsAdded :
        (name : Text) (b : Batch)
        → has_prefix (name ++ text "/") k ≡ false
        → IsAdded b
        → IsAdded (drop_subtree name b)
    clear_subtree-IsAdded name b out t = record {
      read = λ h.
          let (content, found, listed) = t.read (rw (add-drop_subtree name b) at h) in
          (content, found, ground (arith, lookup-drop_subtree k name b, out, listed));
      named = λ h.
          ground (arith, t.named (rw (add-drop_subtree name b) at h), seen-drop_subtree name b);
    }

    not_above :
        (name : Text) (c : Change)
        → Spares c
        → normalize_relative c.path ≡ some name
        → c.deleted ≡ true
        → c.subtree ≡ true
        → has_prefix (name ++ text "/") k ≡ false
    unfolding removes_above
    not_above name c (inl refused) n gone all = absurd (cc)
    not_above name c (inr (name', n', spared)) n gone all =
        let e : name' ≡ name = cc in ground (arith, rw e at spared, gone, all)

    digest_file-content :
        (name digest : Text) (size : ℕ)
        → digest_file digest_of max_bytes w name ≡ some (digest, size)
        → ltb max_bytes size ≡ false
        → (content : Text) × (w.content name ≡ bytes content) × (digest ≡ digest_of content)
    unfolding digest_file
    digest_file-content name digest size h small = answered (w.content name) refl
      where
        answered :
            (reading : Reading)
            → w.content name ≡ reading
            → (content : Text) × (w.content name ≡ bytes content) × (digest ≡ digest_of content)
        answered (bytes content) e = (content, e, ground (arith, h, small, e))
        answered missing e = absurd (ground (arith, h, small, e))
        answered unreadable e = absurd (ground (arith, h, small, e))

    add_file-IsAdded :
        (name digest : Text) (size : ℕ) (b : Batch)
        → contains name b.seen ≡ false
        → IsAdded b
        → digest_file digest_of max_bytes w name ≡ some (digest, size)
        → ltb max_bytes size ≡ false
        → IsAdded (rewritten k b.files name digest (record b { seen = name ∷ b.seen }))
    unfolding contains
    add_file-IsAdded name digest size b fresh t found small =
        let d : Batch = record b { seen = name ∷ b.seen } in
        elim (Bool-cases (text_eq name k)) [
          | inl same ↦
              let e : name ≡ k = (text_eq_iff name k).0 same in
              let (content, read, hashed) = digest_file-content name digest size found small in
              record {
                read = λ _. (
                  content,
                  subst (λ n. w.content n ≡ bytes content) e read,
                  ground
                      (arith, lookup-insert name k digest (drop_file name d).files, same, hashed),
                );
                named = λ _. ground (arith, seen-drop_file name d, same);
              }
          | inr other ↦
              let dropped = drop_file-IsAdded name b d refl fresh t in
              let before = λ (h : contains k ((drop_file name d).add ++ name ∷ []) ≡ true).
                let held : contains k (drop_file name d).add ≡ true =
                  ground (arith, h, contains-append k name (drop_file name d).add, other) in
                held in
              record {
                read = λ h.
                    let (content, read, listed) = dropped.read (before h) in
                    (
                      content,
                      read,
                      ground (
                        arith,
                        lookup-insert name k digest (drop_file name d).files,
                        other,
                        listed,
                      ),
                    );
                named = λ h. dropped.named (before h);
              }
        ]

    write_digest-IsAdded :
        (name digest : Text) (size : ℕ) (b : Batch)
        → contains name b.seen ≡ false
        → IsAdded b
        → digest_file digest_of max_bytes w name ≡ some (digest, size)
        → ltb max_bytes size ≡ false
        → IsAdded
            (write_digest digest_of max_bytes w name digest (record b { seen = name ∷ b.seen }))
    unfolding write_digest contains
    write_digest-IsAdded name digest size b fresh t found small =
        if_cases IsAdded (text_eq (digest_at name b.files) digest) _ _
          (λ _. record { read = t.read; named = λ h. ground (arith, t.named h) })
          (λ _. add_file-IsAdded name digest size b fresh t found small)

    pub apply_changes-IsAdded :
        (cs : List Change) (b b' : Batch)
        → All Spares cs
        → IsAdded b
        → apply_changes digest_of max_bytes w cs b ≡ ok b'
        → IsAdded b'
    apply_changes-IsAdded =
        apply_changes-keeps_of digest_of max_bytes w IsAdded Spares λ name c b spared n fresh t.
          apply_change-keeps digest_of max_bytes w IsAdded name c b
            (λ d e. drop_file-IsAdded name b d e fresh t)
            (λ d e gone all.
              clear_subtree-IsAdded name (drop_file name d) (not_above name c spared n gone all)
                (drop_file-IsAdded name b d e fresh t))
            (λ d digest size e _ found small.
              rw e (write_digest-IsAdded name digest size b fresh t found small))
