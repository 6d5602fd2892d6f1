-- ===== src/Index/Batch/Tracking.antt =====
-- The two lists that the loop of Store.Update hands to a build, one path at a time: what they say of
-- the files before and after.
use lctk.Prelude.{
  ℕ, suc, ◌+◌, ◌≤◌, ◌≡◌, refl, inl, inr, Bool, Bool-cases, true, false, ◌||◌, ◌&&◌, Option, none,
  some, List, [], ◌∷◌, ◌++◌, Text, text, text_eq, text_eq_iff, text_eq_refl, has_prefix,
  if◌then◌else◌, if_cases, lookup, insert, lookup-insert, arith,
}
use lctk.Ignore.{contains}
use lctk.Index.{Files, Change, ok, digest_at}
use lctk.Index.Batch.{
  Workspace, Batch, new_batch, add_name, add_names, below, drop_file, drop_subtree, write_digest,
  apply_changes,
}
use lctk.Index.Batch.Loop.{apply_change-keeps, apply_changes-keeps}
use lctk.Index.Batch.Paths.{lookup-drop_file, lookup-drop_subtree}

abbrev is_present : Option Text → Bool
is_present none = false
is_present (some d) = true

-- How often a name stands in a list.
unfoldable pub occurrences : Text → List Text → ℕ
occurrences k [] = 0
occurrences k (n ∷ ns) = let rest = occurrences k ns in if text_eq n k then suc rest else rest

pub contains-add_name :
    (k n : Text) (ns : List Text) → contains k (add_name n ns) ≡ (text_eq n k || contains k ns)
unfolding add_name contains
contains-add_name k n ns = elim (Bool-cases (text_eq n k)) [
  | inl same ↦ let e : n ≡ k = (text_eq_iff n k).0 same in rw e (ground (arith, text_eq_refl k))
  | inr other ↦ ground (arith, other)
]

contains-add_names :
    (k : Text) (ns ms : List Text) → contains k (add_names ns ms) ≡ (contains k ns || contains k ms)
unfolding add_names contains
contains-add_names k [] ms = refl
contains-add_names k (n ∷ ns) ms =
    ground (arith, contains-add_names k ns (add_name n ms), contains-add_name k n ms)

contains-below :
    (prefix k : Text) (files : Files)
    → contains k (below prefix files) ≡ (has_prefix prefix k && is_present (lookup k files))
unfolding below contains lookup
contains-below prefix k [] = ground arith
contains-below prefix k ((j, d) ∷ files) = elim (Bool-cases (text_eq j k)) [
  | inl same ↦
      let e : j ≡ k = (text_eq_iff j k).0 same in
      rw e (ground (arith, text_eq_refl k, contains-below prefix k files))
  | inr other ↦ ground (arith, other, contains-below prefix k files)
]

pub contains-append :
    (k n : Text) (ns : List Text) → contains k (ns ++ n ∷ []) ≡ (contains k ns || text_eq n k)
unfolding contains
contains-append k n [] = ground arith
contains-append k n (m ∷ ns) = ground (arith, contains-append k n ns)

occurrences-append :
    (k n : Text) (ns : List Text)
    → occurrences k (ns ++ n ∷ []) ≡ occurrences k ns + (if text_eq n k then 1 else 0)
unfolding occurrences
occurrences-append k n [] = ground arith
occurrences-append k n (m ∷ ns) = ground (arith, occurrences-append k n ns)

pub occurrences-absent : (k : Text) (ns : List Text) → contains k ns ≡ false → occurrences k ns ≡ 0
unfolding occurrences contains
occurrences-absent k [] h = refl
occurrences-absent k (n ∷ ns) h = ground (arith, occurrences-absent k ns)

contains-drop_file :
    (k name : Text) (b : Batch)
    → contains k (drop_file name b).tombstone
      ≡ (contains k b.tombstone || (text_eq name k && is_present (lookup k b.files)))
unfolding drop_file
contains-drop_file k name b = elim (Bool-cases (text_eq name k)) [
  | inl same ↦
      let e : name ≡ k = (text_eq_iff name k).0 same in
      rw e (ground (arith, text_eq_refl k, contains-add_name k k b.tombstone))
  | inr other ↦ ground (arith, other, contains-add_name k name b.tombstone)
]

pub add-drop_file : (name : Text) (b : Batch) → (drop_file name b).add ≡ b.add
unfolding drop_file
add-drop_file name b = ground arith

pub seen-drop_file : (name : Text) (b : Batch) → (drop_file name b).seen ≡ b.seen
unfolding drop_file
seen-drop_file name b = ground arith

contains-drop_subtree :
    (k name : Text) (b : Batch)
    → contains k (drop_subtree name b).tombstone ≡ (
        (has_prefix (name ++ text "/") k && is_present (lookup k b.files))
        || contains k b.tombstone)
unfolding drop_subtree
contains-drop_subtree k name b =
    let prefix = name ++ text "/" in
    ground (
      arith,
      contains-add_names k (below prefix b.files) b.tombstone,
      contains-below prefix k b.files,
    )

pub add-drop_subtree : (name : Text) (b : Batch) → (drop_subtree name b).add ≡ b.add
unfolding drop_subtree
add-drop_subtree name b = refl

pub seen-drop_subtree : (name : Text) (b : Batch) → (drop_subtree name b).seen ≡ b.seen
unfolding drop_subtree
seen-drop_subtree name b = refl

module _ (k : Text) (files : Files) where
  -- What the lists say of a path: neither, the first alone, or the second.
  pub record IsTracked (b : Batch) : Type 0 where
    pub kept :
        contains k b.add ≡ false
        → contains k b.tombstone ≡ false
        → lookup k b.files ≡ lookup k files
    pub retracted :
        contains k b.add ≡ false → contains k b.tombstone ≡ true → lookup k b.files ≡ none
    pub replaced : contains k b.add ≡ true → contains k b.tombstone ≡ false → lookup k files ≡ none
    pub named : contains k b.add ≡ true → contains k b.seen ≡ true
    pub single : occurrences k b.add ≤ 1

  pub new_batch-IsTracked : IsTracked (new_batch files)
  unfolding contains occurrences
  new_batch-IsTracked = ground arith

  drop_file-IsTracked : (name : Text) (b : Batch) → IsTracked b → IsTracked (drop_file name b)
  drop_file-IsTracked name b t = ground (
    arith,
    lookup-drop_file k name b,
    contains-drop_file k name b,
    add-drop_file name b,
    seen-drop_file name b,
  )

  drop_subtree-IsTracked : (name : Text) (b : Batch) → IsTracked b → IsTracked (drop_subtree name b)
  drop_subtree-IsTracked name b t = ground (
    arith,
    lookup-drop_subtree k name b,
    contains-drop_subtree k name b,
    add-drop_subtree name b,
    seen-drop_subtree name b,
  )

  see-IsTracked :
      (name : Text) (b : Batch) → IsTracked b → IsTracked (record b { seen = name ∷ b.seen })
  unfolding contains
  see-IsTracked name b t = ground arith

  -- The files and the lists where a write changes them.
  abbrev pub rewritten : Text → Text → Batch → Batch
  rewritten name digest d =
      let dropped = drop_file name d in
      record dropped { files = insert name digest dropped.files; add = dropped.add ++ (name ∷ []) }

  add_file-IsTracked :
      (name digest : Text) (b : Batch)
      → contains name b.seen ≡ false
      → IsTracked b
      → IsTracked (rewritten name digest (record b { seen = name ∷ b.seen }))
  unfolding contains
  add_file-IsTracked name digest b fresh t =
      let d : Batch = record b { seen = name ∷ b.seen } in
      ground (
        arith,
        text_eq_iff name k,
        lookup-insert name k digest (drop_file name d).files,
        lookup-drop_file k name d,
        contains-drop_file k name d,
        add-drop_file name d,
        seen-drop_file name d,
        contains-append k name b.add,
        occurrences-append k name b.add,
        occurrences-absent k b.add,
      )

  module _ (digest_of : Text → Text) (max_bytes : ℕ) (w : Workspace) where
    write_digest-IsTracked :
        (name digest : Text) (b d : Batch)
        → d ≡ record b { seen = name ∷ b.seen }
        → contains name b.seen ≡ false
        → IsTracked b
        → IsTracked (write_digest digest_of max_bytes w name digest d)
    unfolding write_digest
    write_digest-IsTracked name digest b d e fresh t =
        let seen : IsTracked d = rw e (see-IsTracked name b t) in
        if_cases IsTracked (text_eq (digest_at name d.files) digest) _ _
          (λ _. record {
            kept = seen.kept;
            retracted = seen.retracted;
            replaced = seen.replaced;
            named = seen.named;
            single = seen.single;
          })
          (λ _. rw e (add_file-IsTracked name digest b fresh t))

    -- The loop's lists and files agree about every path.
    pub apply_changes-IsTracked :
        (cs : List Change) (b b' : Batch)
        → IsTracked b
        → apply_changes digest_of max_bytes w cs b ≡ ok b'
        → IsTracked b'
    apply_changes-IsTracked =
        apply_changes-keeps digest_of max_bytes w IsTracked λ name c b fresh t.
          let seen = see-IsTracked name b t in
          apply_change-keeps digest_of max_bytes w IsTracked name c b
            (λ d e. drop_file-IsTracked name d (rw e seen))
            (λ d e _ _.
              drop_subtree-IsTracked name (drop_file name d)
                (drop_file-IsTracked name d (rw e seen)))
            (λ d digest size e _ _ _. write_digest-IsTracked name digest b d e fresh t)
