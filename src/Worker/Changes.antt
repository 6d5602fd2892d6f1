-- ===== src/Worker/Changes.antt =====
-- What the index is asked to do for a list of pending entries.
use lctk.Prelude.{
  ℕ, ◌+◌, ◌≤◌, refl, length, ◌++◌, text, has_prefix, ◌≡◌, sym, ◌∙◌, ◌⊎◌, inl, inr, Bool-cases, true,
  false, List, [], ◌∷◌, Text, text_eq, text_eq_iff, All, Any, All-mono, All-append, Any-append_left,
  Any-append_right, arith,
}
use lctk.Journal.{
  Entry, Event, Journal, written, removed, put, snapshot, observe, observe_all, accept, entry_of,
  clean_path, is_skipped, in_order, bound_pending, record_events, next_u64,
}
use lctk.Journal.Pending.{Apart, Distinct, All-put, length-put-le, in_order-All}
use lctk.Journal.Invariant.{IsSound, Room, observe-IsSound}
use lctk.Worker.{Change, index_changes, change_of}

-- An entry asks for nothing exactly when it is a directory that was written.
abbrev pub AsksNothing : Entry → Type 0
AsksNothing e = (e.kind ≡ written) × (e.directory ≡ true)

-- The change that an entry asks for.
abbrev pub Asks : Entry → Change → Type 0
Asks e c =
    (c.path ≡ e.path)
    × (((e.kind ≡ removed) × (c.deleted ≡ true) × (c.subtree ≡ e.directory))
        ⊎ ((e.kind ≡ written) × (e.directory ≡ false) × (c.deleted ≡ false) × (c.subtree ≡ false)))

change_of_sound : (e : Entry) → All (Asks e) (change_of e)
unfolding change_of
change_of_sound e = ground arith

change_of_complete : (e : Entry) → AsksNothing e ⊎ Any (Asks e) (change_of e)
unfolding change_of
change_of_complete e = ground arith

keep_left :
    (e : Entry) (es : List Entry)
    → AsksNothing e ⊎ Any (Asks e) (change_of e)
    → AsksNothing e ⊎ Any (Asks e) (index_changes (e ∷ es))
unfolding index_changes
keep_left e es (inl n) = inl n
keep_left e es (inr a) = inr (Any-append_left (Asks e) (change_of e) (index_changes es) a)

keep_right :
    (f e : Entry) (es : List Entry)
    → AsksNothing f ⊎ Any (Asks f) (index_changes es)
    → AsksNothing f ⊎ Any (Asks f) (index_changes (e ∷ es))
unfolding index_changes
keep_right f e es (inl n) = inl n
keep_right f e es (inr a) = inr (Any-append_right (Asks f) (change_of e) (index_changes es) a)

-- Every change that is sent is asked for by an entry of the same path: by a removal, and then it
-- deletes, with what is below a directory; or by a written file, and then it does not.
pub index_changes_sound : (es : List Entry) → All (λ c. Any (λ e. Asks e c) es) (index_changes es)
unfolding index_changes
index_changes_sound [] = tt
index_changes_sound (e ∷ es) =
    All-append _ (change_of e) (index_changes es)
      (All-mono (Asks e) _ (change_of e) (λ c a. inl a) (change_of_sound e))
      (All-mono _ _ (index_changes es) (λ c a. inr a) (index_changes_sound es))

-- Every entry, but for a directory that was written, has the change that it asks for among those
-- that are sent.
pub index_changes_complete :
    (es : List Entry) → All (λ e. AsksNothing e ⊎ Any (λ c. Asks e c) (index_changes es)) es
unfolding index_changes
index_changes_complete [] = tt
index_changes_complete (e ∷ es) = (
  keep_left e es (change_of_complete e),
  All-mono _ _ es (λ f. keep_right f e es) (index_changes_complete es),
)

-- What a path is not asked for.
abbrev Silent : Text → List Entry → Type 0
Silent p = All (λ e. e.path ≡ p → AsksNothing e)

-- After `put` an entry is the only one for its path.
Silent-put : (e : Entry) (es : List Entry) → AsksNothing e → Distinct es → Silent e.path (put e es)
unfolding put
Silent-put e [] n d = (λ _. n, tt)
Silent-put e (f ∷ fs) n d = elim (Bool-cases (text_eq f.path e.path)) [
  | inl same ↦ rw same (
    λ _. n,
    All-mono (Apart f) _ fs (λ g a p. absurd (a.0 (p ∙ sym ((text_eq_iff _ _).0 same)))) d.0,
  )
  | inr other ↦
      rw other ((λ p. absurd (ground (arith, text_eq_iff f.path e.path, p))), Silent-put e fs n d.1)
]

accept-Silent :
    (e : Event) (j : Journal)
    → e.kind ≡ written
    → e.directory ≡ true
    → IsSound j
    → Silent (clean_path e) (accept e j).pending
unfolding accept entry_of
accept-Silent e j k d v =
    Silent-put (entry_of (next_u64 j.meta.sequence) e) j.pending (k, d) v.distinct

observe-Silent :
    (e : Event) (j : Journal)
    → is_skipped e ≡ false
    → e.kind ≡ written
    → e.directory ≡ true
    → IsSound j
    → Silent (clean_path e) (observe e j).pending
unfolding observe
observe-Silent e j s k d v = rw s (accept-Silent e j k d v)

-- What deletes a path: its own removal, or that of a directory above it.
abbrev pub Removes : Text → Entry → Type 0
Removes k e =
    (e.kind ≡ removed)
    × ((e.path ≡ k) ⊎ ((e.directory ≡ true) × (has_prefix (e.path ++ text "/") k ≡ true)))

abbrev pub Deletes : Text → Change → Type 0
Deletes k c =
    (c.deleted ≡ true)
    × ((c.path ≡ k) ⊎ ((c.subtree ≡ true) × (has_prefix (c.path ++ text "/") k ≡ true)))

Asks-Deletes : (k : Text) (e : Entry) (c : Change) → Asks e c → Deletes k c → Removes k e
Asks-Deletes k e c (same, inr (kind, plain, deleted, subtree)) (d, h) = absurd (cc (deleted, d))
Asks-Deletes k e c (same, inl (kind, deleted, subtree)) (d, inl h) = (kind, inl (cc (same, h)))
Asks-Deletes k e c (same, inl (kind, deleted, subtree)) (d, inr (whole, h)) =
    (kind, inr (cc (subtree, whole), rw same at h))

keeps_path :
    (k : Text) (es : List Entry)
    → All (λ e. ¬ Removes k e) es
    → All (λ c. ¬ Deletes k c) (index_changes es)
unfolding index_changes
keeps_path k [] h = tt
keeps_path k (e ∷ es) h =
    All-append _ (change_of e) (index_changes es)
      (All-mono (Asks e) _ (change_of e) (λ c a d. h.0 (Asks-Deletes k e c a d))
        (change_of_sound e))
      (keeps_path k es h.1)

-- An entry at one path, or one that does not delete another.
abbrev Bears : Text → Text → Entry → Type 0
Bears p k e = (e.path ≡ p) ⊎ (¬ Removes k e)

observe-Bears :
    (p k : Text) (e : Event) (j : Journal)
    → clean_path e ≡ p
    → All (Bears p k) j.pending
    → All (Bears p k) (observe e j).pending
unfolding observe accept entry_of
observe-Bears p k e j same h = elim (Bool-cases (is_skipped e)) [
  | inl skipped ↦ rw skipped h
  | inr counts ↦
      rw counts (All-put (Bears p k) (entry_of (next_u64 j.meta.sequence) e) j.pending (inl same) h)
]

Silent-keeps :
    (p k : Text) (es : List Entry) → All (Bears p k) es → Silent p es → All (λ e. ¬ Removes k e) es
Silent-keeps p k [] b s = tt
Silent-keeps p k (e ∷ es) (inr spared, b) s = (spared, Silent-keeps p k es b s.1)
Silent-keeps p k (e ∷ es) (inl here, b) s = (λ r. cc ((s.0 here).0, r.0), Silent-keeps p k es b s.1)

observe-length : (e : Event) (j : Journal) → length (observe e j).pending ≤ length j.pending + 1
unfolding observe accept
observe-length e j = ground (arith, length-put-le (entry_of (next_u64 j.meta.sequence) e) j.pending)

observe-kept :
    (e : Event) (j : Journal)
    → ((observe e j).max_pending ≡ j.max_pending) × ((observe e j).meta.gap ≡ j.meta.gap)
unfolding observe accept
observe-kept e j = ground arith

within_bound : (now : ℕ) (j : Journal) → length j.pending ≤ j.max_pending → bound_pending now j ≡ j
unfolding bound_pending
within_bound now j h = ground (arith, h)

-- If a directory is removed and then a directory is written at the same path, and one call of
-- Record takes both, then no gap is marked and no change that the next drain sends deletes a path
-- that no pending entry deleted before; this covers the paths below the directory. The journal is
-- sound, its sequence and its bound have room for the entries, and the path counts.
pub directory_replaced :
    (gone back : Event) (now : ℕ) (j : Journal) (k : Text)
    → IsSound j
    → Room 1 j.meta.sequence
    → length j.pending + 2 ≤ j.max_pending
    → gone.kind ≡ removed
    → gone.directory ≡ true
    → back.kind ≡ written
    → back.directory ≡ true
    → clean_path back ≡ clean_path gone
    → is_skipped back ≡ false
    → All (λ e. ¬ Removes k e) j.pending
    → let j' = record_events (gone ∷ back ∷ []) now j in
      (j'.meta.gap ≡ j.meta.gap) × All (λ c. ¬ Deletes k c) (index_changes (snapshot j').pending)
unfolding record_events observe_all snapshot
directory_replaced gone back now j k v r room gk gd bk bd same s before =
    let p = clean_path back in
    let one = observe gone j in
    let two = observe back one in
    let silent = observe-Silent back one s bk bd (observe-IsSound gone j r v) in
    let bears =
      observe-Bears p k back one refl
        (observe-Bears p k gone j (sym same) (All-mono _ _ j.pending (λ e n. inr n) before)) in
    let fits : length two.pending ≤ two.max_pending = omega (
      arith,
      room,
      observe-length gone j,
      observe-length back one,
      (observe-kept back one).0,
      (observe-kept gone j).0,
    ) in
    rw (within_bound now (record two { dirty = true }) fits) (
      (observe-kept back one).1 ∙ (observe-kept gone j).1,
      keeps_path k (in_order two.pending) (
          in_order-All (λ e. ¬ Removes k e) two.pending
            (Silent-keeps p k two.pending bears silent)),
    )
