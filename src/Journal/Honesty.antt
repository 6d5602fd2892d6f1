-- ===== src/Journal/Honesty.antt =====
-- The journal is complete since a mark, or it says that it is not: no change seen while a consumer
-- works is lost by its Commit or its Reconciled.
use lctk.Prelude.{
  ℕ, ◌+◌, ◌≤◌, ◌<◌, ◌≢◌, ◌⊎◌, inl, inr, Bool-cases, true, List, [], ◌∷◌, ◌++◌, Text, All, All-mono,
  All-append, length, arith, none, if◌then◌else◌,
}
use lctk.Journal.{
  Journal, Event, Mark, Observation, saw, broke, observe, observe_all, bound_pending, record_events,
  mark_gap, is_skipped, clean_path, accept, entry_of, next_u64,
}
use lctk.Journal.Pending.{Has, Has-put, Has-put_self}
use lctk.Journal.Invariant.{Room, Grows, observe-Grows, observe_all-Grows, observe_all-gap}

-- The paths of the events that are recorded.
abbrev pub seen_event : Event → List Text
seen_event e = if is_skipped e then [] else clean_path e ∷ []

abbrev pub seen_events : List Event → List Text
seen_events [] = []
seen_events (e ∷ es) = seen_event e ++ seen_events es

abbrev pub seen : List Observation → List Text
seen [] = []
seen (saw es now ∷ os) = seen_events es ++ seen os
seen (broke reason detail at now ∷ os) = seen os

-- How far the observations can take a counter.
abbrev pub cost : List Observation → ℕ
cost [] = 0
cost (saw es now ∷ os) = length es + 1 + cost os
cost (broke reason detail at now ∷ os) = 1 + cost os

-- The record broke after the mark, and the journal says so.
abbrev pub Lost : Mark → Journal → Type 0
Lost m j = (m.gap_seq < j.meta.gap_seq) × (j.meta.gap ≢ none)

abbrev pub Held : Mark → Text → Journal → Type 0
Held m p j = Lost m j ⊎ Has p m.sequence j.pending

pub record Since (m : Mark) (j : Journal) : Type 0 where
  pub sequence_since : m.sequence ≤ j.meta.sequence
  pub gap_since : m.gap_seq ≤ j.meta.gap_seq

pub Since-Grows : (m : Mark) (k : ℕ) (j j' : Journal) → Since m j → Grows k j j' → Since m j'
Since-Grows m k j j' s g = ground arith

accept-Held :
    (m : Mark) (p : Text) (e : Event) (j : Journal)
    → Room 1 j.meta.sequence
    → Since m j
    → Held m p j
    → Held m p (accept e j)
unfolding accept entry_of
accept-Held m p e j r s (inl l) = inl l
accept-Held m p e j r s (inr h) =
    inr (Has-put (entry_of (next_u64 j.meta.sequence) e) p m.sequence j.pending (omega arith) h)

observe-Held :
    (m : Mark) (p : Text) (e : Event) (j : Journal)
    → Room 1 j.meta.sequence
    → Since m j
    → Held m p j
    → Held m p (observe e j)
unfolding observe
observe-Held m p e j r s h = elim (Bool-cases (is_skipped e)) [
  | inl skip ↦ rw skip h
  | inr new ↦ rw new (accept-Held m p e j r s h)
]

observe_all-Held :
    (m : Mark) (p : Text) (es : List Event) (j : Journal)
    → Room (length es) j.meta.sequence
    → Since m j
    → Held m p j
    → Held m p (observe_all es j)
unfolding observe_all
observe_all-Held m p [] j r s h = h
observe_all-Held m p (e ∷ es) j r s h =
    let g = observe-Grows e j (omega arith) in
    observe_all-Held m p es (observe e j) (omega arith) (Since-Grows m 1 j (observe e j) s g)
      (observe-Held m p e j (omega arith) s h)

accept-seen :
    (m : Mark) (e : Event) (j : Journal)
    → Room 1 j.meta.sequence
    → Since m j
    → Held m (clean_path e) (accept e j)
unfolding accept entry_of
accept-seen m e j r s =
    inr (Has-put_self (entry_of (next_u64 j.meta.sequence) e) m.sequence j.pending (omega arith))

observe-seen :
    (m : Mark) (e : Event) (j : Journal)
    → Room 1 j.meta.sequence
    → Since m j
    → All (λ p. Held m p (observe e j)) (seen_event e)
unfolding observe
observe-seen m e j r s = elim (Bool-cases (is_skipped e)) [
  | inl skip ↦ rw skip tt
  | inr new ↦ rw new (accept-seen m e j r s, tt)
]

-- Every recorded event of a batch is held at the end of the batch.
observe_all-seen :
    (m : Mark) (es : List Event) (j : Journal)
    → Room (length es) j.meta.sequence
    → Since m j
    → All (λ p. Held m p (observe_all es j)) (seen_events es)
unfolding observe_all
observe_all-seen m [] j r s = tt
observe_all-seen m (e ∷ es) j r s =
    let s' = Since-Grows m 1 j (observe e j) s (observe-Grows e j (omega arith)) in
    let room : Room (length es) (observe e j).meta.sequence =
      omega (arith, (observe-Grows e j (omega arith)).sequence_cap) in
    All-append _ (seen_event e) (seen_events es)
      (All-mono _ _ (seen_event e) (λ p h. observe_all-Held m p es (observe e j) room s' h)
        (observe-seen m e j (omega arith) s))
      (observe_all-seen m es (observe e j) room s')

pub mark_gap-Lost :
    (m : Mark) (reason detail : Text) (at now : ℕ) (j : Journal)
    → Room 1 j.meta.gap_seq
    → Since m j
    → Lost m (mark_gap reason detail at now j)
unfolding mark_gap
mark_gap-Lost m reason detail at now j r s = ground arith

pub mark_gap-Held :
    (m : Mark) (p reason detail : Text) (at now : ℕ) (j : Journal)
    → Room 1 j.meta.gap_seq
    → Since m j
    → Held m p (mark_gap reason detail at now j)
mark_gap-Held m p reason detail at now j r s = inl (mark_gap-Lost m reason detail at now j r s)

-- The bound drops the list and breaks the record in one step.
bound_pending-Held :
    (m : Mark) (p : Text) (now : ℕ) (j : Journal)
    → Room 1 j.meta.gap_seq
    → Since m j
    → Held m p j
    → Held m p (bound_pending now j)
unfolding bound_pending
bound_pending-Held m p now j r s h = ground arith

pub record_events-Held :
    (m : Mark) (p : Text) (es : List Event) (now : ℕ) (j : Journal)
    → Room (length es) j.meta.sequence
    → Room 1 j.meta.gap_seq
    → Since m j
    → Held m p j
    → Held m p (record_events es now j)
unfolding record_events
record_events-Held m p [] now j r q s h = h
record_events-Held m p (e ∷ es) now j r q s h =
    let k = observe_all (e ∷ es) j in
    let same = observe_all-gap (e ∷ es) j in
    bound_pending-Held m p now (record k { dirty = true }) (omega arith)
      (let t = Since-Grows m (length (e ∷ es)) j k s (observe_all-Grows (e ∷ es) j r) in
        record { sequence_since = t.sequence_since; gap_since = t.gap_since })
      (observe_all-Held m p (e ∷ es) j r s h)

pub record_events-seen :
    (m : Mark) (es : List Event) (now : ℕ) (j : Journal)
    → Room (length es) j.meta.sequence
    → Room 1 j.meta.gap_seq
    → Since m j
    → All (λ p. Held m p (record_events es now j)) (seen_events es)
unfolding record_events
record_events-seen m [] now j r q s = tt
record_events-seen m (e ∷ es) now j r q s =
    let k = observe_all (e ∷ es) j in
    let same = observe_all-gap (e ∷ es) j in
    let t = Since-Grows m (length (e ∷ es)) j k s (observe_all-Grows (e ∷ es) j r) in
    All-mono (λ p. Held m p k) _ (seen_events (e ∷ es))
      (λ p h.
        bound_pending-Held m p now (record k { dirty = true }) (omega arith)
          (record { sequence_since = t.sequence_since; gap_since = t.gap_since }) h)
      (observe_all-seen m (e ∷ es) j r s)
