-- ===== src/Journal/Concurrent.antt =====
-- Commit and Reconciled at the end of an update, with what other goroutines record meanwhile.
use lctk.Prelude.{
  ℕ, ◌+◌, ◌≡◌, ◌≢◌, refl, ◌⊎◌, inl, inr, ◌↔◌, List, [], ◌∷◌, Text, All, All-mono, All-append,
  length, arith, none, true,
}
use lctk.Journal.{
  Event, observe, observe_all, accept, bound_pending, Journal, Mark, Observation, saw, broke,
  record_events, mark_gap, commit, reconciled, snapshot, mark_of, observes, advance,
}
use lctk.Journal.Pending.{Has, Has-delete}
use lctk.Journal.Invariant.{
  observe_all-gap, observe_all-Grows, IsValid, Room, Grows, Grows-trans, record_events-Grows,
  mark_gap-Grows, record_events-IsValid, mark_gap-IsValid,
}
use lctk.Journal.Honesty.{
  mark_gap-Lost, seen, seen_events, cost, Lost, Held, Since, Since-Grows, mark_gap-Held,
  record_events-Held, record_events-seen,
}

abbrev pub Rooms : ℕ → Journal → Type 0
Rooms k j = Room k j.meta.sequence × Room k j.meta.gap_seq

step : Observation → Journal → Journal
step (saw es now) j = record_events es now j
step (broke reason detail at now) j = mark_gap reason detail at now j

observes-cons :
    (o : Observation) (os : List Observation) (j : Journal)
    → observes (o ∷ os) j ≡ observes os (step o j)
unfolding observes step
observes-cons (saw es now) os j = refl
observes-cons (broke reason detail at now) os j = refl

step_cost : Observation → ℕ
step_cost (saw es now) = length es + 1
step_cost (broke reason detail at now) = 1

cost-cons : (o : Observation) (os : List Observation) → cost (o ∷ os) ≡ step_cost o + cost os
unfolding step_cost
cost-cons (saw es now) os = refl
cost-cons (broke reason detail at now) os = refl

step-Grows :
    (o : Observation) (j : Journal) → Rooms (step_cost o) j → Grows (step_cost o) j (step o j)
unfolding step step_cost
step-Grows (saw es now) j r = record_events-Grows es now j (omega arith) (omega arith)
step-Grows (broke reason detail at now) j r = mark_gap-Grows reason detail at now j r.1

step-IsValid :
    (o : Observation) (j : Journal) → Rooms (step_cost o) j → IsValid j → IsValid (step o j)
unfolding step step_cost
step-IsValid (saw es now) j r v = record_events-IsValid es now j (omega arith) v
step-IsValid (broke reason detail at now) j r v = mark_gap-IsValid reason detail at now j v

step-Held :
    (m : Mark) (p : Text) (o : Observation) (j : Journal)
    → Rooms (step_cost o) j
    → Since m j
    → Held m p j
    → Held m p (step o j)
unfolding step step_cost
step-Held m p (saw es now) j r s h = record_events-Held m p es now j (omega arith) (omega arith) s h
step-Held m p (broke reason detail at now) j r s h = mark_gap-Held m p reason detail at now j r.1 s

Rooms-step :
    (o : Observation) (os : List Observation) (j : Journal)
    → Rooms (cost (o ∷ os)) j
    → Rooms (step_cost o) j × Rooms (cost os) (step o j)
Rooms-step o os j r =
    let first : Rooms (step_cost o) j = omega (arith, cost-cons o os) in
    let g = step-Grows o j first in
    (first, omega (arith, cost-cons o os, g.sequence_cap, g.gap_seq_cap))

observes-Grows :
    (os : List Observation) (j : Journal) → Rooms (cost os) j → Grows (cost os) j (observes os j)
unfolding observes
observes-Grows [] j r = ground arith
observes-Grows (o ∷ os) j r =
    let (first, rest) = Rooms-step o os j r in
    rw (observes-cons o os j, cost-cons o os)
      (Grows-trans (step_cost o) (cost os) j (step o j) (observes os (step o j))
        (step-Grows o j first) (observes-Grows os (step o j) rest))

-- Whatever is observed in whatever order, a valid journal stays valid: the numbers of the pending
-- entries lie between the checkpoint and the sequence, no two entries share a path or a number,
-- and the list is within its bound. The counters are to stay below 2^64.
pub observes-IsValid :
    (os : List Observation) (j : Journal) → Rooms (cost os) j → IsValid j → IsValid (observes os j)
unfolding observes
observes-IsValid [] j r v = v
observes-IsValid (o ∷ os) j r v =
    let (first, rest) = Rooms-step o os j r in
    rw (observes-cons o os j) (observes-IsValid os (step o j) rest (step-IsValid o j first v))

observes-Held :
    (m : Mark) (p : Text) (os : List Observation) (j : Journal)
    → Rooms (cost os) j
    → Since m j
    → Held m p j
    → Held m p (observes os j)
unfolding observes
observes-Held m p [] j r s h = h
observes-Held m p (o ∷ os) j r s h =
    let (first, rest) = Rooms-step o os j r in
    rw (observes-cons o os j) (
      observes-Held m p os (step o j) rest
        (Since-Grows m (step_cost o) j (step o j) s (step-Grows o j first))
        (step-Held m p o j first s h))

-- Whatever was recorded since the mark is in the list, or the record broke since the mark.
observes-seen :
    (m : Mark) (os : List Observation) (j : Journal)
    → Rooms (cost os) j
    → Since m j
    → All (λ p. Held m p (observes os j)) (seen os)
unfolding observes
observes-seen m [] j r s = tt
observes-seen m (saw es now ∷ os) j r s =
    let (first, rest) = Rooms-step (saw es now) os j r in
    let s' =
      Since-Grows m (length es + 1) j (record_events es now j) s
        (unfold step_cost step in step-Grows (saw es now) j first) in
    All-append _ (seen_events es) (seen os)
      (All-mono _ _ (seen_events es)
        (λ p h. observes-Held m p os (record_events es now j) (unfold step in rest) s' h)
        (record_events-seen m es now j (omega arith) (omega arith) s))
      (observes-seen m os (record_events es now j) (unfold step in rest) s')
observes-seen m (broke reason detail at now ∷ os) j r s =
    let (first, rest) = Rooms-step (broke reason detail at now) os j r in
    observes-seen m os (mark_gap reason detail at now j) (unfold step in rest) (
      Since-Grows m 1 j (mark_gap reason detail at now j) s
        (mark_gap-Grows reason detail at now j (omega arith)))

Held-All :
    (m : Mark) (j : Journal) (ps : List Text)
    → All (λ p. Held m p j) ps
    → Lost m j ⊎ All (λ p. Has p m.sequence j.pending) ps
Held-All m j [] h = inr tt
Held-All m j (p ∷ ps) (inl l, rest) = inl l
Held-All m j (p ∷ ps) (inr has, rest) = elim (Held-All m j ps rest) [
  | inl l ↦ inl l
  | inr hs ↦ inr (has, hs)
]

mark_of-Since : (j : Journal) → Since (mark_of (snapshot j)) j
unfolding mark_of snapshot
mark_of-Since j = omega arith

-- A consumer takes a snapshot, works while other goroutines observe, and commits the sequence of
-- the snapshot's mark. If both counters stay below 2^64 meanwhile, then afterwards the journal
-- shows a gap, or every path recorded meanwhile is still pending with a number after the mark.
pub commit-keeps_later :
    (j : Journal) (os : List Observation) (generation : ℕ)
    → Rooms (cost os) j
    → let m = mark_of (snapshot j) in
      let k = commit m.sequence generation (observes os j) in
      (k.meta.gap ≢ none) ⊎ All (λ p. Has p m.sequence k.pending) (seen os)
unfolding commit advance
commit-keeps_later j os generation r =
    let m = mark_of (snapshot j) in
    elim (Held-All m (observes os j) (seen os) (observes-seen m os j r (mark_of-Since j))) [
      | inl lost ↦ inl lost.1
      | inr has ↦ inr (
          All-mono _ _ (seen os)
            (λ p h. Has-delete p m.sequence m.sequence (observes os j).pending (omega arith) h) has)
    ]

-- A consumer takes a snapshot, works while other goroutines observe, and reports a reconciliation
-- with the snapshot's mark. If both counters stay below 2^64 meanwhile, then afterwards the
-- journal shows a gap, or every path recorded meanwhile is still pending with a number after the
-- mark.
pub reconciled-keeps_later :
    (j : Journal) (os : List Observation) (generation : ℕ)
    → Rooms (cost os) j
    → let m = mark_of (snapshot j) in
      let k = reconciled m generation (observes os j) in
      (k.meta.gap ≢ none) ⊎ All (λ p. Has p m.sequence k.pending) (seen os)
unfolding reconciled advance
reconciled-keeps_later j os generation r =
    let m = mark_of (snapshot j) in
    let k = observes os j in
    elim (Held-All m k (seen os) (observes-seen m os j r (mark_of-Since j))) [
      | inl lost ↦ inl (ground (arith, lost))
      | inr has ↦ inr (
          All-mono _ _ (seen os)
            (λ p h. ground (arith, Has-delete p m.sequence m.sequence k.pending (omega arith) h))
            has)
    ]

-- No break since the mark, or the journal shows one.
abbrev Settled : Mark → Journal → Type 0
Settled m j = (j.meta.gap_seq ≡ m.gap_seq) ⊎ Lost m j

bound_pending-Settled :
    (m : Mark) (now : ℕ) (j : Journal)
    → Room 1 j.meta.gap_seq
    → Since m j
    → Settled m j
    → Settled m (bound_pending now j)
unfolding bound_pending
bound_pending-Settled m now j r s h = ground arith

observe_all-Settled :
    (m : Mark) (es : List Event) (j : Journal) → Settled m j → Settled m (observe_all es j)
unfolding observe_all observe accept
observe_all-Settled m [] j h = h
observe_all-Settled m (e ∷ es) j h = observe_all-Settled m es (observe e j) (ground arith)

step-Settled :
    (m : Mark) (o : Observation) (j : Journal)
    → Rooms (step_cost o) j
    → Since m j
    → Settled m j
    → Settled m (step o j)
unfolding step step_cost record_events
step-Settled m (saw [] now) j r s h = h
step-Settled m (saw (e ∷ es) now) j r s h =
    let k = observe_all (e ∷ es) j in
    let same = observe_all-gap (e ∷ es) j in
    bound_pending-Settled m now (record k { dirty = true }) (omega arith)
      (let t = Since-Grows m (length (e ∷ es)) j k s (observe_all-Grows (e ∷ es) j (omega arith)) in
        record { sequence_since = t.sequence_since; gap_since = t.gap_since })
      (observe_all-Settled m (e ∷ es) j h)
step-Settled m (broke reason detail at now) j r s h =
    inr (mark_gap-Lost m reason detail at now j r.1 s)

observes-Settled :
    (m : Mark) (os : List Observation) (j : Journal)
    → Rooms (cost os) j
    → Since m j
    → Settled m j
    → Settled m (observes os j)
unfolding observes
observes-Settled m [] j r s h = h
observes-Settled m (o ∷ os) j r s h =
    let (first, rest) = Rooms-step o os j r in
    rw (observes-cons o os j) (
      observes-Settled m os (step o j) rest
        (Since-Grows m (step_cost o) j (step o j) s (step-Grows o j first))
        (step-Settled m o j first s h))

-- A reconciliation with the mark of an earlier snapshot leaves no gap exactly when no gap was
-- marked since. The counters are to stay below 2^64 meanwhile.
pub reconciled-clears :
    (j : Journal) (os : List Observation) (generation : ℕ)
    → Rooms (cost os) j
    → let k = observes os j in
      ((reconciled (mark_of (snapshot j)) generation k).meta.gap ≡ none)
      ↔ (k.meta.gap_seq ≡ j.meta.gap_seq)
unfolding reconciled advance mark_of snapshot
reconciled-clears j os generation r =
    let settled = observes-Settled (mark_of (snapshot j)) os j r (mark_of-Since j) (inl refl) in
    (ground (arith, settled), ground (arith, settled))
