-- ===== src/Worker/Drain.antt =====
-- What a drain does to the journal: nothing on a quiet journal, nothing but the error when the
-- service fails, and a checkpoint that covers what was sent when it answers.
use lctk.Prelude.{
  ℕ, ◌≡◌, ◌≢◌, refl, ◌∙◌, ◌⊎◌, ◌↔◌, Option, none, some, List, [], ◌∷◌, Text, All, arith,
}
use lctk.Files.{Disk, Faults}
use lctk.Journal.{
  Gap, Journal, Snapshot, Entry, Observation, observes, snapshot, mark_of, save, stamp, commit,
  reconciled, advance, delete_through, in_order, insert_by_seq,
}
use lctk.Journal.Pending.{Has, Within}
use lctk.Journal.Invariant.{IsValid}
use lctk.Journal.Honesty.{seen, cost}
use lctk.Journal.Concurrent.{Rooms, commit-keeps_later, reconciled-keeps_later}
use lctk.Worker.{
  Worker, Attempt, done, failed, request, request_for, drain, conclude, catch_up, persist,
}

-- A save with nothing recorded meanwhile leaves the list, the counters and the gap.
pub save-kept :
    (f : Faults) (now : ℕ) (j : Journal) (disk : Disk Snapshot)
    → let k = (save f [] now (j, disk)).0.0 in
      (k.pending ≡ j.pending)
      × (k.meta.gap ≡ j.meta.gap)
      × (k.meta.sequence ≡ j.meta.sequence)
      × (k.meta.checkpoint ≡ j.meta.checkpoint)
      × (k.meta.gap_seq ≡ j.meta.gap_seq)
      × (k.meta.generation ≡ j.meta.generation)
      × (k.max_pending ≡ j.max_pending)
unfolding save stamp observes
save-kept f now j disk = ground arith

pub persist-kept :
    (f : Faults) (now : ℕ) (w : Worker)
    → let k = (persist f [] now w).journal in
      (k.pending ≡ w.journal.pending)
      × (k.meta.gap ≡ w.journal.meta.gap)
      × (k.meta.sequence ≡ w.journal.meta.sequence)
      × (k.meta.checkpoint ≡ w.journal.meta.checkpoint)
      × (k.meta.gap_seq ≡ w.journal.meta.gap_seq)
      × (k.meta.generation ≡ w.journal.meta.generation)
      × (k.max_pending ≡ w.journal.max_pending)
unfolding persist
persist-kept f now w = ground (arith, save-kept f now w.journal w.disk)

insert-ne-nil : (e : Entry) (es : List Entry) → insert_by_seq e es ≢ []
unfolding insert_by_seq
insert-ne-nil e [] h = cc
insert-ne-nil e (f ∷ fs) h = ground arith

in_order-nil : (es : List Entry) → in_order es ≡ [] → es ≡ []
unfolding in_order
in_order-nil [] h = refl
in_order-nil (e ∷ es) h = absurd (insert-ne-nil e (in_order es) h)

in_order_nil : in_order [] ≡ []
unfolding in_order
in_order_nil = refl

-- A drain asks for nothing exactly when there is no gap and nothing is pending.
pub request-none :
    (j : Journal) → (request (snapshot j) ≡ none) ↔ ((j.meta.gap ≡ none) × (j.pending ≡ []))
unfolding request request_for snapshot
request-none j = (λ h. ground (arith, in_order-nil j.pending), λ h. ground (arith, in_order_nil))

-- When the service fails a drain that had something to ask, the journal is what the observations
-- made meanwhile leave, the document is as it was, the error is kept, and the time of the last
-- update stays.
pub drain-failed :
    (a : Attempt) (why : Text) (w : Worker)
    → a.answer ≡ failed why
    → request (snapshot w.journal) ≢ none
    → ((drain a w).journal ≡ observes a.during w.journal)
      × ((drain a w).disk ≡ w.disk)
      × ((drain a w).last_error ≡ why)
      × ((drain a w).applied_at ≡ w.applied_at)
unfolding drain conclude
drain-failed a why w e r = ground arith

-- The journal that an answered drain leaves, before it is saved.
answered : ℕ → List Observation → Journal → Journal
answered generation during j =
    catch_up (snapshot j).gap (mark_of (snapshot j)) generation (observes during j)

catch_up-keeps_later :
    (g : Option Gap) (j : Journal) (os : List Observation) (generation : ℕ)
    → Rooms (cost os) j
    → let m = mark_of (snapshot j) in
      let k = catch_up g m generation (observes os j) in
      (k.meta.gap ≢ none) ⊎ All (λ p. Has p m.sequence k.pending) (seen os)
unfolding catch_up
catch_up-keeps_later none j os generation r = commit-keeps_later j os generation r
catch_up-keeps_later (some g) j os generation r = reconciled-keeps_later j os generation r

drain-done :
    (a : Attempt) (generation : ℕ) (w : Worker)
    → a.answer ≡ done generation
    → request (snapshot w.journal) ≢ none
    → drain a w
      ≡ persist a.faults a.saving a.now (record w {
        journal = answered generation a.during w.journal;
        applied_at = a.now;
        last_error = [];
      })
unfolding drain conclude answered
drain-done a generation w e r = ground arith

-- When the service answers a drain that had something to ask, and nothing is observed while the
-- journal is saved, then every path recorded while the service worked is still pending, with a
-- number after the snapshot's, or the journal shows a gap. The counters are to stay below 2^64
-- meanwhile.
pub drain-keeps_later :
    (a : Attempt) (generation : ℕ) (w : Worker)
    → a.answer ≡ done generation
    → a.saving ≡ []
    → request (snapshot w.journal) ≢ none
    → Rooms (cost a.during) w.journal
    → let k = (drain a w).journal in
      (k.meta.gap ≢ none) ⊎ All (λ p. Has p w.journal.meta.sequence k.pending) (seen a.during)
unfolding mark_of snapshot
drain-keeps_later a generation w e none_saving r rooms =
    let j = answered generation a.during w.journal in
    let kept =
      persist-kept a.faults a.now (record w { journal = j; applied_at = a.now; last_error = [] }) in
    rw (drain-done a generation w e r, none_saving, kept.0, kept.1)
      (unfold answered in
        catch_up-keeps_later (snapshot w.journal).gap w.journal a.during generation rooms)

delete_through-All :
    (low n : ℕ) (es : List Entry) → All (Within low n) es → delete_through n es ≡ []
unfolding delete_through
delete_through-All low n [] h = refl
delete_through-All low n (e ∷ es) h = ground (arith, delete_through-All low n es h.1)

answered_quiet :
    (generation : ℕ) (j : Journal)
    → IsValid j
    → let k = answered generation [] j in
      (k.pending ≡ [])
      × (k.meta.gap ≡ none)
      × (k.meta.checkpoint ≡ j.meta.sequence)
      × (k.meta.generation ≡ generation)
unfolding answered catch_up commit reconciled advance snapshot mark_of observes
answered_quiet generation j v = ground (
  arith,
  v.sound.behind,
  delete_through-All j.meta.checkpoint j.meta.sequence j.pending v.sound.within,
)

-- A drain of a valid journal that had something to ask and is answered while nothing else happens
-- catches up: nothing is pending, no gap is left, the checkpoint is the journal's sequence, the
-- generation is the answered one, and the next snapshot asks for nothing.
pub drain_catches_up :
    (a : Attempt) (generation : ℕ) (w : Worker)
    → IsValid w.journal
    → a.answer ≡ done generation
    → a.during ≡ []
    → a.saving ≡ []
    → request (snapshot w.journal) ≢ none
    → let k = (drain a w).journal in
      (k.pending ≡ [])
      × (k.meta.gap ≡ none)
      × (k.meta.checkpoint ≡ w.journal.meta.sequence)
      × (k.meta.generation ≡ generation)
      × (request (snapshot k) ≡ none)
drain_catches_up a generation w v e quiet none_saving r =
    let j = answered generation [] w.journal in
    let t = record w { journal = j; applied_at = a.now; last_error = [] } in
    let kept = persist-kept a.faults a.now t in
    let q = answered_quiet generation w.journal v in
    rw (drain-done a generation w e r, none_saving, quiet)
      (
        kept.0 ∙ q.0,
        kept.1 ∙ q.1,
        kept.3 ∙ q.2,
        kept.5 ∙ q.3,
        (request-none (persist a.faults [] a.now t).journal).1 (kept.1 ∙ q.1, kept.0 ∙ q.0),
      )
