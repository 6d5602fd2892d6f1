-- ===== src/Worker/Stopping.antt =====
-- A released worker does no more, and its journal says that nobody watches.
use lctk.Prelude.{
  ℕ, ◌≡◌, ◌≢◌, refl, sym, ap, ◌∙◌, if◌then◌else◌, Bool, true, List, false, none, [], Text, arith,
}
use lctk.Files.{Faults}
use lctk.Worker.Drain.{save-kept}
use lctk.Journal.{Journal, Snapshot, Observation, mark_gap, mark_of, snapshot, observes}
use lctk.Worker.{
  Worker, Answer, done, failed, conclude, catch_up, drain, Attempt, release, stop, drain_async,
  flush, persist,
}

mark_gap-gap :
    (reason detail : Text) (at now : ℕ) (j : Journal)
    → (mark_gap reason detail at now j).meta.gap ≢ none
unfolding mark_gap
mark_gap-gap reason detail at now j e = ground arith

release-gap :
    (f g : Faults) (reason detail : Text) (now : ℕ) (w : Worker)
    → (release f g reason detail now w).journal.meta.gap ≢ none
unfolding release
release-gap f g reason detail now w e =
    let j = (persist f [] now w).journal in
    let disk = (persist f [] now w).disk in
    mark_gap-gap reason detail now now j
      (sym (save-kept g now (mark_gap reason detail now now j) disk).1 ∙ e)

stop-release :
    (f g : Faults) (reason detail : Text) (now : ℕ) (w : Worker)
    → w.released ≡ false
    → stop f g reason detail now w ≡ release f g reason detail now w
unfolding stop
stop-release f g reason detail now w e =
    ap (λ b. if b then w else release f g reason detail now w) e

-- A worker that is released for the first time has a gap in its journal afterwards. No drain and
-- no flush after that changes the worker, and neither does a second release.
pub stop_final :
    (f g f' g' : Faults) (reason detail reason' detail' : Text) (now later : ℕ) (locked : Bool)
    (a : Attempt) (w : Worker)
    → w.released ≡ false
    → let s = stop f g reason detail now w in
      (s.journal.meta.gap ≢ none)
      × (drain_async locked a s ≡ s)
      × (flush a s ≡ s)
      × (stop f' g' reason' detail' later s ≡ s)
unfolding release drain_async flush
stop_final f g f' g' reason detail reason' detail' now later locked a w e =
    rw (stop-release f g reason detail now w e)
      (release-gap f g reason detail now w, refl, refl, unfold stop in refl)

-- Only a stop releases a worker.
persist-released :
    (f : Faults) (meanwhile : List Observation) (now : ℕ) (w : Worker)
    → (persist f meanwhile now w).released ≡ w.released
unfolding persist
persist-released f meanwhile now w = ground arith

conclude-released :
    (a : Attempt) (s : Snapshot) (answer : Answer) (w : Worker)
    → (conclude a s answer w).released ≡ w.released
unfolding conclude
conclude-released a s (failed why) w = refl
conclude-released a s (done generation) w = persist-released a.faults a.saving a.now (record w {
  journal = catch_up s.gap (mark_of s) generation w.journal;
  applied_at = a.now;
  last_error = [];
})

pub drain-released : (a : Attempt) (w : Worker) → (drain a w).released ≡ w.released
unfolding drain
drain-released a w = ground (
  arith,
  conclude-released a (snapshot w.journal) a.answer
      (record w { journal = observes a.during w.journal }),
)

pub stop-released :
    (f g : Faults) (reason detail : Text) (now : ℕ) (w : Worker)
    → w.released ≡ false
    → (stop f g reason detail now w).released ≡ true
unfolding release
stop-released f g reason detail now w e = rw (stop-release f g reason detail now w e)

pub stop-gap :
    (f g : Faults) (reason detail : Text) (now : ℕ) (w : Worker)
    → w.released ≡ false
    → (stop f g reason detail now w).journal.meta.gap ≢ none
stop-gap f g reason detail now w e =
    rw (stop-release f g reason detail now w e) (release-gap f g reason detail now w)
