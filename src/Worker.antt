-- ===== src/Worker.antt =====
-- internal/watchsupervisor/worker.go: the worker of one project, which keeps the journal of what its
-- watcher sees and applies it to the index. The two timers and the channels of `run` are a step
-- function on inputs; a drain is one step with what other goroutines record while the index service
-- answers and while the document is written. The service's answer is an argument. Logging and
-- contexts are left out.
pub mod Changes
pub mod Drain
pub mod Stopping
pub mod Timers
use lctk.Prelude.{
  ℕ, ◌+◌, Bool, true, false, Option, none, some, List, [], ◌∷◌, ◌++◌, Text, text_eq, ltb, ◌==◌,
  if◌then◌else◌, length, pos_part, ◌||◌,
}
use lctk.Files.{Disk, Faults, WriteError}
use lctk.Settings.{Watch, debounce, settle_ceiling, idle_stop}
use lctk.Journal.{
  Journal, Snapshot, Event, Entry, Gap, Observation, Mark, written, removed, snapshot, mark_of,
  observes, save, commit, reconciled, mark_gap, record_events,
}

-- codeintel.Change, and the two calls of the index client.
pub record Change : Type 0 where
  pub path : Text
  pub deleted : Bool
  pub subtree : Bool

pub data Request : Type 0 where
  reconcile : Request
  apply : List Change → Request

-- An IndexResult's generation, or an error.
pub data Answer : Type 0 where
  done : ℕ → Answer
  failed : Text → Answer

pub record Worker : Type 0 where
  pub journal : Journal
  pub disk : Disk Snapshot
  pub watch : Watch
  pub released : Bool
  pub stopped : Bool
  pub last_use : ℕ
  pub address : Text
  pub settled_at : ℕ
  pub applied_at : ℕ
  pub last_error : Text

-- retarget. The client is the one for the address.
unfoldable pub retarget : Text → Worker → Worker × Bool
retarget address w =
    if text_eq address [] || text_eq address w.address
    then (w, false)
    else (record w { address = address; last_error = [] }, true)

change_of : Entry → List Change
change_of e = elim e.kind [
  | removed ↦ record { path = e.path; deleted = true; subtree = e.directory } ∷ []
  | written ↦
      if e.directory then [] else record { path = e.path; deleted = false; subtree = false } ∷ []
]

-- indexChanges.
unfoldable pub index_changes : List Entry → List Change
unfolding change_of
index_changes [] = []
index_changes (e ∷ es) = change_of e ++ index_changes es

-- persist.
unfoldable pub persist : Faults → List Observation → ℕ → Worker → Worker
persist f meanwhile now w =
    let ((journal, disk), e) = save f meanwhile now (w.journal, w.disk) in
    let kept = record w { journal = journal; disk = disk } in
    elim e [ some why ↦ kept | none ↦ record kept { settled_at = now } ]

-- What a drain asks of the service, if anything.
request_for : Option Gap → List Entry → Option Request
request_for (some g) es = some reconcile
request_for none [] = none
request_for none (e ∷ es) = some (apply (index_changes (e ∷ es)))

unfoldable pub request : Snapshot → Option Request
unfolding request_for
request s = request_for s.gap s.pending

-- What happens outside the worker during one drain.
pub record Attempt : Type 0 where
  pub answer : Answer
  pub during : List Observation
  pub saving : List Observation
  pub faults : Faults
  pub now : ℕ

-- How the journal catches up with a request that was answered, by the gap of the snapshot.
unfoldable pub catch_up : Option Gap → Mark → ℕ → Journal → Journal
catch_up (some g) m generation j = reconciled m generation j
catch_up none m generation j = commit m.sequence generation j

conclude : Attempt → Snapshot → Answer → Worker → Worker
unfolding catch_up persist
conclude a s (failed why) w = record w { last_error = why }
conclude a s (done generation) w = persist a.faults a.saving a.now (record w {
  journal = catch_up s.gap (mark_of s) generation w.journal;
  applied_at = a.now;
  last_error = [];
})

-- drain.
unfoldable pub drain : Attempt → Worker → Worker
unfolding conclude
drain a w =
    let s = snapshot w.journal in
    elim (request s) [
      | none ↦ w
      | some r ↦ conclude a s a.answer (record w { journal = observes a.during w.journal })
    ]

-- The goroutine of drainAsync, which gives up where another drain holds the lock.
unfoldable pub drain_async : Bool → Attempt → Worker → Worker
drain_async locked a w = if w.stopped then w else if locked then w else drain a w

-- flush waits for the lock.
unfoldable pub flush : Attempt → Worker → Worker
flush a w = if w.stopped then w else drain a w

unfoldable pub touch : ℕ → ℕ → Worker → Worker
touch at now w =
    let used = if at == 0 then now else at in
    if ltb w.last_use used then record w { last_use = used } else w

unfoldable pub idle_since : ℕ → Worker → Bool
idle_since now w = ltb (w.last_use + pos_part (idle_stop w.watch)) now

-- The body of stopOnce: the loop persists once more, no drain starts after that, and the gap is
-- recorded.
unfoldable pub release : Faults → Faults → Text → Text → ℕ → Worker → Worker
release f g reason detail now w =
    let ended = record (persist f [] now w) { released = true; stopped = true } in
    let ((journal, disk), e) =
      save g [] now (mark_gap reason detail now now ended.journal, ended.disk) in
    record ended { journal = journal; disk = disk }

unfoldable pub stop : Faults → Faults → Text → Text → ℕ → Worker → Worker
stop f g reason detail now w = if w.released then w else release f g reason detail now w

-- The fields that name the project, that come from the watcher, or that tell whether a drain is under
-- way are left out.
pub record View : Type 0 where
  pub pending : ℕ
  pub sequence : ℕ
  pub checkpoint : ℕ
  pub generation : ℕ
  pub gap : Option Gap
  pub last_event_at : ℕ
  pub settled_at : ℕ
  pub applied_at : ℕ
  pub last_error : Text

unfoldable pub view : Worker → View
view w =
    let s = snapshot w.journal in
    record {
      pending = length s.pending;
      sequence = s.sequence;
      checkpoint = s.checkpoint;
      generation = s.generation;
      gap = s.gap;
      last_event_at = s.last_event_at;
      settled_at = w.settled_at;
      applied_at = w.applied_at;
      last_error = w.last_error;
    }

-- The state of `run`: the deadlines of the two timers that are running.
pub record Loop : Type 0 where
  pub worker : Worker
  pub debounce_at : Option ℕ
  pub ceiling_at : Option ℕ
  pub ceiling_armed : Bool
  pub running : Bool

pub data Input : Type 0 where
  quit closed debounce_fired ceiling_fired : Input
  event : Event → Input
  gap : Text → Text → ℕ → Input

unfoldable pub arm : ℕ → Loop → Loop
arm now l = record l {
  debounce_at = some (now + pos_part (debounce l.worker.watch));
  ceiling_at =
      if l.ceiling_armed
      then l.ceiling_at
      else some (now + pos_part (settle_ceiling l.worker.watch));
  ceiling_armed = true;
}

unfoldable pub disarm : Loop → Loop
disarm l = record l { debounce_at = none; ceiling_at = none; ceiling_armed = false }

-- One round of the select of `run`, and whether it starts a drain. Both closed channels end the loop
-- in the same way.
unfoldable pub run_step : Input → Faults → ℕ → Loop → Loop × Bool
unfolding arm disarm persist touch
run_step quit f now l = (record l { worker = persist f [] now l.worker; running = false }, false)
run_step closed f now l = (record l { worker = persist f [] now l.worker; running = false }, false)
run_step (event e) f now l = (
  arm now (record l {
    worker =
        touch e.at now (record l.worker { journal = record_events (e ∷ []) now l.worker.journal });
  }),
  false,
)
run_step (gap reason detail at) f now l = (
  arm now (record l {
    worker = record l.worker { journal = mark_gap reason detail at now l.worker.journal };
  }),
  false,
)
run_step debounce_fired f now l = (disarm (record l { worker = persist f [] now l.worker }), true)
run_step ceiling_fired f now l = (disarm (record l { worker = persist f [] now l.worker }), true)

-- Before the loop `run` settles once and arms nothing.
unfoldable pub run_start : Faults → ℕ → Worker → Loop × Bool
unfolding persist
run_start f now w = (
  record {
    worker = persist f [] now w;
    debounce_at = none;
    ceiling_at = none;
    ceiling_armed = false;
    running = true;
  },
  true,
)
