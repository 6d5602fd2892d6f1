-- ===== src/Supervisor.antt =====
-- internal/watchsupervisor/supervisor.go: the table of the workers. Each section under the mutex is a
-- definition, and `act` runs one of them, so a list of actions is an interleaving of the supervisor's
-- methods. A worker that is taken out of the table is stopped in the same step: the supervisor has no
-- other way to it. `let_go` keeps the workers that were stopped, and `overwritten` the ones whose place in
-- the table a later one took: neither list is in the source. What the service, the journal and the watcher
-- answered to a start is an argument. Timers, contexts and logging are left out.
pub mod Invariant
pub mod Accounting
pub mod Sweeping
use lctk.Prelude.{
  ℕ, ℤ, Bool, true, false, ◌||◌, ◌&&◌, not, Option, none, some, List, [], ◌∷◌, ◌++◌, Text, text,
  text_eq, lookup, insert, delete, if◌then◌else◌,
}
use lctk.Files.{Faults, Disk}
use lctk.Settings.{Watch, Settings, defaults, with_project_debounce}
use lctk.Journal.{Journal, Snapshot, mark_gap}
use lctk.Worker
use lctk.Worker.{Worker, Attempt, stop, touch, idle_since, flush, drain_async}

abbrev pub reason_suspended : Text
reason_suspended = text "observation_suspended"

abbrev pub reason_watch_set_incomplete : Text
reason_watch_set_incomplete = text "watch_set_incomplete"

-- projectstack.Status: an error, a state other than running or no address, or the address.
pub data Status : Type 0 where
  unknown absent : Status
  running : Text → Status

pub record Supervisor : Type 0 where
  pub workers : List (Text × Worker)
  pub starting : List Text
  pub closed : Bool
  pub let_go : List (Text × Worker)
  pub overwritten : List (Text × Worker)

abbrev pub new : Supervisor
new = record { workers = []; starting = []; closed = false; let_go = []; overwritten = [] }

unfoldable pub member : Text → List Text → Bool
member id [] = false
member id (i ∷ ids) = text_eq i id || member id ids

unfoldable pub without : Text → List Text → List Text
without id [] = []
without id (i ∷ ids) = if text_eq i id then without id ids else i ∷ without id ids

abbrev pub is_some : Option Worker → Bool
is_some none = false
is_some (some w) = true

-- watching.
unfoldable pub watching : Text → Supervisor → Bool
watching id s = is_some (lookup id s.workers)

-- What a start obtained.
pub record Launch : Type 0 where
  pub journal : Journal
  pub disk : Disk Snapshot
  pub truncated : Bool
  pub settings : Option Settings
  pub proposal : Option ℤ
  pub now : ℕ

-- resolveWatch: settings or a manifest that could not be read are none.
unfoldable pub resolve_watch : Option Settings → Option ℤ → Watch
resolve_watch none none = defaults.watch
resolve_watch none (some ms) = with_project_debounce defaults.watch ms
resolve_watch (some h) none = h.watch
resolve_watch (some h) (some ms) = with_project_debounce h.watch ms

-- The worker that start makes.
unfoldable pub new_worker : Text → Launch → Worker
new_worker address l = record {
  journal =
      if l.truncated
      then mark_gap reason_watch_set_incomplete
          (text "the project has more directories than the service will describe") l.now l.now
          l.journal
      else l.journal;
  disk = l.disk;
  watch = resolve_watch l.settings l.proposal;
  released = false;
  stopped = false;
  last_use = l.now;
  address = address;
  settled_at = 0;
  applied_at = 0;
  last_error = [];
}

-- Supervisor.retarget. The drain that it starts is a step of its own.
unfoldable pub retarget : Text → Worker → Worker
retarget address w =
    if text_eq address [] || text_eq w.address address then w else (Worker.retarget address w).0

-- The first section of ensure and of Wake, and whether the caller goes on to start.
unfoldable pub claim : Text → Supervisor → Supervisor × Bool
unfolding watching member
claim id s =
    if watching id s || member id s.starting || s.closed
    then (s, false)
    else (record s { starting = id ∷ s.starting }, true)

-- The worker whose place is taken, if there is one.
abbrev pub taken : Text → Option Worker → List (Text × Worker) → List (Text × Worker)
taken id none ws = ws
taken id (some w) ws = (id, w) ∷ ws

-- w.workers[id] = worker.
unfoldable pub place : Text → Worker → Supervisor → Supervisor
place id w s = record s {
  workers = insert id w s.workers;
  overwritten = taken id (lookup id s.workers) s.overwritten;
}

-- The last section of start.
unfoldable pub publish : Text → Worker → Supervisor → Supervisor
unfolding watching place
publish id w s = if s.closed then s else if watching id s then s else place id w s

-- The deferred section of start.
unfoldable pub finish : Text → Supervisor → Supervisor
unfolding without
finish id s = record s { starting = without id s.starting }

-- start, with what it obtained unless something failed.
unfoldable pub start : Text → Text → Option Launch → Supervisor → Supervisor
unfolding publish finish new_worker
start id address none s = finish id s
start id address (some l) s = finish id (publish id (new_worker address l) s)

-- A change of one worker, outside the mutex.
unfoldable pub on_worker : Text → (Worker → Worker) → Supervisor → Supervisor
on_worker id f s = elim (lookup id s.workers) [
  | none ↦ s
  | some w ↦ record s { workers = insert id (f w) s.workers }
]

-- ensure.
unfoldable pub ensure : Text → Text → Option Launch → Supervisor → Supervisor
unfolding claim on_worker start
ensure id address l s =
    let (claimed, won) = claim id s in
    if won then start id address l claimed else on_worker id (retarget address) s

-- Wake, up to the goroutine that it starts, and whether it starts one.
unfoldable pub wake : Text → Status → ℕ → Supervisor → Supervisor × Bool
unfolding claim on_worker watching
wake id unknown now s = (s, false)
wake id absent now s = (s, false)
wake id (running address) now s =
    if text_eq address [] || s.closed
    then (s, false)
    else if watching id s
    then (on_worker id (λ w. retarget address (touch now now w)) s, false)
    else claim id s

-- What stopping a worker meets.
pub record Quit : Type 0 where
  pub settling : Faults
  pub marking : Faults
  pub now : ℕ

unfoldable pub stop_worker : Text → Quit → Worker → Worker
stop_worker detail q w = stop q.settling q.marking reason_suspended detail q.now w

-- release.
unfoldable pub release : Text → Text → Quit → Supervisor → Supervisor
unfolding stop_worker
release id detail q s = elim (lookup id s.workers) [
  | none ↦ record s { workers = delete id s.workers }
  | some w ↦ record s {
    workers = delete id s.workers;
    let_go = (id, stop_worker detail q w) ∷ s.let_go;
  }
]

-- workerIDs.
abbrev pub worker_ids : List (Text × Worker) → List Text
worker_ids [] = []
worker_ids ((id, w) ∷ ws) = id ∷ worker_ids ws

abbrev pub stop_all : (Text → Quit) → List (Text × Worker) → List (Text × Worker)
stop_all q [] = []
stop_all q ((id, w) ∷ ws) =
    (id, stop_worker (text "the daemon is shutting down") (q id) w) ∷ stop_all q ws

-- Close.
unfoldable pub close : (Text → Quit) → Supervisor → Supervisor
unfolding stop_worker
close q s =
    if s.closed
    then s
    else record s { closed = true; workers = []; let_go = stop_all q s.workers ++ s.let_go }

-- reapIdle, from a list of ids on.
unfoldable pub reap : ℕ → (Text → Quit) → List Text → Supervisor → Supervisor
unfolding release
reap now q [] s = s
reap now q (id ∷ ids) s = reap now q ids (elim (lookup id s.workers) [
  | none ↦ s
  | some w ↦ if idle_since now w then release id (text "the project has been idle") (q id) s else s
])

unfoldable pub reap_idle : ℕ → (Text → Quit) → Supervisor → Supervisor
unfolding reap
reap_idle now q s = reap now q (worker_ids s.workers) s

-- What a sweep meets: the answer for each project, and what each start and each stop meets.
pub record World : Type 0 where
  pub status : Text → Status
  pub launch : Text → Option Launch
  pub quit : Text → Quit
  pub now : ℕ

-- One project of a sweep, by its answer: the new state, and whether the project is live.
unfoldable pub visit : World → Text → Status → Supervisor → Supervisor × Bool
unfolding ensure watching
visit o id unknown s = (s, watching id s)
visit o id absent s = (s, false)
visit o id (running address) s =
    if text_eq address [] then (s, false) else (ensure id address (o.launch id) s, true)

-- The first loop of Sweep.
unfoldable pub visit_all : World → List Text → Supervisor → Supervisor × List Text
unfolding visit
visit_all o [] s = (s, [])
visit_all o (id ∷ ids) s =
    let (s', alive) = visit o id (o.status id) s in
    let (t, live) = visit_all o ids s' in (t, if alive then id ∷ live else live)

-- The second loop of Sweep.
unfoldable pub release_rest : World → List Text → List Text → Supervisor → Supervisor
unfolding release member
release_rest o live [] s = s
release_rest o live (id ∷ ids) s = release_rest o live ids (
    if member id live
    then s
    else release id (text "the project is no longer running") (o.quit id) s)

-- Sweep, of the projects of a registry.
unfoldable pub sweep : World → List Text → Supervisor → Supervisor
unfolding visit_all release_rest reap_idle
sweep o projects s =
    let (t, live) = visit_all o projects s in
    reap_idle o.now o.quit (release_rest o live (worker_ids t.workers) t)

-- The sections that can follow one another in any order.
pub data Action : Type 0 where
  claims : Text → Action
  publishes : Text → Text → Launch → Action
  finishes : Text → Action
  releases : Text → Text → Quit → Action
  retargets : Text → Text → Action
  touches : Text → ℕ → Action
  flushes : Text → Attempt → Action
  drains : Text → Bool → Attempt → Action
  closes : (Text → Quit) → Action

unfoldable pub act : Action → Supervisor → Supervisor
unfolding claim publish finish release on_worker close new_worker
act (claims id) s = (claim id s).0
act (publishes id address l) s = publish id (new_worker address l) s
act (finishes id) s = finish id s
act (releases id detail q) s = release id detail q s
act (retargets id address) s = on_worker id (retarget address) s
act (touches id now) s = on_worker id (touch now now) s
act (flushes id a) s = on_worker id (flush a) s
act (drains id locked a) s = on_worker id (drain_async locked a) s
act (closes q) s = close q s

unfoldable pub run : List Action → Supervisor → Supervisor
unfolding act
run [] s = s
run (a ∷ more) s = run more (act a s)
