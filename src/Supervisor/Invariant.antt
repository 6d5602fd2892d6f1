-- ===== src/Supervisor/Invariant.antt =====
-- What holds of the table whatever is interleaved.
use lctk.Prelude.{
  ℕ, ◌≡◌, ◌≢◌, refl, ap, ◌∙◌, inl, inr, Bool, Bool-cases, Option-cases, true, false, ◌||◌, none,
  some, List, [], ◌∷◌, ◌++◌, Text, text, text_eq, lookup, insert, delete, HasKeys, insert-HasKeys,
  delete-HasKeys, All, All-append, arith, if◌then◌else◌, if_cases,
}
use lctk.Worker
use lctk.Worker.{Worker, Attempt, stop, touch, flush, drain_async, drain}
use lctk.Worker.Stopping.{stop-gap, stop-released, drain-released}
use lctk.Supervisor.{
  Supervisor, new, reason_suspended, Quit, Action, claims, publishes, finishes, releases, retargets,
  touches, flushes, drains, closes, member, watching, place, new_worker, retarget, claim, publish,
  finish, on_worker, stop_worker, release, stop_all, close, act, run,
}

abbrev IsRunning : Text × Worker → Type 0
IsRunning (id, w) = w.released ≡ false

-- Stopped, and its journal says so.
abbrev pub IsStopped : Text × Worker → Type 0
IsStopped (id, w) = (w.released ≡ true) × (w.journal.meta.gap ≢ none)

-- No project has two workers in the table and none was overwritten there, none in the table is stopped,
-- each that left it is, and a closed supervisor has none.
pub record IsValid (s : Supervisor) : Type 0 where
  pub keys : HasKeys s.workers
  pub alive : All IsRunning s.workers
  pub stopped : All IsStopped s.let_go
  pub empty : s.closed ≡ true → s.workers ≡ []
  pub single : s.overwritten ≡ []

pub new-IsValid : IsValid new
new-IsValid = record { keys = tt; alive = tt; stopped = tt; empty = λ c. refl; single = refl }

All-delete :
    (P : Text × Worker → Type 0) (id : Text) (m : List (Text × Worker))
    → All P m
    → All P (delete id m)
unfolding delete
All-delete P id [] h = tt
All-delete P id ((i, w) ∷ m) h = elim (Bool-cases (text_eq i id)) [
  | inl same ↦ rw same (All-delete P id m h.1)
  | inr other ↦ rw other (h.0, All-delete P id m h.1)
]

All-insert :
    (P : Text × Worker → Type 0) (id : Text) (w : Worker) (m : List (Text × Worker))
    → P (id, w)
    → All P m
    → All P (insert id w m)
unfolding insert
All-insert P id w m hw h = (hw, All-delete P id m h)

lookup-IsRunning :
    (id : Text) (m : List (Text × Worker)) (w : Worker)
    → All IsRunning m
    → lookup id m ≡ some w
    → w.released ≡ false
unfolding lookup
lookup-IsRunning id [] w h e = cc e
lookup-IsRunning id ((i, v) ∷ m) w h e = elim (Bool-cases (text_eq i id)) [
  | inl same ↦ let found = rw same at e in cc (found, h.0)
  | inr other ↦ lookup-IsRunning id m w h.1 (rw other at e)
]

stop_worker-IsStopped :
    (id detail : Text) (q : Quit) (w : Worker)
    → w.released ≡ false
    → IsStopped (id, stop_worker detail q w)
unfolding stop_worker
stop_worker-IsStopped id detail q w e = (
  stop-released q.settling q.marking reason_suspended detail q.now w e,
  stop-gap q.settling q.marking reason_suspended detail q.now w e,
)

touch-released : (at now : ℕ) (w : Worker) → (touch at now w).released ≡ w.released
unfolding touch
touch-released at now w = ground arith

retarget-released : (address : Text) (w : Worker) → (retarget address w).released ≡ w.released
unfolding retarget Worker.retarget
retarget-released address w = ground arith

flush-released : (a : Attempt) (w : Worker) → (flush a w).released ≡ w.released
unfolding flush
flush-released a w = ground (arith, drain-released a w)

drain_async-released :
    (locked : Bool) (a : Attempt) (w : Worker) → (drain_async locked a w).released ≡ w.released
unfolding drain_async
drain_async-released locked a w = ground (arith, drain-released a w)

on_worker-IsValid :
    (id : Text) (f : Worker → Worker) (s : Supervisor)
    → ((w : Worker) → (f w).released ≡ w.released)
    → IsValid s
    → IsValid (on_worker id f s)
unfolding on_worker lookup
on_worker-IsValid id f s kept v =
    elim (lookup id s.workers)
        as (λ o.
          lookup id s.workers ≡ o
          → IsValid
              (elim o [ none ↦ s | some w ↦ record s { workers = insert id (f w) s.workers } ])) [
                | none ↦ λ e. v
                | some w ↦ λ e. record {
                  keys = insert-HasKeys id (f w) s.workers v.keys;
                  alive =
                      All-insert IsRunning id (f w) s.workers
                        (kept w ∙ lookup-IsRunning id s.workers w v.alive e) v.alive;
                  stopped = v.stopped;
                  empty = λ c.
                      let n : lookup id s.workers ≡ none = ap (λ m. lookup id m) (v.empty c) in
                      absurd (cc (e, n));
                  single = v.single;
                }
              ]
      refl

claim-IsValid : (id : Text) (s : Supervisor) → IsValid s → IsValid (claim id s).0
unfolding claim
claim-IsValid id s v = elim (Bool-cases (watching id s || member id s.starting || s.closed)) [
  | inl busy ↦ rw busy v
  | inr free ↦ rw free (record {
    keys = v.keys;
    alive = v.alive;
    stopped = v.stopped;
    empty = v.empty;
    single = v.single;
  })
]

not_watching : (id : Text) (s : Supervisor) → watching id s ≡ false → lookup id s.workers ≡ none
unfolding watching
not_watching id s h = elim (Option-cases (lookup id s.workers)) [
  | inl missing ↦ missing
  | inr (w, found) ↦ absurd (let watched : true ≡ false = rw found at h in cc watched)
]

publish-IsValid :
    (id : Text) (w : Worker) (s : Supervisor)
    → w.released ≡ false
    → IsValid s
    → IsValid (publish id w s)
unfolding publish
publish-IsValid id w s e v =
    if_cases IsValid s.closed s (if watching id s then s else place id w s) (λ shut. v)
      (λ open_yet.
        if_cases IsValid (watching id s) s (place id w s) (λ raced. v)
          (λ free.
            unfold place in
            record {
              keys = insert-HasKeys id w s.workers v.keys;
              alive = All-insert IsRunning id w s.workers e v.alive;
              stopped = v.stopped;
              empty = λ c. cc (c, open_yet);
              single = rw (not_watching id s free) v.single;
            }))

release-IsValid :
    (id detail : Text) (q : Quit) (s : Supervisor) → IsValid s → IsValid (release id detail q s)
unfolding release
release-IsValid id detail q s v =
    let keys = delete-HasKeys id s.workers v.keys in
    let alive = All-delete IsRunning id s.workers v.alive in
    let empty : s.closed ≡ true → delete id s.workers ≡ [] =
      λ c. rw (v.empty c) (unfold delete in refl) in
    elim (lookup id s.workers)
        as (λ o.
          lookup id s.workers ≡ o
          → IsValid (elim o [
            | none ↦ record s { workers = delete id s.workers }
            | some w ↦ record s {
              workers = delete id s.workers;
              let_go = (id, stop_worker detail q w) ∷ s.let_go;
            }
          ])) [
            | none ↦ λ e. record {
              keys = keys;
              alive = alive;
              stopped = v.stopped;
              empty = empty;
              single = v.single;
            }
            | some w ↦ λ e. record {
              keys = keys;
              alive = alive;
              stopped = (
                stop_worker-IsStopped id detail q w (lookup-IsRunning id s.workers w v.alive e),
                v.stopped,
              );
              empty = empty;
              single = v.single;
            }
          ]
      refl

stop_all-IsStopped :
    (q : Text → Quit) (m : List (Text × Worker)) → All IsRunning m → All IsStopped (stop_all q m)
stop_all-IsStopped q [] h = tt
stop_all-IsStopped q ((id, w) ∷ m) h = (
  stop_worker-IsStopped id (text "the daemon is shutting down") (q id) w h.0,
  stop_all-IsStopped q m h.1,
)

pub close-IsValid : (q : Text → Quit) (s : Supervisor) → IsValid s → IsValid (close q s)
unfolding close
close-IsValid q s v =
    if_cases IsValid s.closed s
      (record s { closed = true; workers = []; let_go = stop_all q s.workers ++ s.let_go })
      (λ shut. v)
      (λ open_yet. record {
        keys = tt;
        alive = tt;
        stopped =
            All-append IsStopped (stop_all q s.workers) s.let_go
              (stop_all-IsStopped q s.workers v.alive) v.stopped;
        empty = λ c. refl;
        single = v.single;
      })

act-IsValid : (a : Action) (s : Supervisor) → IsValid s → IsValid (act a s)
unfolding act
act-IsValid (claims id) s v = claim-IsValid id s v
act-IsValid (publishes id address l) s v =
    publish-IsValid id (new_worker address l) s (unfold new_worker in refl) v
act-IsValid (finishes id) s v =
    unfold finish in
    record {
      keys = v.keys;
      alive = v.alive;
      stopped = v.stopped;
      empty = v.empty;
      single = v.single;
    }
act-IsValid (releases id detail q) s v = release-IsValid id detail q s v
act-IsValid (retargets id address) s v =
    on_worker-IsValid id (retarget address) s (retarget-released address) v
act-IsValid (touches id now) s v = on_worker-IsValid id (touch now now) s (touch-released now now) v
act-IsValid (flushes id a) s v = on_worker-IsValid id (flush a) s (flush-released a) v
act-IsValid (drains id locked a) s v =
    on_worker-IsValid id (drain_async locked a) s (drain_async-released locked a) v
act-IsValid (closes q) s v = close-IsValid q s v

-- Whatever the supervisor's methods do in whatever order, a valid state stays valid: no project
-- has two workers in the table, no worker was overwritten there by a second one of its project,
-- no worker in the table is released, every stopped one is and its journal has a gap, and a
-- closed supervisor has an empty table.
pub run-IsValid : (more : List Action) (s : Supervisor) → IsValid s → IsValid (run more s)
unfolding run
run-IsValid [] s v = v
run-IsValid (a ∷ more) s v = run-IsValid more (act a s) (act-IsValid a s v)
