-- ===== src/Examples/Supervising.antt =====
-- A supervisor with one project.
use lctk.Prelude.{
  ◌≡◌, refl, ◌⊎◌, ◌++◌, Text, true, false, not, none, some, List, [], ◌∷◌, text, text_eq, Any,
  lookup, insert, passing, if◌then◌else◌,
}
use lctk.Files.{no_faults}
use lctk.Worker.{Worker, idle_since}
use lctk.Supervisor.{
  new, running, Quit, Launch, World, Action, claims, publishes, finishes, touches, flushes, closes,
  member, watching, claim, close, run, sweep,
}
use lctk.Supervisor.Invariant.{IsValid, IsStopped, new-IsValid, run-IsValid}
use lctk.Supervisor.Accounting.{run-IsStopped, close_final}
use lctk.Supervisor.Sweeping.{swept, lookup-sweep}
use lctk.Examples.Watching.{small, bare_disk}
use lctk.Examples.Working.{quiet}

abbrev launch : Launch
launch = record {
  journal = small;
  disk = bare_disk;
  truncated = true;
  settings = none;
  proposal = none;
  now = 3;
}

abbrev quit : Quit
quit = record { settling = no_faults; marking = no_faults; now = 9 }

abbrev starts : List Action
starts = claims (text "p") ∷ publishes (text "p") (text "here") launch ∷ finishes (text "p") ∷ []

abbrev later : List Action
later =
    touches (text "p") 5 ∷ closes (λ id. quit) ∷ flushes (text "p") quiet ∷ claims (text "p") ∷ []

started-IsValid : IsValid (run starts new)
started-IsValid = run-IsValid starts new new-IsValid

run-IsValid_example : IsValid (run starts new)
run-IsValid_example = run-IsValid starts new new-IsValid

is_watched : watching (text "p") (run starts new) ≡ true
unfolding run watching lookup insert member text_eq
is_watched = refl

run-IsStopped_example :
    let s = run starts new in
    let t = run later s in
    (t.overwritten ≡ [])
    × (added : List (Text × Worker)) × (t.let_go ≡ added ++ s.let_go)
    × ((watching (text "p") t ≡ true) ⊎ Any (λ p. (p.0 ≡ text "p") × IsStopped p) added)
run-IsStopped_example = run-IsStopped (text "p") later (run starts new) started-IsValid is_watched

close_final_example :
    let t = run later (close (λ id. quit) (run starts new)) in
    (t.workers ≡ [])
    × ((claim (text "p") t).1 ≡ false)
    × (watching (text "p") (run starts new) ≡ true
        → Any (λ p. (p.0 ≡ text "p") × IsStopped p) t.let_go)
close_final_example = close_final (text "p") (λ id. quit) later (run starts new) started-IsValid

abbrev around : World
around = record {
  status = λ id. running (text "there");
  launch = λ id. some launch;
  quit = λ id. quit;
  now = 20;
}

lookup-sweep_example :
    lookup (text "q") (sweep around (text "p" ∷ text "q" ∷ []) (run starts new)).workers
    ≡ passing
        (λ w. not (idle_since 20 w))
        (if member (text "q") (text "p" ∷ text "q" ∷ [])
          then swept around (text "q") (running (text "there")) (run starts new)
          else none)
unfolding member text_eq
lookup-sweep_example =
    lookup-sweep around (text "q") (text "p" ∷ text "q" ∷ []) (run starts new) (refl, (refl, tt))
