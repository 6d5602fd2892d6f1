-- ===== src/Examples/Working.antt =====
-- Runs of a worker.
use lctk.Prelude.{
  ◌≡◌, ◌≢◌, refl, ◌⊎◌, true, false, none, List, [], ◌∷◌, Text, has_prefix, text, text_eq,
  trim_space, All, arith, pos,
}
use lctk.Files.{no_faults}
use lctk.Settings.{Watch}
use lctk.Journal.{
  Entry, Event, saw, written, removed, Journal, snapshot, record_events, is_skipped, clean_path,
}
use lctk.Journal.Invariant.{IsSound}
use lctk.Journal.Pending.{Has}
use lctk.Journal.Honesty.{seen}
use lctk.Worker.{
  Worker, Attempt, Loop, done, failed, request, drain, stop, drain_async, flush, index_changes,
}
use lctk.Worker.Drain.{request-none, drain-keeps_later, drain_catches_up}
use lctk.Worker.Stopping.{stop_final}
use lctk.Worker.Changes.{Removes, Deletes, directory_replaced}
use lctk.Examples.Watching.{small, small-IsValid, bare_disk, saved, go_mod, main_go}

abbrev pub watch : Watch
watch = record {
  debounce_ms = pos 2000;
  max_debounce_ms = pos 30000;
  max_watched_directories = pos 0;
  idle_stop_seconds = pos 0;
}

abbrev pub worker : Worker
worker = record {
  journal = small;
  disk = bare_disk;
  watch = watch;
  released = false;
  stopped = false;
  last_use = 0;
  address = text "here";
  settled_at = 0;
  applied_at = 0;
  last_error = [];
}

abbrev pub quiet : Attempt
quiet = record { answer = done 5; during = []; saving = []; faults = no_faults; now = 9 }

abbrev busy : Attempt
busy = record quiet { during = saw (saved go_mod ∷ []) 8 ∷ [] }

abbrev refused_by : Attempt
refused_by = record busy { answer = failed (text "down") }

asks : request (snapshot small) ≢ none
asks h = ground (arith, (request-none small).0 h)

drain-keeps_later_example :
    let k = (drain busy worker).journal in
    (k.meta.gap ≢ none) ⊎ All (λ p. Has p 2 k.pending) (seen (saw (saved go_mod ∷ []) 8 ∷ []))
drain-keeps_later_example =
    drain-keeps_later busy 5 worker refl refl asks (omega arith, omega arith)

drain_catches_up_example :
    let k = (drain quiet worker).journal in
    (k.pending ≡ [])
    × (k.meta.gap ≡ none)
    × (k.meta.checkpoint ≡ 2)
    × (k.meta.generation ≡ 5)
    × (request (snapshot k) ≡ none)
drain_catches_up_example = drain_catches_up quiet 5 worker small-IsValid refl refl refl asks

stop_final_example :
    let s = stop no_faults no_faults (text "stopped") [] 9 worker in
    (s.journal.meta.gap ≢ none)
    × (drain_async false quiet s ≡ s)
    × (flush quiet s ≡ s)
    × (stop no_faults no_faults (text "again") [] 10 s ≡ s)
stop_final_example =
    stop_final no_faults no_faults no_faults no_faults (text "stopped") [] (text "again") [] 9 10
      false quiet worker refl

abbrev idle : Loop
idle = record {
  worker = worker;
  debounce_at = none;
  ceiling_at = none;
  ceiling_armed = false;
  running = true;
}

abbrev entries : List Entry
entries =
    record { seq = 1; path = main_go; kind = written; directory = false; at = 3 }
    ∷ record { seq = 2; path = go_mod; kind = removed; directory = true; at = 4 }
    ∷ record { seq = 3; path = text "docs"; kind = written; directory = true; at = 5 }
    ∷ []

abbrev gone : Event
gone = record { path = text "docs"; kind = removed; directory = true; at = 7 }

abbrev back : Event
back = record gone { kind = written }

back_counts : is_skipped back ≡ false
unfolding is_skipped text_eq trim_space
back_counts = refl

same_path : clean_path back ≡ clean_path gone
unfolding clean_path
same_path = refl

abbrev below : Text
below = text "docs/a.md"

abbrev roomy : Journal
roomy = record small { max_pending = 4 }

roomy-IsSound : IsSound roomy
roomy-IsSound = record {
  within = ((omega arith, omega arith), tt);
  distinct = (tt, tt);
  behind = omega arith;
}

below_kept : All (λ e. ¬ Removes below e) roomy.pending
unfolding has_prefix
below_kept = ground arith

directory_replaced_example :
    let j' = record_events (gone ∷ back ∷ []) 8 roomy in
    (j'.meta.gap ≡ roomy.meta.gap)
    × All (λ c. ¬ Deletes below c) (index_changes (snapshot j').pending)
directory_replaced_example =
    directory_replaced gone back 8 roomy below roomy-IsSound (omega arith) (omega arith) refl refl
      refl refl same_path back_counts below_kept
