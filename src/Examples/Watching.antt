-- ===== src/Examples/Watching.antt =====
-- Runs of the change journal.
use lctk.Prelude.{
  ◌≡◌, ◌≢◌, refl, ◌⊎◌, true, false, none, List, [], ◌∷◌, Text, text, text_eq, trim_space, All,
  arith,
}
use lctk.Files.{Disk, no_faults}
use lctk.Journal.{
  Journal, Snapshot, Event, Observation, saw, broke, written, snapshot, mark_of, observes,
  reconciled, save, is_skipped,
}
use lctk.Journal.Pending.{Has}
use lctk.Journal.Invariant.{IsValid}
use lctk.Journal.Honesty.{seen}
use lctk.Journal.Concurrent.{observes-IsValid, reconciled-keeps_later}
use lctk.Journal.Saving.{Synced, save_misses_update}

abbrev pub main_go : Text
main_go = text "main.go"

abbrev pub go_mod : Text
go_mod = text "go.mod"

abbrev pub saved : Text → Event
saved p = record { path = p; kind = written; directory = false; at = 7 }

-- Two changes of which one is applied, and a bound of two.
abbrev pub small : Journal
small = record {
  max_pending = 2;
  meta = record {
    version = 1;
    project_id = text "demo";
    sequence = 2;
    checkpoint = 1;
    generation = 4;
    gap_seq = 1;
    gap = none;
    pending = [];
    last_event_at = 6;
    updated_at = 0;
  };
  pending = record { seq = 2; path = main_go; kind = written; directory = false; at = 6 } ∷ [];
  dirty = true;
}

pub small-IsValid : IsValid small
small-IsValid = record {
  sound = record {
    within = ((omega arith, omega arith), tt);
    distinct = (tt, tt);
    behind = omega arith;
  };
  fits = omega arith;
}

abbrev pub bare_disk : Disk Snapshot
bare_disk = record { target = none; temp = none }

-- The watcher sees one file while the index works, then another and loses count.
abbrev pub busy : List Observation
busy = saw (saved go_mod ∷ []) 8 ∷ broke (text "overflow") [] 0 9 ∷ []

abbrev one_more : List Observation
one_more = saw (saved go_mod ∷ []) 8 ∷ []

observes-IsValid_example : IsValid (observes busy small)
observes-IsValid_example = observes-IsValid busy small (omega arith, omega arith) small-IsValid

reconciled-keeps_later_example :
    let m = mark_of (snapshot small) in
    let k = reconciled m 5 (observes busy small) in
    (k.meta.gap ≢ none) ⊎ All (λ p. Has p m.sequence k.pending) (seen busy)
reconciled-keeps_later_example = reconciled-keeps_later small busy 5 (omega arith, omega arith)

skips_none : is_skipped (saved go_mod) ≡ false
unfolding is_skipped text_eq trim_space
skips_none = refl

save_misses_update_example :
    ((save no_faults (saw (saved go_mod ∷ []) 8 ∷ []) 9 (small, bare_disk)).1 ≡ none)
    × ¬ Synced (save no_faults (saw (saved go_mod ∷ []) 8 ∷ []) 9 (small, bare_disk)).0
save_misses_update_example =
    save_misses_update (saved go_mod) 8 9 small bare_disk refl skips_none (omega arith)

abbrev both : Snapshot
both = snapshot small
