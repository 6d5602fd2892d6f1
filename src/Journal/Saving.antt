-- ===== src/Journal/Saving.antt =====
-- Save: the document on disk and the dirty flag.
use lctk.Prelude.{
  ℕ, ◌+◌, ◌≡◌, ◌≢◌, refl, ap, ◌⊎◌, inl, inr, List, [], ◌∷◌, Option, true, false, Text, arith, none,
  some,
}
use lctk.Files.{Disk, Faults, Content, whole, write_file, no_faults}
use lctk.Files.Atomic.{write_file-all_or_nothing}
use lctk.Journal.{
  Journal, Event, Snapshot, Mark, Observation, saw, save, stamp, snapshot, observes, record_events,
  mark_gap, commit, reconciled, observe, observe_all, accept, bound_pending, is_skipped,
}
use lctk.Journal.Invariant.{Room}

-- What is in memory is on disk, or the journal knows that it is not.
abbrev pub Synced : Journal × Disk Snapshot → Type 0
Synced (j, disk) = (j.dirty ≡ true) ⊎ (disk.target ≡ some (whole (snapshot j)))

-- A save with nothing recorded meanwhile keeps memory and disk together, whichever system calls
-- fail: with an error the document is the old one and the journal stays dirty, and without one a
-- dirty journal is on disk and clean.
pub save-Synced :
    (f : Faults) (now : ℕ) (j : Journal) (disk : Disk Snapshot)
    → Synced (j, disk)
    → Synced (save f [] now (j, disk)).0
unfolding save stamp snapshot observes
save-Synced f now j disk s =
    ground (arith, write_file-all_or_nothing f (snapshot (stamp now j)) disk)

-- A save of a journal that is to be saved, while nothing else happens, either returns no error,
-- clears the flag and leaves the stamped snapshot in the document, or returns an error, keeps the
-- flag and leaves the document as it was.
pub save_ok :
    (f : Faults) (now : ℕ) (j : Journal) (disk : Disk Snapshot)
    → j.dirty ≡ true
    → (((save f [] now (j, disk)).1 ≡ none)
        × ((save f [] now (j, disk)).0.0.dirty ≡ false)
        × ((save f [] now (j, disk)).0.1.target ≡ some (whole (snapshot (stamp now j)))))
      ⊎ (((save f [] now (j, disk)).1 ≢ none)
          × ((save f [] now (j, disk)).0.0.dirty ≡ true)
          × ((save f [] now (j, disk)).0.1.target ≡ disk.target))
unfolding save stamp snapshot observes
save_ok f now j disk d = ground (arith, write_file-all_or_nothing f (snapshot (stamp now j)) disk)

record_events-Synced :
    (es : List Event) (now : ℕ) (j : Journal) (disk : Disk Snapshot)
    → Synced (j, disk)
    → Synced (record_events es now j, disk)
unfolding record_events bound_pending
record_events-Synced [] now j disk s = s
record_events-Synced (e ∷ es) now j disk s = ground arith

sequence-record_one :
    (e : Event) (now : ℕ) (j : Journal)
    → is_skipped e ≡ false
    → Room 1 j.meta.sequence
    → (record_events (e ∷ []) now j).meta.sequence ≡ j.meta.sequence + 1
unfolding record_events observe_all observe bound_pending accept
sequence-record_one e now j h r = rw h (ground arith)

-- The sequence number that a stored document holds.
held_sequence : Option (Content Snapshot) → ℕ
held_sequence (some (whole s)) = s.sequence
held_sequence _ = 0

save-saw :
    (o : Observation) (now : ℕ) (j : Journal) (disk : Disk Snapshot)
    → j.dirty ≡ true
    → save no_faults (o ∷ []) now (j, disk) ≡ (
      (
        record (observes (o ∷ []) (stamp now j)) { dirty = false },
        record { target = some (whole (snapshot (stamp now j))); temp = none },
      ),
      none,
    )
unfolding save write_file
save-saw o now j disk d = rw d refl

-- An event that counts and is recorded while a save writes the document, of a journal that was to
-- be saved and whose sequence has room, is lost to the document: the save returns no error, and
-- afterwards the journal is neither marked as to be saved nor equal to the document.
pub save_misses_update :
    (e : Event) (at now : ℕ) (j : Journal) (disk : Disk Snapshot)
    → j.dirty ≡ true
    → is_skipped e ≡ false
    → Room 1 j.meta.sequence
    → ((save no_faults (saw (e ∷ []) at ∷ []) now (j, disk)).1 ≡ none)
      × ¬ Synced (save no_faults (saw (e ∷ []) at ∷ []) now (j, disk)).0
unfolding stamp snapshot observes held_sequence
save_misses_update e at now j disk d h r = rw (save-saw (saw (e ∷ []) at) now j disk d) (
  refl,
  λ s. elim s [
    | inl clean ↦ cc
    | inr same ↦
        absurd (omega (arith, ap held_sequence same, sequence-record_one e at (stamp now j) h r))
  ],
)

-- If the journal is marked as to be saved, or the document is its snapshot, then the same holds
-- after Record, MarkGap, Commit and Reconciled.
pub methods-Synced :
    (es : List Event) (reason detail : Text) (at now through generation : ℕ) (m : Mark)
    (j : Journal) (disk : Disk Snapshot)
    → Synced (j, disk)
    → Synced (record_events es now j, disk)
      × Synced (mark_gap reason detail at now j, disk)
      × Synced (commit through generation j, disk)
      × Synced (reconciled m generation j, disk)
unfolding mark_gap commit reconciled
methods-Synced es reason detail at now through generation m j disk s =
    (record_events-Synced es now j disk s, inl refl, inl refl, inl (ground arith))
