-- ===== src/Journal/Opening.antt =====
-- Open: what a new process can trust of the stored document.
use lctk.Prelude.{ℕ, ◌≡◌, ◌≢◌, List, Text, All, arith, none, true}
use lctk.Journal.{Journal, Entry, Stored, open_journal}

-- Whatever was stored, an opened journal has a gap and is to be saved.
pub open_journal-gap :
    (id : Text) (max : ℕ) (stored : Stored) (now : ℕ)
    → ((open_journal id max stored now).meta.gap ≢ none)
      × ((open_journal id max stored now).dirty ≡ true)
unfolding open_journal
open_journal-gap id max stored now = ground arith

-- No entry of the first list has the path of `e`.
abbrev Free : Entry → List Entry → Type 0
Free e = All (λ f. f.path ≢ e.path)

abbrev Disjoint : List Entry → List Entry → Type 0
Disjoint es fs = All (λ f. Free f es) fs
