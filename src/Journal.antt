-- ===== src/Journal.antt =====
-- internal/changejournal/journal.go: the record of what the watcher saw of one project, and how far
-- a consumer has caught up. A method that changes the journal returns the new one; the mutex makes
-- each method one step, except `save`, which lets go of it while the document is written. The clock
-- is an argument. The map `pending` is keyed by the path of its entries, so it is a list of entries
-- with one for each path, in an order that nothing depends on.
pub mod Pending
pub mod Invariant
pub mod Honesty
pub mod Concurrent
pub mod Saving
pub mod Opening
use lctk.Prelude.{
  ℕ, ◌+◌, ◌-◌, ◌%◌, ◌^◌, Bool, true, false, ◌||◌, ◌&&◌, not, Option, none, some, List, [], ◌∷◌,
  ◌++◌, Text, text, text_eq, trim_space, decimal, ltb, leb, ◌==◌, if◌then◌else◌, length,
}
use lctk.Files.{Disk, Faults, WriteError, write_file}

abbrev pub schema_version : ℕ
schema_version = 1

abbrev pub default_max_pending : ℕ
default_max_pending = 10000

abbrev pub reason_started : Text
reason_started = text "observation_started"

abbrev pub reason_unreadable : Text
reason_unreadable = text "journal_unreadable"

abbrev pub reason_bulk : Text
reason_bulk = text "bulk_change"

-- fswatch.Kind and fswatch.Event.
pub data Kind : Type 0 where
  written removed : Kind

pub record Event : Type 0 where
  pub path : Text
  pub kind : Kind
  pub directory : Bool
  pub at : ℕ

pub record Entry : Type 0 where
  pub seq : ℕ
  pub path : Text
  pub kind : Kind
  pub directory : Bool
  pub at : ℕ

pub record Gap : Type 0 where
  pub reason : Text
  pub detail : Text
  pub at : ℕ

pub record Snapshot : Type 0 where
  pub version : ℕ
  pub project_id : Text
  pub sequence : ℕ
  pub checkpoint : ℕ
  pub generation : ℕ
  pub gap_seq : ℕ
  pub gap : Option Gap
  pub pending : List Entry
  pub last_event_at : ℕ
  pub updated_at : ℕ

pub record Mark : Type 0 where
  pub sequence : ℕ
  pub gap_seq : ℕ

unfoldable pub mark_of : Snapshot → Mark
mark_of s = record { sequence = s.sequence; gap_seq = s.gap_seq }

pub record Journal : Type 0 where
  pub max_pending : ℕ
  pub meta : Snapshot
  pub pending : List Entry
  pub dirty : Bool

-- uint64 addition.
abbrev pub next_u64 : ℕ → ℕ
next_u64 n = (n + 1) % 2 ^ 64

-- j.pending[e.Path] = e
unfoldable pub put : Entry → List Entry → List Entry
put e [] = e ∷ []
put e (f ∷ fs) = if text_eq f.path e.path then e ∷ fs else f ∷ put e fs

-- What is left after the entries up to a sequence are deleted.
unfoldable pub delete_through : ℕ → List Entry → List Entry
delete_through n [] = []
delete_through n (e ∷ es) = if leb e.seq n then delete_through n es else e ∷ delete_through n es

-- sort.Slice by Seq, which no two entries share.
unfoldable pub insert_by_seq : Entry → List Entry → List Entry
insert_by_seq e [] = e ∷ []
insert_by_seq e (f ∷ fs) = if ltb e.seq f.seq then e ∷ f ∷ fs else f ∷ insert_by_seq e fs

-- pendingLocked.
unfoldable pub in_order : List Entry → List Entry
in_order [] = []
in_order (e ∷ es) = insert_by_seq e (in_order es)

unfoldable pub snapshot : Journal → Snapshot
snapshot j = record j.meta { pending = in_order j.pending }

-- Time zero is the zero time.Time.
unfoldable pub mark_gap : Text → Text → ℕ → ℕ → Journal → Journal
mark_gap reason detail at now j = record j {
  meta = record meta {
    gap_seq = next_u64 meta.gap_seq;
    gap = elim meta.gap [
      | some g ↦ some g
      | none ↦ some (record { reason = reason; detail = detail; at = if at == 0 then now else at })
    ];
  };
  dirty = true;
}
  where
    open j use {meta}

-- The path under which an event is recorded, and the paths that are passed over.
unfoldable pub clean_path : Event → Text
clean_path e = trim_space e.path

unfoldable pub is_skipped : Event → Bool
unfolding clean_path
is_skipped e = text_eq (clean_path e) [] || text_eq (clean_path e) (text ".")

unfoldable pub entry_of : ℕ → Event → Entry
unfolding clean_path
entry_of seq e = record {
  seq = seq;
  path = clean_path e;
  kind = e.kind;
  directory = e.directory;
  at = e.at;
}

unfoldable pub accept : Event → Journal → Journal
unfolding put entry_of
accept e j =
    let seq = next_u64 j.meta.sequence in
    record j {
      meta = record j.meta {
        sequence = seq;
        last_event_at = if ltb j.meta.last_event_at e.at then e.at else j.meta.last_event_at;
      };
      pending = put (entry_of seq e) j.pending;
    }

-- The body of the loop of Record.
unfoldable pub observe : Event → Journal → Journal
unfolding is_skipped accept
observe e j = if is_skipped e then j else accept e j

unfoldable pub observe_all : List Event → Journal → Journal
observe_all [] j = j
observe_all (e ∷ es) j = observe_all es (observe e j)

-- The bound on distinct paths, checked after the loop of Record.
unfoldable pub bound_pending : ℕ → Journal → Journal
unfolding mark_gap
bound_pending now j =
    if ltb j.max_pending (length j.pending)
    then mark_gap reason_bulk
        (text "more than " ++ decimal j.max_pending ++ text " paths changed without being applied")
        now now (record j { pending = [] })
    else j

-- Record.
unfoldable pub record_events : List Event → ℕ → Journal → Journal
unfolding observe_all bound_pending
record_events [] now j = j
record_events (e ∷ es) now j = bound_pending now (record (observe_all (e ∷ es) j) { dirty = true })

-- advanceLocked.
unfoldable pub advance : ℕ → ℕ → Journal → Journal
unfolding delete_through
advance through generation j = record j {
  meta = record j.meta {
    checkpoint = if ltb j.meta.checkpoint through then through else j.meta.checkpoint;
    generation = generation;
  };
  pending = delete_through through j.pending;
  dirty = true;
}

-- Commit.
unfoldable pub commit : ℕ → ℕ → Journal → Journal
unfolding advance
commit through generation j = advance through generation j

-- Reconciled.
unfoldable pub reconciled : Mark → ℕ → Journal → Journal
unfolding advance
reconciled m generation j =
    let k = advance m.sequence generation j in
    if k.meta.gap_seq == m.gap_seq then record k { meta = record k.meta { gap = none } } else k

-- What `read` finds: no document, one that cannot be read, or a decoded one.
pub data Stored : Type 0 where
  absent : Stored
  unreadable : Text → Stored
  document : Snapshot → Stored

empty_meta : Text → Snapshot
empty_meta id = record {
  version = schema_version;
  project_id = id;
  sequence = 0;
  checkpoint = 0;
  generation = 0;
  gap_seq = 0;
  gap = none;
  pending = [];
  last_event_at = 0;
  updated_at = 0;
}

-- %q of a text that needs no escape.
abbrev quoted : Text → Text
quoted s = 34 ∷ s ++ 34 ∷ []

put_all : List Entry → List Entry → List Entry
put_all [] es = es
put_all (f ∷ fs) es = put_all fs (put f es)

empty_journal : Text → ℕ → Journal
unfolding empty_meta
empty_journal id max = record {
  max_pending = if max == 0 then default_max_pending else max;
  meta = empty_meta id;
  pending = [];
  dirty = false;
}

-- Open. A bound of 0 stands for every MaxPending that is not positive.
unfoldable pub open_journal : Text → ℕ → Stored → ℕ → Journal
unfolding empty_journal put_all mark_gap
open_journal id max absent now =
    mark_gap reason_started (text "the daemon was not observing this project until now") now now
      (empty_journal id max)
open_journal id max (unreadable why) now =
    mark_gap reason_unreadable why now now (empty_journal id max)
open_journal id max (document d) now =
    if not (d.version == schema_version) || not (text_eq d.project_id id)
    then mark_gap reason_unreadable
        (text "the stored journal is schema "
          ++ decimal d.version
          ++ text " for project "
          ++ quoted d.project_id)
        now now (empty_journal id max)
    else mark_gap reason_started (text "the daemon was not observing this project until now") now
        now
        (record (empty_journal id max) {
          meta = record d { pending = [] };
          pending = put_all d.pending [];
        })

-- What other goroutines do to the journal meanwhile.
pub data Observation : Type 0 where
  saw : List Event → ℕ → Observation
  broke : Text → Text → ℕ → ℕ → Observation

unfoldable pub observes : List Observation → Journal → Journal
unfolding record_events mark_gap
observes [] j = j
observes (saw es now ∷ os) j = observes os (record_events es now j)
observes (broke reason detail at now ∷ os) j = observes os (mark_gap reason detail at now j)

abbrev pub second : ℕ
second = 1000000000

-- The first part of Save, under the mutex.
unfoldable pub stamp : ℕ → Journal → Journal
stamp now j = record j {
  meta = record j.meta { updated_at = now - now % second; version = schema_version };
}

-- Save: the mutex is free while the document is written, and the other goroutines make the
-- observations `meanwhile`.
unfoldable pub save :
    Faults
    → List Observation
    → ℕ
    → Journal × Disk Snapshot
    → (Journal × Disk Snapshot) × Option WriteError
unfolding stamp snapshot observes
save f meanwhile now (j, disk) =
    if not j.dirty
    then ((observes meanwhile j, disk), none)
    else let j' = stamp now j in
      let (disk', e) = write_file f (snapshot j') disk in
      let k = observes meanwhile j' in
      elim e [
        | some why ↦ ((k, disk'), some why)
        | none ↦ ((record k { dirty = false }, disk'), none)
      ]
