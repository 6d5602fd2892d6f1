-- ===== src/Files.antt =====
-- Atomic replacement of a document by a temporary file, as the stores of LCTK write them: `write` of
-- internal/changejournal/journal.go, `writeLocked` of internal/adminsession/session.go, the end of
-- `Save` of internal/projectregistry/store.go, where a failed Sync is a failed write. The file
-- system is one directory with the document and its temporary file; the encoding of a document as
-- JSON is not modelled, so a file holds the whole document or a torn part of it.
pub mod Atomic
use lctk.Prelude.{ℕ, zero, suc, Bool, true, false, Option, none, some, if◌then◌else◌}

-- What a file holds: nothing yet, a part of an encoded document, or all of it.
pub data Content {ℓ} (D : Type ℓ) : Type ℓ where
  blank : Content D
  torn : D → Content D
  whole : D → Content D

pub record Disk {ℓ} (D : Type ℓ) : Type ℓ where
  pub target : Option (Content D)
  pub temp : Option (Content D)

-- The system calls that can fail, in the order in which they are made.
pub data WriteError : Type 0 where
  mkdir_failed create_failed write_failed close_failed chmod_failed rename_failed : WriteError

-- Which of the calls fail this time.
pub record Faults : Type 0 where
  pub mkdir : Bool
  pub create : Bool
  pub write : Bool
  pub close : Bool
  pub chmod : Bool
  pub rename : Bool

abbrev pub no_faults : Faults
no_faults = record {
  mkdir = false;
  create = false;
  write = false;
  close = false;
  chmod = false;
  rename = false;
}

module _ {ℓ} {D : Type ℓ} where
  -- os.Rename: the temporary file takes the document's name.
  unfoldable pub rename_temp : Disk D → Disk D
  rename_temp disk = record { target = disk.temp; temp = none }

  -- The deferred os.Remove of the temporary file.
  unfoldable pub remove_temp : Disk D → Disk D
  remove_temp disk = record disk { temp = none }

  unfoldable pub fill_temp : Content D → Disk D → Disk D
  fill_temp c disk = record disk { temp = some c }

  -- The whole write, with the error of the first call that fails.
  unfoldable pub write_file : Faults → D → Disk D → Disk D × Option WriteError
  unfolding rename_temp remove_temp fill_temp
  write_file f d disk =
      if f.mkdir
      then (disk, some mkdir_failed)
      else if f.create
      then (disk, some create_failed)
      else if f.write
      then (remove_temp (fill_temp (torn d) disk), some write_failed)
      else if f.close
      then (remove_temp (fill_temp (whole d) disk), some close_failed)
      else if f.chmod
      then (remove_temp (fill_temp (whole d) disk), some chmod_failed)
      else if f.rename
      then (remove_temp (fill_temp (whole d) disk), some rename_failed)
      else (remove_temp (rename_temp (fill_temp (whole d) disk)), none)

  -- What the disk shows if the machine stops after the first `n` effects of a write that goes well:
  -- the file is created, written in part, written in full, renamed.
  unfoldable pub stopped_after : ℕ → D → Disk D → Disk D
  unfolding rename_temp fill_temp
  stopped_after zero d disk = disk
  stopped_after (suc zero) d disk = fill_temp blank disk
  stopped_after (suc (suc zero)) d disk = fill_temp (torn d) disk
  stopped_after (suc (suc (suc zero))) d disk = fill_temp (whole d) disk
  stopped_after (suc (suc (suc (suc n)))) d disk = rename_temp (fill_temp (whole d) disk)
