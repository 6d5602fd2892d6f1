-- ===== src/Examples/Installing.antt =====
-- An installation home with two cores, and a release of a third.
use lctk.Prelude.{
  ◌≡◌, refl, inr, true, false, none, some, [], ◌∷◌, Text, text, text_eq, has_prefix, split, pos,
  replicate, if◌then◌else◌,
}
use lctk.Files.{whole, no_faults, write_file}
use lctk.Inventory.Scope.{clean}
use lctk.Installation.{Core, Activation, Home, resolve, load, is_positive, valid_digest}
use lctk.Installation.Resolving.{
  Attempt, exchanged, active_executable, verify_rollback, rollback, install, target_of,
}
use lctk.Installation.Adopting.{Bootstrap, adopt, Adopts, adopt-Adopts}
use lctk.Installation.Resolving.Rollback.{Undoes, rollback_undone}
use lctk.Installation.Resolving.Install.{Installs, install-Installs}

-- A digest that has the form of one: the first character, 64 times.
digest_of : Text → Text
digest_of [] = replicate 64 b'0'
digest_of (c ∷ s) = replicate 64 c

abbrev home : Text
home = text "/h"

abbrev core_of_letter : Text → Text → Core
core_of_letter version letter = record {
  version = version;
  executable = version;
  sha256 = digest_of letter;
  size = pos 1;
}

abbrev both : Activation
both = record {
  schema_version = 1;
  active = core_of_letter (text "2") (text "b");
  previous = core_of_letter (text "1") (text "a");
  activated_at = 5;
}

abbrev stored : Home
stored = record {
  document = record { target = some (whole both); temp = none };
  files = λ p.
      if text_eq p (text "/h/2")
      then some (text "b")
      else if text_eq p (text "/h/1")
      then some (text "a")
      else none;
}

is_loaded : load home stored ≡ inr both
unfolding load resolve clean split text_eq has_prefix digest_of
is_loaded = refl

runs : active_executable digest_of home stored ≡ inr (text "/h/2", both)
unfolding active_executable load resolve clean split text_eq has_prefix digest_of
runs = refl

abbrev after : Home
after = record stored {
  document = record { target = some (whole (exchanged 9 both)); temp = none };
}

rolled_back : rollback digest_of home no_faults 9 stored ≡ (inr (exchanged 9 both), after)
unfolding rollback verify_rollback load resolve clean split text_eq has_prefix digest_of exchanged
    write_file
rolled_back = refl

rollback_undone_example : Undoes digest_of home 11 (text "/h/2") both after
rollback_undone_example =
    rollback_undone digest_of home no_faults 9 11 stored after both (exchanged 9 both) (text "/h/2")
      is_loaded runs rolled_back

abbrev attempt : Attempt
attempt = record {
  version = text "3";
  artifact = some (record { sha256 = digest_of (text "c"); size = pos 1 });
  available = some 100000000;
  body = some (text "c");
  reported = some (text "3");
  no_target_directory = false;
  no_chmod = false;
  no_rename = false;
  faults = no_faults;
  now = 9;
}

stands_apart : text_eq (target_of home attempt.version) (text "/h/2") ≡ false
unfolding target_of clean split text_eq has_prefix
stands_apart = refl

digest_fits : valid_digest (digest_of (text "c")) ≡ true
unfolding valid_digest digest_of
digest_fits = refl

size_fits : is_positive (pos 1) ≡ true
unfolding is_positive
size_fits = refl

install-Installs_example :
    Installs digest_of home attempt stored
      (text "/h/2")
      stands_apart
      (install digest_of home attempt stored)
install-Installs_example =
    install-Installs digest_of home attempt stored (text "/h/2") stands_apart
      (record { sha256 = digest_of (text "c"); size = pos 1 }) refl size_fits digest_fits

abbrev bootstrap : Bootstrap
bootstrap = record {
  executable = text "/p";
  version = text "1";
  packaged = some (text "a");
  copied = text "a";
  available = some 100000000;
  no_target_directory = false;
  no_copy = false;
  faults = no_faults;
  now = 9;
}

abbrev bare : Home
bare = record { document = record { target = none; temp = none }; files = λ p. none }

adopt-Adopts_example : Adopts digest_of home bootstrap bare (adopt digest_of home bootstrap bare)
adopt-Adopts_example = adopt-Adopts digest_of home bootstrap bare
