-- ===== src/Examples/Registering.antt =====
-- A registry with one project.
use lctk.Prelude.{
  ◌≡◌, ◌≢◌, refl, ◌⊎◌, ◌↔◌, true, false, none, some, [], ◌∷◌, ◌++◌, Text, text, text_eq, All,
  if◌then◌else◌,
}
use lctk.Files.{Disk, no_faults, whole}
use lctk.Policy.{Approvals}
use lctk.Registry.{
  Registry, Project, Canonical, Host, Document, found, is_profile, with_id, list, new_project, add,
  remove, set_commands, set_resource_mode, stored, loaded, load, save,
}
use lctk.Registry.Validity.{IsValid, operations-IsValid}
use lctk.Registry.Storing.{document, load-save}
use lctk.Registry.Finding.{AreApart, add-Apart}

abbrev host : Host
host = record {
  stat = λ path. if text_eq path (text "/a") then some 1 else none;
  canonical = λ reference. none;
  derive_id = λ c. c.key;
  equal_fold = text_eq;
}

abbrev nothing_approved : Approvals
nothing_approved = record { image = []; network = []; approvals = [] }

abbrev one : Project
one = record {
  id = text "a-1";
  name = text "a";
  path = text "/a";
  key = text "/a";
  case_insensitive = false;
  profile = text "minimal";
  registered_at = 0;
  manifest_present = false;
  commands = nothing_approved;
  resource_mode = [];
}

abbrev folder : Canonical
folder = record { display = text "/b"; key = text "/b"; base = text "b"; case_insensitive = false }

abbrev only : Registry
only = one ∷ []

minimal_is_known : is_profile (text "minimal") ≡ true
unfolding is_profile text_eq
minimal_is_known = refl

only-IsValid : IsValid only
only-IsValid = ((((λ e. cc e), (λ e. cc e), (λ e. cc e), minimal_is_known), tt), (tt, tt))

operations-IsValid_example :
    IsValid (add host folder (text "minimal") true 7 only).0
    × IsValid (remove host (text "a") only).0
    × IsValid (set_commands (text "a-1") nothing_approved only).0
    × IsValid (set_resource_mode (text "a-1") (text "quiet") only).0
operations-IsValid_example =
    operations-IsValid host folder (text "minimal") true 7 (text "a") (text "a-1") (text "quiet")
      nothing_approved only ((λ e. cc e), (λ e. cc e), (λ e. cc e)) only-IsValid

abbrev no_document : Disk Document
no_document = record { target = none; temp = none }

load-save_example :
    (((save no_faults only no_document).1 ≡ none)
      × ((save no_faults only no_document).0.target ≡ some (whole (document (list only))))
      × (load (stored (document (list only))) ≡ loaded (list only))
      × ((id : Text) → with_id id (list only) ≡ with_id id only))
    ⊎ (((save no_faults only no_document).1 ≢ none)
        × ((save no_faults only no_document).0.target ≡ none))
load-save_example = load-save no_faults only no_document only-IsValid

add-Apart_example :
    (add host folder (text "minimal") true 7 only ≡ (
      only ++ new_project host folder (text "minimal") true 7 ∷ [],
      found (new_project host folder (text "minimal") true 7),
    ))
    ↔ (All (λ q. AreApart (host.stat (text "/b")) (host.stat q.path) q.key (text "/b")) only
        × (with_id (text "/b") only ≡ none))
add-Apart_example = add-Apart host folder (text "minimal") true 7 only minimal_is_known
