-- ===== src/Examples/Serving.antt =====
-- Requests to the stores of sessions, command approvals and settings.
use lctk.Prelude.{
  if◌then◌else◌, ◌≤◌, ◌≡◌, ◌≢◌, refl, ◌↔◌, true, false, none, some, List, [], ◌∷◌, Text, text,
  text_eq, text_eq_iff, trim_space, lookup, arith, pos, ◌≤ℤ◌,
}
use mathlib.Core.List.{reverse}
use lctk.Files.{Faults, no_faults, create_failed, whole, write_file}
use lctk.Policy
use lctk.Policy.{Approval, Approvals, Proposal, Resolved, name_build}
use lctk.Policy.Decision.{IsLast, Known, resolve_allowed}
use lctk.Session
use lctk.Session.{
  Store, Secrets, Request, Net, Document, Exchanged, opened, rejected, bad_code, no_session,
  write_error, csrf_of, denied, exchange, authenticate, authorize, loopback_host, session_lifetime,
  close,
}
use lctk.Session.Requests.{authorize_iff}
use lctk.Settings.{
  Watch, File, document, defaults, debounce, settle_ceiling, idle_stop, min_debounce, max_debounce,
  min_settle_ceiling, max_settle_ceiling,
}
use lctk.Settings.Bounds.{timers_bounds}

differ : (s t : Text) → text_eq s t ≡ false → s ≢ t
differ s t h e = ground (arith, h, text_eq_iff s t, e)

-- A hash, and a package net that knows one address.
abbrev backwards : Text → Text
backwards t = reverse t

abbrev net : Net
net = record {
  split_host_port = λ host. none;
  is_loopback_ip = λ host. text_eq host (text "127.0.0.1");
}

abbrev store : Store
store = record {
  code = text "c0";
  sessions = [];
  disk = record { target = some (whole (record { code = text "c0"; issued_at = 1 })); temp = none };
}

abbrev first : Secrets
first = record { next_code = text "c1"; token = text "t1"; csrf = text "x1" }

abbrev later_one : Secrets
later_one = record { next_code = text "c2"; token = text "t2"; csrf = text "x2" }

abbrev in_session : Store
in_session = (exchange no_faults first 10 (text "c0") store).0

abbrev asked : Request
asked = record { host = text "127.0.0.1"; cookie = some (text "t1"); csrf_header = text "x1" }

next_code : text "c1" ≢ text "c0"
unfolding text_eq
next_code = differ (text "c1") (text "c0") refl

accepted : (exchange no_faults first 10 (text "c0") store).1 ≡ opened (text "t1") (text "x1")
unfolding exchange text_eq write_file
accepted = refl

abbrev full_disk : Faults
full_disk = record no_faults { create = true }

unwritten : (exchange full_disk first 10 (text "c0") store).1 ≡ rejected (write_error create_failed)
unfolding exchange text_eq write_file
unwritten = refl

authorize_iff_example : ((authorize net 11 asked in_session).1 ≡ none) ↔ (
    (loopback_host net (text "127.0.0.1") ≡ true)
    × (token : Text) × (some (text "t1") ≡ some token)
    × (token ≢ [])
    × (found : Session.Session) × (lookup token in_session.sessions ≡ some found)
    × (11 ≤ found.expires)
    × (text "x1" ≡ found.csrf))
authorize_iff_example = authorize_iff net 11 asked in_session

abbrev make : List Proposal
make = record { name = name_build; command = text " make " } ∷ []

abbrev known : Approvals
known = record {
  image = text "golang";
  network = [];
  approvals = record { name = name_build; digest = text "ekam"; approved_at = 3 } ∷ [];
}

abbrev run_make : Resolved
run_make = record {
  name = name_build;
  command = text "make";
  image = text "golang";
  network = text "none";
}

resolve_allowed_example :
    (Policy.resolve backwards name_build make known ≡ Policy.allowed run_make) ↔ (
      Known name_build
      × (p : Proposal) × IsLast (λ q. q.name) name_build make p
      × (trim_space p.command ≢ [])
      × (a : Approval) × IsLast (λ b. b.name) name_build known.approvals a
      × (a.digest ≡ backwards (trim_space (trim_space p.command)))
      × (trim_space (text "golang") ≢ [])
      × (run_make ≡ record {
        name = name_build;
        command = trim_space p.command;
        image = trim_space (text "golang");
        network = if text_eq known.network (text "full") then text "full" else text "none";
      }))
resolve_allowed_example = resolve_allowed backwards name_build make known run_make

abbrev changed_approvals : Approvals
changed_approvals = (Policy.approve backwards name_build (text "make") 9 known).0

approved : (Policy.approve backwards name_build (text "make") 9 known).1 ≡ none
unfolding Policy.approve Policy.is_name text_eq trim_space
approved = refl

proposed : Policy.last_command name_build [] make ≢ []
unfolding Policy.last_command text_eq trim_space
proposed e = cc e

abbrev watch : Watch
watch = record {
  debounce_ms = pos 9000000000000000;
  max_debounce_ms = pos 30000;
  max_watched_directories = pos 0;
  idle_stop_seconds = pos 0;
}

timers_bounds_example :
    ((min_debounce ≤ℤ debounce watch) × (debounce watch ≤ℤ max_debounce))
    × ((min_settle_ceiling ≤ℤ settle_ceiling watch)
        × (settle_ceiling watch ≤ℤ max_settle_ceiling)
        × (debounce watch ≤ℤ settle_ceiling watch))
    × ((pos 30000000000 ≤ℤ idle_stop watch) × (idle_stop watch ≤ℤ pos 86400000000000))
timers_bounds_example = timers_bounds watch

abbrev file : File
file = document (record defaults { watch = watch })
