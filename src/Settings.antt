-- ===== src/Settings.antt =====
-- internal/hostsettings/settings.go: the host's settings, their defaults and their bounds. Durations
-- are int64 nanoseconds, so a product that is too large wraps round as it does in Go.
pub mod Bounds
use lctk.Prelude.{
  ℕ, ◌+◌, ◌*◌, ◌/◌, Bool, true, false, ◌&&◌, ◌||◌, not, Text, text, text_eq, ℤ, pos, negsuc, ltb_ℤ,
  is_zero, mul_i64, if◌then◌else◌, ltb, pos_part, Option, none, some, [],
}

abbrev pub schema_version : ℕ
schema_version = 1

abbrev pub millisecond : ℕ
millisecond = 1000000

abbrev pub second : ℕ
second = 1000000000

abbrev pub min_debounce : ℤ
min_debounce = pos 200000000

abbrev pub max_debounce : ℤ
max_debounce = pos 60000000000

abbrev pub min_settle_ceiling : ℤ
min_settle_ceiling = pos 1000000000

abbrev pub max_settle_ceiling : ℤ
max_settle_ceiling = pos 600000000000

pub record Watch : Type 0 where
  pub debounce_ms : ℤ
  pub max_debounce_ms : ℤ
  pub max_watched_directories : ℤ
  pub idle_stop_seconds : ℤ

abbrev pub mode_quiet : Text
mode_quiet = text "quiet"

abbrev pub mode_normal : Text
mode_normal = text "normal"

abbrev pub mode_fast : Text
mode_fast = text "fast"

unfoldable pub is_mode : Text → Bool
is_mode m = text_eq m [] || text_eq m mode_quiet || text_eq m mode_normal || text_eq m mode_fast

pub record Resources : Type 0 where
  pub mode : Text
  pub memory_limit_mb : ℤ

-- CPUs is a float64 that is only ever 0, 1 or 2.
pub record Budget : Type 0 where
  pub cpus : ℕ
  pub index_parallelism : ℕ
  pub memory_limit_mb : ℤ

unfoldable pub budget : Resources → Budget
budget r =
    if text_eq r.mode mode_quiet
    then record { cpus = 1; index_parallelism = 1; memory_limit_mb = r.memory_limit_mb }
    else if text_eq r.mode mode_fast
    then record { cpus = 0; index_parallelism = 0; memory_limit_mb = r.memory_limit_mb }
    else record { cpus = 2; index_parallelism = 2; memory_limit_mb = r.memory_limit_mb }

pub record Settings : Type 0 where
  pub version : ℤ
  pub watch : Watch
  pub resources : Resources

abbrev pub defaults : Settings
defaults = record {
  version = pos schema_version;
  watch = record {
    debounce_ms = pos 3000;
    max_debounce_ms = pos 30000;
    max_watched_directories = pos 20000;
    idle_stop_seconds = pos 900;
  };
  resources = record { mode = mode_normal; memory_limit_mb = pos 0 };
}

-- The settings file: not there, not readable, not JSON, or a document.
pub data File : Type 0 where
  absent : File
  unreadable : File
  not_json : File
  document : Settings → File

pub data SettingsError : Type 0 where
  read_failed invalid_json version_too_new unknown_mode negative_memory : SettingsError

-- A field that is not 0 replaces the default.
abbrev or_default : ℤ → ℤ → ℤ
or_default value default = if is_zero value then default else value

merge_watch : Watch → Watch
merge_watch w = record {
  debounce_ms = or_default w.debounce_ms (pos 3000);
  max_debounce_ms = or_default w.max_debounce_ms (pos 30000);
  max_watched_directories = or_default w.max_watched_directories (pos 20000);
  idle_stop_seconds = or_default w.idle_stop_seconds (pos 900);
}

-- LoadFrom: with an error it returns the defaults.
unfoldable pub load_from : File → Settings × Option SettingsError
unfolding merge_watch
load_from absent = (defaults, none)
load_from unreadable = (defaults, some read_failed)
load_from not_json = (defaults, some invalid_json)
load_from (document d) =
    if ltb_ℤ (pos schema_version) d.version
    then (defaults, some version_too_new)
    else if not (text_eq d.resources.mode []) && not (is_mode d.resources.mode)
    then (defaults, some unknown_mode)
    else if ltb_ℤ d.resources.memory_limit_mb (pos 0)
    then (defaults, some negative_memory)
    else (
      record {
        version = pos schema_version;
        watch = merge_watch d.watch;
        resources = record {
          mode = if text_eq d.resources.mode [] then mode_normal else d.resources.mode;
          memory_limit_mb = d.resources.memory_limit_mb;
        };
      },
      none,
    )

unfoldable pub with_project_mode : Resources → Text → Resources
unfolding is_mode
with_project_mode r m = if text_eq m [] || not (is_mode m) then r else record r { mode = m }

unfoldable pub clamp : ℤ → ℤ → ℤ → ℤ
clamp value low high = if ltb_ℤ value low then low else if ltb_ℤ high value then high else value

unfoldable pub debounce : Watch → ℤ
debounce w = clamp (mul_i64 w.debounce_ms millisecond) min_debounce max_debounce

unfoldable pub settle_ceiling : Watch → ℤ
settle_ceiling w =
    let ceiling =
      clamp (mul_i64 w.max_debounce_ms millisecond) min_settle_ceiling max_settle_ceiling in
    if ltb_ℤ ceiling (debounce w) then debounce w else ceiling

unfoldable pub idle_stop : Watch → ℤ
idle_stop w = clamp (mul_i64 w.idle_stop_seconds second) (pos 30000000000) (pos 86400000000000)

-- The clamped duration is positive, so its milliseconds are a plain quotient.
unfoldable pub with_project_debounce : Watch → ℤ → Watch
with_project_debounce w milliseconds =
    if ltb_ℤ (pos 0) milliseconds
    then record w {
      debounce_ms = pos (
          pos_part (clamp (mul_i64 milliseconds millisecond) min_debounce max_debounce)
          / millisecond);
    }
    else w
