-- ===== src/Installation.antt =====
-- internal/installation/activation.go: which host core is active, and the one before it. The
-- installation home holds the activation document and the executables by their paths; paths are those
-- of a Unix host, and the home is an absolute path other than the root.
pub mod Resolving
pub mod Adopting
use lctk.Prelude.{
  ℕ, suc, ◌+◌, ◌-◌, ◌*◌, ◌%◌, ◌^◌, Bool, true, false, not, ◌&&◌, ◌||◌, ◌⊎◌, inl, inr, Option, none,
  some, List, [], ◌∷◌, ◌++◌, Text, text, text_eq, has_prefix, ltb, leb, ◌==◌, ℤ, pos, negsuc,
  if◌then◌else◌, length, take, drop,
}
use lctk.Files.{Content, blank, torn, whole, Disk, Faults, WriteError, write_file}
use lctk.Inventory.Scope.{clean}

abbrev pub schema_version : ℕ
schema_version = 1

abbrev pub disk_margin : ℕ
disk_margin = 67108864

abbrev pub core_name : Text
core_name = text "lctk-core"

-- An executable's version, its path below the home, its digest and its size.
pub record Core : Type 0 where
  pub version : Text
  pub executable : Text
  pub sha256 : Text
  pub size : ℤ

pub record Activation : Type 0 where
  pub schema_version : ℕ
  pub active : Core
  pub previous : Core
  pub activated_at : ℕ

pub record Artifact : Type 0 where
  pub sha256 : Text
  pub size : ℤ

pub data InstallError : Type 0 where
  not_found undecodable invalid_activation incomplete_previous invalid_path : InstallError
  no_artifact space_unknown not_ready no_directory download_failed not_executable : InstallError
  self_test_failed no_previous previous_invalid active_invalid other_activation : InstallError
  not_written : WriteError → InstallError

-- The document with its temporary file, and the executables.
pub record Home : Type 0 where
  pub document : Disk Activation
  pub files : Text → Option Text

abbrev pub no_core : Core
no_core = record { version = []; executable = []; sha256 = []; size = pos 0 }

-- Wrap-around of an int64, and the uint64 of the same bits.
unfoldable pub wrap_i64 : ℕ → ℤ
wrap_i64 n = let r = n % 2 ^ 64 in if ltb r (2 ^ 63) then pos r else negsuc (2 ^ 64 - r - 1)

unfoldable pub as_u64 : ℤ → ℕ
as_u64 (pos n) = n
as_u64 (negsuc n) = 2 ^ 64 - n - 1

-- RequiredBytes.
unfoldable pub required_bytes : ℤ → ℤ
unfolding wrap_i64
required_bytes (negsuc n) = pos 0
required_bytes (pos n) = wrap_i64 (n * 2 + disk_margin)

-- validDigest: 64 hexadecimal digits in lower case.
unfoldable pub hex_digit : ℕ → Bool
hex_digit c = (leb b'0' c && leb c b'9') || (leb b'a' c && leb c b'f')

unfoldable pub hex_digits : Text → Bool
unfolding hex_digit
hex_digits [] = true
hex_digits (c ∷ s) = hex_digit c && hex_digits s

unfoldable pub valid_digest : Text → Bool
unfolding hex_digits
valid_digest digest = length digest == 64 && hex_digits digest

unfoldable pub is_positive : ℤ → Bool
is_positive (pos n) = ltb 0 n
is_positive (negsuc n) = false

-- filepath.Join of the home with a path below it.
unfoldable pub below_home : Text → Text → Text
unfolding clean
below_home home path = clean (home ++ (b'/' ∷ path))

-- Resolve.
unfoldable pub resolve : Text → Text → Option Text
unfolding below_home
resolve home relative =
    if text_eq home [] || text_eq relative [] || has_prefix (text "/") relative
    then none
    else let cleaned = clean relative in
      if text_eq cleaned (text "..") || has_prefix (text "../") cleaned
      then none
      else some (below_home home cleaned)

-- filepath.Rel of a clean path, none where it leaves the home or begins with two dots.
unfoldable pub relative_to : Text → Text → Option Text
unfolding clean
relative_to home path =
    let base = clean home in
    let rest = drop (suc (length base)) path in
    if not (has_prefix (base ++ text "/") path) || has_prefix (text "..") rest
    then none
    else some rest

-- Whether Load takes a core as the active one.
unfoldable pub is_core : Core → Bool
unfolding is_positive valid_digest
is_core c = not (text_eq c.version []) && is_positive c.size && valid_digest c.sha256

unfoldable pub is_zero_size : ℤ → Bool
is_zero_size (pos n) = n == 0
is_zero_size (negsuc n) = false

-- Whether any of the fields of the previous core is set.
unfoldable pub has_previous : Core → Bool
unfolding is_zero_size
has_previous c =
    not (text_eq c.version [])
    || not (text_eq c.executable [])
    || not (text_eq c.sha256 [])
    || not (is_zero_size c.size)

unfoldable pub present : Option Text → Bool
present none = false
present (some path) = true

-- The checks of Load on a decoded document.
unfoldable pub check_activation : Text → Activation → InstallError ⊎ Activation
unfolding is_core resolve has_previous present
check_activation home a =
    if not (a.schema_version == schema_version && is_core a.active)
    then inl invalid_activation
    else if not (present (resolve home a.active.executable))
    then inl invalid_path
    else if has_previous a.previous
        && not (is_core a.previous && not (text_eq a.previous.executable []))
    then inl incomplete_previous
    else if not (text_eq a.previous.executable [])
        && not (present (resolve home a.previous.executable))
    then inl invalid_path
    else inr a

unfoldable pub load_content : Text → Option (Content Activation) → InstallError ⊎ Activation
unfolding check_activation
load_content home none = inl not_found
load_content home (some blank) = inl undecodable
load_content home (some (torn a)) = inl undecodable
load_content home (some (whole a)) = check_activation home a

-- Load.
unfoldable pub load : Text → Home → InstallError ⊎ Activation
unfolding load_content
load home st = load_content home st.document.target

unfoldable pub written :
    Activation → Home → Disk Activation × Option WriteError → (InstallError ⊎ Activation) × Home
written a st (disk, none) = (inr a, record st { document = disk })
written a st (disk, some e) = (inl (not_written e), record st { document = disk })

-- writeActivation, which changes no mode.
unfoldable pub write_activation : Faults → Activation → Home → (InstallError ⊎ Activation) × Home
unfolding written
write_activation f a st = written a st (write_file (record f { chmod = false }) a st.document)
