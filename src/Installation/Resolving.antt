-- ===== src/Installation/Resolving.antt =====
-- Manager of internal/installation/activation.go: the active executable, Install and Rollback. What
-- the release offers, the answers of the download and of the candidate's self-test, and the system
-- calls that fail are arguments.
pub mod Rollback
pub mod Install
use lctk.Prelude.{
  ℕ, suc, Bool, true, false, not, ◌&&◌, ◌||◌, ◌⊎◌, inl, inr, Option, none, some, List, [], ◌∷◌,
  ◌++◌, Text, text, text_eq, ltb, leb, ◌==◌, ℤ, pos, negsuc, pos_part, if◌then◌else◌, length, take,
}
use lctk.Files.{Faults}
use lctk.Installation.{
  Core, Activation, Artifact, InstallError, not_found, undecodable, invalid_activation,
  incomplete_previous, invalid_path, no_artifact, space_unknown, not_ready, no_directory,
  download_failed, not_executable, self_test_failed, no_previous, previous_invalid, active_invalid,
  other_activation, not_written, Home, no_core, schema_version, core_name, required_bytes, as_u64,
  is_positive, valid_digest, below_home, resolve, relative_to, load, write_activation,
}

unfoldable pub size_is : ℕ → ℤ → Bool
size_is n (pos m) = n == m
size_is n (negsuc m) = false

-- The document that Rollback writes.
unfoldable pub exchanged : ℕ → Activation → Activation
exchanged now a = record {
  schema_version = schema_version;
  active = a.previous;
  previous = a.active;
  activated_at = now;
}

unfoldable pub rollback_verified :
    Faults → ℕ → InstallError ⊎ Activation → Home → (InstallError ⊎ Activation) × Home
unfolding exchanged write_activation
rollback_verified f now (inl e) st = (inl e, st)
rollback_verified f now (inr a) st = write_activation f (exchanged now a) st

-- What one Install meets: the release's version and artifact, the free space, the body of the
-- download, the version of a self-test of this platform, and the calls that fail.
pub record Attempt : Type 0 where
  pub version : Text
  pub artifact : Option Artifact
  pub available : Option ℕ
  pub body : Option Text
  pub reported : Option Text
  pub no_target_directory : Bool
  pub no_chmod : Bool
  pub no_rename : Bool
  pub faults : Faults
  pub now : ℕ

unfoldable pub core_of : Text → Artifact → Core
core_of version a = record { version = version; executable = []; sha256 = a.sha256; size = a.size }

unfoldable pub put_file : Text → Text → (Text → Option Text) → Text → Option Text
put_file path content files p = if text_eq path p then some content else files p

-- The activation before, or none where there is none.
unfoldable pub current_core : InstallError ⊎ Activation → InstallError ⊎ Core
current_core (inr a) = inr a.active
current_core (inl not_found) = inr no_core
current_core (inl e) = inl e

unfoldable pub installed : ℕ → Core → Core → Activation
installed now c before = record {
  schema_version = schema_version;
  active = c;
  previous = before;
  activated_at = now;
}

unfoldable pub activate :
    Core → Option Text → InstallError ⊎ Core → Attempt → Home → (InstallError ⊎ Activation) × Home
unfolding installed write_activation
activate c relative (inl e) t st = (inl e, st)
activate c none (inr before) t st = (inl invalid_path, st)
activate c (some path) (inr before) t st =
    write_activation t.faults (installed t.now (record c { executable = path }) before) st

unfoldable pub reports : Text → Option Text → Bool
reports version none = false
reports version (some v) = text_eq v version

unfoldable pub target_of : Text → Text → Text
unfolding below_home
target_of home version = below_home home (text "versions/" ++ version ++ text "/" ++ core_name)

-- Whether the space is enough: the download counts only where the target is not there yet.
unfoldable pub is_ready : Bool → Core → ℕ → Bool
unfolding required_bytes as_u64
is_ready there c available =
    leb (as_u64 (required_bytes (if there then pos 0 else c.size))) available

unfoldable pub install_fetched :
    Text
    → Text
    → Core
    → Attempt
    → Option (Text → Option Text)
    → Home
    → (InstallError ⊎ Activation) × Home
unfolding reports activate current_core relative_to
install_fetched home target c t none st = (inl download_failed, st)
install_fetched home target c t (some files) st =
    let st' = record st { files = files } in
    if t.no_chmod
    then (inl not_executable, st')
    else if not (reports t.version t.reported)
    then (inl self_test_failed, st')
    else activate c (relative_to home target) (current_core (load home st')) t st'

module _ (hash : Text → Text) where
  -- verifyFile.
  unfoldable pub verify_content : Option Text → Core → Bool
  unfolding valid_digest is_positive size_is
  verify_content none c = false
  verify_content (some content) c =
      is_positive c.size
      && valid_digest c.sha256
      && size_is (length content) c.size
      && text_eq (hash content) c.sha256

  unfoldable pub verify_file : (Text → Option Text) → Text → Core → Bool
  unfolding verify_content
  verify_file files path c = verify_content (files path) c

  unfoldable pub active_at : Home → Option Text → Activation → InstallError ⊎ (Text × Activation)
  unfolding verify_file
  active_at st none a = inl invalid_path
  active_at st (some path) a =
      if verify_file st.files path a.active then inr (path, a) else inl active_invalid

  unfoldable pub active_loaded :
      Text → Home → InstallError ⊎ Activation → InstallError ⊎ (Text × Activation)
  unfolding active_at resolve
  active_loaded home st (inl e) = inl e
  active_loaded home st (inr a) = active_at st (resolve home a.active.executable) a

  -- ActiveExecutable.
  unfoldable pub active_executable : Text → Home → InstallError ⊎ (Text × Activation)
  unfolding active_loaded
  active_executable home st = active_loaded home st (load home st)

  unfoldable pub previous_at : Home → Option Text → Activation → InstallError ⊎ Activation
  unfolding verify_file
  previous_at st none a = inl invalid_path
  previous_at st (some path) a =
      if verify_file st.files path a.previous then inr a else inl previous_invalid

  unfoldable pub verify_loaded : Text → Home → InstallError ⊎ Activation → InstallError ⊎ Activation
  unfolding previous_at resolve
  verify_loaded home st (inl e) = inl e
  verify_loaded home st (inr a) =
      if text_eq a.previous.executable []
      then inl no_previous
      else previous_at st (resolve home a.previous.executable) a

  -- VerifyRollback.
  unfoldable pub verify_rollback : Text → Home → InstallError ⊎ Activation
  unfolding verify_loaded
  verify_rollback home st = verify_loaded home st (load home st)

  -- Rollback.
  unfoldable pub rollback : Text → Faults → ℕ → Home → (InstallError ⊎ Activation) × Home
  unfolding rollback_verified
  rollback home f now st = rollback_verified f now (verify_rollback home st) st

  -- download: the answer's body is read up to one byte more than the artifact has.
  unfoldable pub keep_download :
      Text → Core → Bool → Option Text → (Text → Option Text) → Option (Text → Option Text)
  unfolding put_file size_is
  keep_download target c failed none files = none
  keep_download target c failed (some body) files =
      let read = take (suc (pos_part c.size)) body in
      if size_is (length read) c.size && text_eq (hash read) c.sha256 && not failed
      then some (put_file target read files)
      else none

  unfoldable pub fetch : Text → Core → Attempt → (Text → Option Text) → Option (Text → Option Text)
  unfolding verify_file keep_download
  fetch target c t files =
      if verify_file files target c then some files else elim (files (target ++ text ".download")) [
        | some unfinished ↦ none
        | none ↦ keep_download target c t.no_rename t.body files
      ]

  unfoldable pub install_checked :
      Text
      → Attempt
      → Option Artifact
      → InstallError ⊎ Core
      → Option ℕ
      → Home
      → (InstallError ⊎ Activation) × Home
  unfolding core_of target_of is_ready fetch install_fetched verify_file
  install_checked home t none current available st = (inl no_artifact, st)
  install_checked home t (some artifact) (inl e) available st = (inl e, st)
  install_checked home t (some artifact) (inr before) none st = (inl space_unknown, st)
  install_checked home t (some artifact) (inr before) (some available) st =
      let target = target_of home t.version in
      let c = core_of t.version artifact in
      if not (is_ready (verify_file st.files target c) c available)
      then (inl not_ready, st)
      else if t.no_target_directory
      then (inl no_directory, st)
      else install_fetched home target c t (fetch target c t st.files) st

  -- Install, with Inspect.
  unfoldable pub install : Text → Attempt → Home → (InstallError ⊎ Activation) × Home
  unfolding install_checked current_core
  install home t st = install_checked home t t.artifact (current_core (load home st)) t.available st
