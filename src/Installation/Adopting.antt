-- ===== src/Installation/Adopting.antt =====
-- Adopt of internal/installation/activation.go: the packaged host core becomes the first active one.
use lctk.Prelude.{
  ℕ, ◌≡◌, refl, ◌∙◌, ◌⊎◌, inl, inr, Bool, Bool-cases, true, false, not, ◌||◌, Option, none, some,
  [], Text, text_eq, text_eq_iff, text_eq_refl, leb, pos, if◌then◌else◌, if_cases, length, arith,
}
use lctk.Files.{whole, Disk, Faults, WriteError, write_file}
use lctk.Installation.{
  Core, Activation, InstallError, not_found, undecodable, invalid_activation, incomplete_previous,
  invalid_path, no_artifact, space_unknown, not_ready, no_directory, download_failed,
  not_executable, self_test_failed, no_previous, previous_invalid, active_invalid, other_activation,
  not_written, Home, no_core, required_bytes, as_u64, load, relative_to, written, write_activation,
}
use lctk.Installation.Resolving.{put_file, installed, target_of, verify_content, verify_file}
use lctk.Installation.Resolving.Install.{
  Writes, write_file-Writes, HasContent, verify_content-HasContent, verify_content-moved,
}

-- The executable that runs, as it is read to be identified and as it is copied; the free space, and
-- what fails. A copy fails where its temporary file exists or a call on it fails.
pub record Bootstrap : Type 0 where
  pub executable : Text
  pub version : Text
  pub packaged : Option Text
  pub copied : Text
  pub available : Option ℕ
  pub no_target_directory : Bool
  pub no_copy : Bool
  pub faults : Faults
  pub now : ℕ

module _ (hash : Text → Text) (home : Text) (b : Bootstrap) where
  -- copyVerifiedFile.
  unfoldable pub copy_verified : Text → Core → (Text → Option Text) → Option (Text → Option Text)
  unfolding put_file verify_file
  copy_verified target c files =
      if verify_file hash files target c
      then some files
      else if b.no_copy
      then none
      else if verify_content hash (some b.copied) c
      then some (put_file target b.copied files)
      else none

  unfoldable pub adopt_copied :
      Core → Option (Text → Option Text) → Option Text → Home → (InstallError ⊎ Activation) × Home
  unfolding write_activation installed
  adopt_copied c none relative st = (inl download_failed, st)
  adopt_copied c (some files) none st = (inl invalid_path, record st { files = files })
  adopt_copied c (some files) (some path) st =
      write_activation b.faults (installed b.now (record c { executable = path }) no_core)
        (record st { files = files })

  -- fileIdentity of the packaged core.
  unfoldable pub identity : Text → Core
  identity content = record {
    version = b.version;
    executable = [];
    sha256 = hash content;
    size = pos (length content);
  }

  unfoldable pub adopt_packaged : Option Text → Option ℕ → Home → (InstallError ⊎ Activation) × Home
  unfolding identity copy_verified adopt_copied relative_to target_of required_bytes as_u64
  adopt_packaged none available st = (inl no_artifact, st)
  adopt_packaged (some content) none st = (inl space_unknown, st)
  adopt_packaged (some content) (some available) st =
      let c = identity content in
      let target = target_of home b.version in
      if not (leb (as_u64 (required_bytes c.size)) available)
      then (inl not_ready, st)
      else if b.no_target_directory
      then (inl no_directory, st)
      else adopt_copied c (copy_verified target c st.files) (relative_to home target) st

  unfoldable pub adopt_loaded :
      InstallError ⊎ Activation → Home → (InstallError ⊎ Activation) × Home
  unfolding adopt_packaged
  adopt_loaded (inr a) st =
      if not (text_eq a.active.version b.version) then (inl other_activation, st) else (inr a, st)
  adopt_loaded (inl not_found) st = adopt_packaged b.packaged b.available st
  adopt_loaded (inl e) st = (inl e, st)

  -- Adopt.
  unfoldable pub adopt : Home → (InstallError ⊎ Activation) × Home
  unfolding adopt_loaded load
  adopt st =
      if text_eq b.executable [] || text_eq b.version []
      then (inl no_artifact, st)
      else adopt_loaded (load home st) st

  -- An error leaves the document. A success returns the document that was there, with the version
  -- asked for and nothing changed, or makes the first one, whose core is verified at its place.
  module _ (st : Home) where
    abbrev pub Adopts : (InstallError ⊎ Activation) × Home → Type 0
    Adopts (inl e, st') = st'.document.target ≡ st.document.target
    Adopts (inr a, st') =
        ((load home st ≡ inr a) × (a.active.version ≡ b.version) × (st' ≡ st))
        ⊎ ((load home st ≡ inl not_found)
            × (st'.document.target ≡ some (whole a))
            × (a.active.version ≡ b.version)
            × (a.previous ≡ no_core)
            × (relative_to home (target_of home b.version) ≡ some a.active.executable)
            × (verify_file hash st'.files (target_of home b.version) a.active ≡ true)
            × HasContent hash (st'.files (target_of home b.version)) a.active)

    copy_verified-good :
        (target : Text) (c : Core) (files : Text → Option Text)
        → copy_verified target c st.files ≡ some files
        → verify_file hash files target c ≡ true
    unfolding copy_verified verify_file put_file
    copy_verified-good target c files h = elim (Bool-cases (verify_file hash st.files target c)) [
      | inl there ↦ let same : st.files ≡ files = ground (arith, h, there) in rw (← same) there
      | inr absent ↦ copied_good (ground (arith, h, absent))
    ]
      where
        copied_good :
            (if b.no_copy
                then none
                else if verify_content hash (some b.copied) c
                then some (put_file target b.copied st.files)
                else none)
              ≡ some files
            → verify_file hash files target c ≡ true
        copied_good e = elim (Bool-cases (verify_content hash (some b.copied) c)) [
          | inl good ↦
              let same : put_file target b.copied st.files ≡ files = ground (arith, e, good) in
              rw (← same) (ground (arith, good, text_eq_refl target))
          | inr bad ↦ absurd (ground (arith, e, bad))
        ]

    wrote-Adopts :
        (c : Core) (path : Text) (files : Text → Option Text)
        → load home st ≡ inl not_found
        → c.version ≡ b.version
        → relative_to home (target_of home b.version) ≡ some path
        → verify_file hash files (target_of home b.version) c ≡ true
        → (out : Disk Activation × Option WriteError)
        → Writes (installed b.now (record c { executable = path }) no_core) st.document out
        → Adopts (
            written
              (installed b.now (record c { executable = path }) no_core)
              (record st { files = files })
              out)
    unfolding written installed verify_file
    wrote-Adopts c path files l v below good (disk, none) w =
        let found = files (target_of home b.version) in
        let good' = verify_content-moved hash c path found ∙ good in
        inr (
          l,
          w,
          v,
          refl,
          below,
          good',
          verify_content-HasContent hash (record c { executable = path }) found good',
        )
    wrote-Adopts c path files l v below good (disk, some e) w = w

    adopt_copied-Adopts :
        (c : Core) (copied : Option (Text → Option Text)) (relative : Option Text)
        → load home st ≡ inl not_found
        → c.version ≡ b.version
        → relative_to home (target_of home b.version) ≡ relative
        → copy_verified (target_of home b.version) c st.files ≡ copied
        → Adopts (adopt_copied c copied relative st)
    unfolding adopt_copied write_activation
    adopt_copied-Adopts c none relative l v below e = refl
    adopt_copied-Adopts c (some files) none l v below e = refl
    adopt_copied-Adopts c (some files) (some path) l v below e =
        let next = installed b.now (record c { executable = path }) no_core in
        let f = record b.faults { chmod = false } in
        wrote-Adopts c path files l v below
          (copy_verified-good (target_of home b.version) c files e) (write_file f next st.document)
          (write_file-Writes f next st.document)

    adopt_packaged-Adopts :
        (packaged : Option Text) (available : Option ℕ)
        → load home st ≡ inl not_found
        → Adopts (adopt_packaged packaged available st)
    unfolding adopt_packaged identity
    adopt_packaged-Adopts none available l = refl
    adopt_packaged-Adopts (some content) none l = refl
    adopt_packaged-Adopts (some content) (some available) l =
        let c = identity content in
        let target = target_of home b.version in
        if_cases Adopts (not (leb (as_u64 (required_bytes c.size)) available)) _ _ (λ _. refl)
          λ _.
            if_cases Adopts b.no_target_directory _ _ (λ _. refl)
              λ _.
                adopt_copied-Adopts c (copy_verified target c st.files) (relative_to home target) l
                  refl refl refl

    adopt_loaded-Adopts :
        (loaded : InstallError ⊎ Activation)
        → load home st ≡ loaded
        → Adopts (adopt_loaded loaded st)
    unfolding adopt_loaded
    adopt_loaded-Adopts (inr a) l =
        if_cases Adopts (not (text_eq a.active.version b.version)) _ _ (λ _. refl)
          λ same. inl (l, (text_eq_iff a.active.version b.version).0 (ground (arith, same)), refl)
    adopt_loaded-Adopts (inl not_found) l = adopt_packaged-Adopts b.packaged b.available l
    adopt_loaded-Adopts (inl undecodable) l = refl
    adopt_loaded-Adopts (inl invalid_activation) l = refl
    adopt_loaded-Adopts (inl incomplete_previous) l = refl
    adopt_loaded-Adopts (inl invalid_path) l = refl
    adopt_loaded-Adopts (inl no_artifact) l = refl
    adopt_loaded-Adopts (inl space_unknown) l = refl
    adopt_loaded-Adopts (inl not_ready) l = refl
    adopt_loaded-Adopts (inl no_directory) l = refl
    adopt_loaded-Adopts (inl download_failed) l = refl
    adopt_loaded-Adopts (inl not_executable) l = refl
    adopt_loaded-Adopts (inl self_test_failed) l = refl
    adopt_loaded-Adopts (inl no_previous) l = refl
    adopt_loaded-Adopts (inl previous_invalid) l = refl
    adopt_loaded-Adopts (inl active_invalid) l = refl
    adopt_loaded-Adopts (inl other_activation) l = refl
    adopt_loaded-Adopts (inl (not_written e)) l = refl

    -- Whatever step of Adopt fails, an error leaves the activation document as it was. A success
    -- returns the document that was loaded, which has the version asked for, with nothing
    -- changed; or there was none, and the document is now the one that is returned, whose active
    -- core has that version, names its place by what is below the home and is verified there, the
    -- file having the length and the digest of the core, and which names no previous core.
    pub adopt-Adopts : Adopts (adopt st)
    unfolding adopt
    adopt-Adopts =
        if_cases Adopts (text_eq b.executable [] || text_eq b.version []) _ _ (λ _. refl)
          (λ _. adopt_loaded-Adopts (load home st) refl)
