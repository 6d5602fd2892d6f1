-- ===== src/Installation/Resolving/Install.antt =====
-- What Install leaves, on every path through it.
use lctk.Prelude.{
  ℤ, pos, negsuc, length, ap, text_eq_iff, ℕ, ◌≡◌, refl, sym, subst, ◌∙◌, ◌⊎◌, inl, inr, Bool-cases,
  true, false, not, Option, none, some, Text, text_eq, text_eq_refl, if_cases, take, pos_part, suc,
  arith,
}
use lctk.Files.{whole, Disk, Faults, WriteError, write_file}
use lctk.Installation.{
  Core, Activation, Artifact, InstallError, Home, is_positive, valid_digest, load, written,
  write_activation, relative_to,
}
use lctk.Installation.Resolving.{
  size_is, Attempt, core_of, put_file, current_core, installed, activate, reports, target_of,
  is_ready, verify_content, verify_file, keep_download, fetch, install_fetched, install_checked,
  install,
}

-- The path of a core plays no part in its check.
pub verify_content-moved :
    (hash : Text → Text) (c : Core) (path : Text) (content : Option Text)
    → verify_content hash content (record c { executable = path }) ≡ verify_content hash content c
unfolding verify_content
verify_content-moved hash c path none = refl
verify_content-moved hash c path (some content) = refl

-- A file that is there, of the length and with the digest that a core names.
abbrev pub HasContent : (Text → Text) → Option Text → Core → Type 0
HasContent hash found c =
    (content : Text) × (found ≡ some content)
    × (hash content ≡ c.sha256)
    × (pos (length content) ≡ c.size)

pub verify_content-HasContent :
    (hash : Text → Text) (c : Core) (found : Option Text)
    → verify_content hash found c ≡ true
    → HasContent hash found c
unfolding verify_content size_is
verify_content-HasContent hash c none h = cc
verify_content-HasContent hash c (some content) h = (
  content,
  refl,
  ground (arith, h, text_eq_iff (hash content) c.sha256),
  is_size c.size (ground (arith, h)),
)
  where
    is_size : (size : ℤ) → size_is (length content) size ≡ true → pos (length content) ≡ size
    is_size (pos n) e = ap pos (ground (arith, e))
    is_size (negsuc n) e = cc

-- A write that fails leaves the document, one that succeeds leaves it whole.
abbrev pub Writes : Activation → Disk Activation → Disk Activation × Option WriteError → Type 0
Writes a old (disk, none) = disk.target ≡ some (whole a)
Writes a old (disk, some e) = disk.target ≡ old.target

pub write_file-Writes :
    (f : Faults) (a : Activation) (disk : Disk Activation) → Writes a disk (write_file f a disk)
unfolding write_file
write_file-Writes f a disk =
    if_cases (Writes a disk) f.mkdir _ _ (λ _. refl)
      λ _.
        if_cases (Writes a disk) f.create _ _ (λ _. refl)
          λ _.
            if_cases (Writes a disk) f.write _ _ (λ _. refl)
              λ _.
                if_cases (Writes a disk) f.close _ _ (λ _. refl)
                  λ _.
                    if_cases (Writes a disk) f.chmod _ _ (λ _. refl)
                      λ _. if_cases (Writes a disk) f.rename _ _ (λ _. refl) (λ _. refl)

module _ (hash : Text → Text) (home : Text) (t : Attempt) (st : Home) (other : Text)
    (apart : text_eq (target_of home t.version) other ≡ false) where
  -- The executable that is looked at.
  abbrev candidate : Text
  candidate = target_of home t.version

  -- After an error the document is what it was. After a success it is the returned one: the release's
  -- core is active under its path below the home and verified, and the core before it is the previous
  -- one. Other files are kept.
  abbrev pub Installs : (InstallError ⊎ Activation) × Home → Type 0
  Installs (inl e, st') =
      (st'.document.target ≡ st.document.target) × (st'.files other ≡ st.files other)
  Installs (inr next, st') =
      (st'.document.target ≡ some (whole next))
      × (current_core (load home st) ≡ inr next.previous)
      × (next.active.version ≡ t.version)
      × (relative_to home candidate ≡ some next.active.executable)
      × (verify_file hash st'.files candidate next.active ≡ true)
      × HasContent hash (st'.files candidate) next.active
      × (st'.files other ≡ st.files other)

  written-Installs :
      (c : Core) (path : Text) (before : Core) (files : Text → Option Text)
      (out : Disk Activation × Option WriteError)
      → Writes (installed t.now (record c { executable = path }) before) st.document out
      → current_core (load home st) ≡ inr before
      → c.version ≡ t.version
      → relative_to home candidate ≡ some path
      → verify_file hash files candidate c ≡ true
      → files other ≡ st.files other
      → Installs (
          written
            (installed t.now (record c { executable = path }) before)
            (record st { files = files })
            out)
  unfolding written installed verify_file
  written-Installs c path before files (disk, none) w cur version below good kept =
      let good' = verify_content-moved hash c path (files candidate) ∙ good in
      (
        w,
        cur,
        version,
        below,
        good',
        verify_content-HasContent hash (record c { executable = path }) (files candidate) good',
        kept,
      )
  written-Installs c path before files (disk, some e) w cur version below good kept = (w, kept)

  write_activation-Installs :
      (c : Core) (path : Text) (before : Core) (files : Text → Option Text)
      → current_core (load home st) ≡ inr before
      → c.version ≡ t.version
      → relative_to home candidate ≡ some path
      → verify_file hash files candidate c ≡ true
      → files other ≡ st.files other
      → Installs (
          write_activation t.faults
            (installed t.now (record c { executable = path }) before)
            (record st { files = files }))
  unfolding write_activation
  write_activation-Installs c path before files =
      let next = installed t.now (record c { executable = path }) before in
      let f = record t.faults { chmod = false } in
      written-Installs c path before files (write_file f next st.document)
        (write_file-Writes f next st.document)

  activate-Installs :
      (c : Core) (relative : Option Text) (before : InstallError ⊎ Core)
      (files : Text → Option Text)
      → current_core (load home st) ≡ before
      → c.version ≡ t.version
      → relative_to home candidate ≡ relative
      → verify_file hash files candidate c ≡ true
      → files other ≡ st.files other
      → Installs (activate c relative before t (record st { files = files }))
  unfolding activate
  activate-Installs c relative (inl e) files cur version below good kept = (refl, kept)
  activate-Installs c none (inr before) files cur version below good kept = (refl, kept)
  activate-Installs c (some path) (inr before) files cur version below good kept =
      write_activation-Installs c path before files cur version below good kept

  keep_download-good :
      (c : Core) (body : Option Text) (files' : Text → Option Text)
      → is_positive c.size ≡ true
      → valid_digest c.sha256 ≡ true
      → keep_download hash candidate c t.no_rename body st.files ≡ some files'
      → (verify_file hash files' candidate c ≡ true) × (files' other ≡ st.files other)
  unfolding keep_download put_file verify_file verify_content
  keep_download-good c none files' positive valid h = absurd (cc)
  keep_download-good c (some body) files' positive valid h =
      let read = take (suc (pos_part c.size)) body in
      ground (arith, positive, valid, text_eq_refl candidate, apart)

  fetch-good :
      (c : Core) (files' : Text → Option Text)
      → is_positive c.size ≡ true
      → valid_digest c.sha256 ≡ true
      → fetch hash candidate c t st.files ≡ some files'
      → (verify_file hash files' candidate c ≡ true) × (files' other ≡ st.files other)
  unfolding fetch
  fetch-good c files' positive valid h = elim (Bool-cases (verify_file hash st.files candidate c)) [
    | inl there ↦
        let same : st.files ≡ files' = ground (arith, h, there) in
        (rw (← same) there, rw (← same) refl)
    | inr absent ↦ keep_download-good c t.body files' positive valid (ground (arith, h, absent))
  ]

  install_fetched-Installs :
      (c : Core) (fetched : Option (Text → Option Text))
      → is_positive c.size ≡ true
      → valid_digest c.sha256 ≡ true
      → c.version ≡ t.version
      → fetch hash candidate c t st.files ≡ fetched
      → Installs (install_fetched home candidate c t fetched st)
  unfolding install_fetched load
  install_fetched-Installs c none positive valid version e = (refl, refl)
  install_fetched-Installs c (some files) positive valid version e =
      let (good, kept) = fetch-good c files positive valid e in
      if_cases Installs t.no_chmod _ _ (λ _. (refl, kept))
        λ _.
          if_cases Installs (not (reports t.version t.reported)) _ _ (λ _. (refl, kept))
            λ _.
              activate-Installs c (relative_to home candidate) (current_core (load home st)) files
                refl version refl good kept

  install_checked-Installs :
      (artifact : Artifact) (current : InstallError ⊎ Core) (available : Option ℕ)
      → is_positive artifact.size ≡ true
      → valid_digest artifact.sha256 ≡ true
      → Installs (install_checked hash home t (some artifact) current available st)
  unfolding install_checked core_of
  install_checked-Installs artifact (inl e) available positive valid = (refl, refl)
  install_checked-Installs artifact (inr before) none positive valid = (refl, refl)
  install_checked-Installs artifact (inr before) (some available) positive valid =
      let c = core_of t.version artifact in
      if_cases Installs (not (is_ready (verify_file hash st.files candidate c) c available)) _ _
        (λ _. (refl, refl))
        λ _.
          if_cases Installs t.no_target_directory _ _ (λ _. (refl, refl))
            λ _.
              install_fetched-Installs c (fetch hash candidate c t st.files) positive valid refl
                refl

  -- Let the release offer a host core of positive size whose digest has the form of one, and look
  -- at another path than the one it is installed at. Whatever step of Install fails, an error
  -- leaves the activation document as it was; a success leaves the document that is returned,
  -- whose active core has the release's version, names that path by what is below the home and is
  -- verified there, the file having the length and the digest of the core, and whose previous
  -- core is the one that was active before, or none if there was no document. On both the file at
  -- the other path is kept.
  pub install-Installs :
      (artifact : Artifact)
      → t.artifact ≡ some artifact
      → is_positive artifact.size ≡ true
      → valid_digest artifact.sha256 ≡ true
      → Installs (install hash home t st)
  unfolding install
  install-Installs artifact offered positive valid =
      subst
        (λ o. Installs (install_checked hash home t o (current_core (load home st)) t.available st))
        (sym offered) (install_checked-Installs artifact _ t.available positive valid)
