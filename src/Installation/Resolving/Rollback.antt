-- ===== src/Installation/Resolving/Rollback.antt =====
-- What Rollback leaves, and what a second one undoes.
use lctk.Prelude.{
  ℕ, ◌≡◌, refl, sym, ap, subst, ◌∙◌, ◌⊎◌, inl, inr, Bool-cases, true, false, Option, none, some, [],
  Text, text_eq, arith,
}
use lctk.Files.{Content, blank, torn, whole, Faults, no_faults, write_file}
use lctk.Installation.{
  Activation, InstallError, Home, is_core, has_previous, resolve, check_activation, load_content,
  load, write_activation,
}
use lctk.Installation.Resolving.{
  verify_file, active_at, active_loaded, active_executable, previous_at, verify_loaded,
  verify_rollback, exchanged, rollback_verified, rollback,
}

check_activation-same : (home : Text) (a b : Activation) → check_activation home a ≡ inr b → a ≡ b
unfolding check_activation
check_activation-same home a b h = ground arith

load_content-inv :
    (home : Text) (c : Option (Content Activation)) (a : Activation)
    → load_content home c ≡ inr a
    → (c ≡ some (whole a)) × (check_activation home a ≡ inr a)
unfolding load_content
load_content-inv home none a h = absurd (cc)
load_content-inv home (some blank) a h = absurd (cc)
load_content-inv home (some (torn b)) a h = absurd (cc)
load_content-inv home (some (whole b)) a h =
    let e = check_activation-same home b a h in (ap (λ x. some (whole x)) e, rw e at h)

-- Two cores that are both set may change places.
check_activation-exchanged :
    (home : Text) (now : ℕ) (a : Activation)
    → check_activation home a ≡ inr a
    → text_eq a.previous.executable [] ≡ false
    → check_activation home (exchanged now a) ≡ inr (exchanged now a)
unfolding check_activation exchanged is_core has_previous resolve
check_activation-exchanged home now a h set = ground (arith, h, set)

-- A write that succeeds leaves the document whole, and touches nothing else.
write_activation-ok :
    (f : Faults) (a b : Activation) (st st' : Home)
    → write_activation f a st ≡ (inr b, st')
    → (b ≡ a) × (st'.document.target ≡ some (whole a)) × (st'.files ≡ st.files)
unfolding write_activation write_file
write_activation-ok f a b st st' h = ground arith

module _ (hash : Text → Text) (home : Text) where
  previous_at-same :
      (st : Home) (path : Option Text) (a b : Activation)
      → previous_at hash st path a ≡ inr b
      → (p : Text) × (path ≡ some p) × (verify_file hash st.files p a.previous ≡ true) × (a ≡ b)
  unfolding previous_at
  previous_at-same st none a b h = absurd (cc)
  previous_at-same st (some p) a b h =
      let (good, same) : (verify_file hash st.files p a.previous ≡ true) × (a ≡ b) = ground arith in
      (p, refl, good, same)

  active_at-same :
      (st : Home) (path : Option Text) (a b : Activation) (p : Text)
      → active_at hash st path a ≡ inr (p, b)
      → (path ≡ some p) × (verify_file hash st.files p a.active ≡ true) × (a ≡ b)
  unfolding active_at
  active_at-same st none a b p h = absurd (cc)
  active_at-same st (some q) a b p h = ground arith

  -- What a verified rollback rests on.
  abbrev IsVerified : Home → Activation → Type 0
  IsVerified st a =
      (load home st ≡ inr a)
      × (text_eq a.previous.executable [] ≡ false)
      × ((p : Text) × (resolve home a.previous.executable ≡ some p)
          × (verify_file hash st.files p a.previous ≡ true))

  verify_loaded-inv :
      (st : Home) (loaded : InstallError ⊎ Activation) (a : Activation)
      → load home st ≡ loaded
      → verify_loaded hash home st loaded ≡ inr a
      → IsVerified st a
  unfolding verify_loaded
  verify_loaded-inv st (inl e) a l h = absurd (cc)
  verify_loaded-inv st (inr b) a l h = elim (Bool-cases (text_eq b.previous.executable [])) [
    | inl unset ↦ absurd (ground (arith, h, unset))
    | inr set ↦
        let h' : previous_at hash st (resolve home b.previous.executable) b ≡ inr a =
          ground (arith, h, set) in
        let (p, found, ok_file, same) =
          previous_at-same st (resolve home b.previous.executable) b a h' in
        (
          l ∙ ap inr same,
          subst (λ c. text_eq c.previous.executable [] ≡ false) same set,
          (
            p,
            subst (λ c. resolve home c.previous.executable ≡ some p) same found,
            subst (λ c. verify_file hash st.files p c.previous ≡ true) same ok_file,
          ),
        )
  ]

  rollback_verified-inv :
      (f : Faults) (now : ℕ) (st st' : Home) (verified : InstallError ⊎ Activation)
      (next : Activation)
      → verify_rollback hash home st ≡ verified
      → rollback_verified f now verified st ≡ (inr next, st')
      → (a : Activation) × IsVerified st a
        × (next ≡ exchanged now a)
        × (st'.document.target ≡ some (whole (exchanged now a)))
        × (st'.files ≡ st.files)
  unfolding rollback_verified verify_rollback
  rollback_verified-inv f now st st' (inl e) next v h = absurd (ground (arith, h))
  rollback_verified-inv f now st st' (inr a) next v h =
      let (same, written, kept) = write_activation-ok f (exchanged now a) next st st' h in
      (a, verify_loaded-inv st (load home st) a refl v, same, written, kept)

  -- A document that was loaded is loaded again after its cores have changed places.
  load-exchanged :
      (now : ℕ) (st st' : Home) (a : Activation)
      → load home st ≡ inr a
      → text_eq a.previous.executable [] ≡ false
      → st'.document.target ≡ some (whole (exchanged now a))
      → load home st' ≡ inr (exchanged now a)
  unfolding load load_content
  load-exchanged now st st' a l set written =
      let (_, checked) = load_content-inv home st.document.target a l in
      rw written (check_activation-exchanged home now a checked set)

  active_executable-of :
      (st : Home) (a : Activation) (p : Text)
      → load home st ≡ inr a
      → resolve home a.active.executable ≡ some p
      → verify_file hash st.files p a.active ≡ true
      → active_executable hash home st ≡ inr (p, a)
  unfolding active_executable
  active_executable-of st a p l found good =
      rw l (active_loaded-of (resolve home a.active.executable) found)
    where
      active_loaded-of :
          (path : Option Text) → path ≡ some p → active_loaded hash home st (inr a) ≡ inr (p, a)
      active_loaded-of path e = unfold active_loaded active_at in ground (arith, found, good)

  pub rollback_lem :
      (f : Faults) (now : ℕ) (st st' : Home) (next : Activation)
      → rollback hash home f now st ≡ (inr next, st')
      → (a : Activation) × (load home st ≡ inr a)
        × (next ≡ exchanged now a)
        × (load home st' ≡ inr next)
        × (st'.files ≡ st.files)
        × ((path : Text) × (active_executable hash home st' ≡ inr (path, next)))
  unfolding rollback exchanged
  rollback_lem f now st st' next h =
      let (a, (l, set, (p, found, good)), same, written, kept) =
        rollback_verified-inv f now st st' (verify_rollback hash home st) next refl h in
      let l' = load-exchanged now st st' a l set written in
      let l'' : load home st' ≡ inr next = rw same l' in
      let good' : verify_file hash st'.files p a.previous ≡ true = rw kept good in
      (
        a,
        l,
        same,
        l'',
        kept,
        (p, active_executable-of st' next p l'' (rw same found) (rw same good')),
      )

  active_executable-inv :
      (st : Home) (a : Activation) (p : Text)
      → load home st ≡ inr a
      → active_executable hash home st ≡ inr (p, a)
      → (resolve home a.active.executable ≡ some p) × (verify_file hash st.files p a.active ≡ true)
  unfolding active_executable active_loaded
  active_executable-inv st a p l h =
      let (found, good, _) =
        active_at-same st (resolve home a.active.executable) a a p (rw l at h) in
      (found, good)

  verify_rollback-of :
      (st : Home) (a : Activation) → IsVerified st a → verify_rollback hash home st ≡ inr a
  unfolding verify_rollback verify_loaded previous_at
  verify_rollback-of st a (l, set, (p, found, good)) = rw l (ground (arith, set, found, good))

  -- What undoes a rollback.
  abbrev pub Undoes : ℕ → Text → Activation → Home → Type 0
  Undoes later path a st =
      (st' : Home) × (back : Activation) × (rollback hash home no_faults later st ≡ (inr back, st'))
      × (back.active ≡ a.active)
      × (back.previous ≡ a.previous)
      × (active_executable hash home st' ≡ inr (path, back))

  resolve-set :
      (relative path : Text) → resolve home relative ≡ some path → text_eq relative [] ≡ false
  unfolding resolve
  resolve-set relative path h = ground arith

  rollback_verified-ok :
      (later : ℕ) (st : Home) (a : Activation)
      → (st' : Home) × (rollback_verified no_faults later (inr a) st
          ≡ (inr (exchanged later a), st'))
  unfolding rollback_verified write_activation write_file
  rollback_verified-ok later st a = (_, refl)

  undone :
      (now later : ℕ) (st : Home) (a : Activation) (path : Text)
      → load home st ≡ inr (exchanged now a)
      → resolve home a.active.executable ≡ some path
      → verify_file hash st.files path a.active ≡ true
      → Undoes later path a st
  unfolding rollback exchanged
  undone now later st a path l found good =
      let next = exchanged now a in
      let verified : verify_rollback hash home st ≡ inr next =
        verify_rollback-of st next (l, resolve-set _ path found, (path, found, good)) in
      let (st', done) = rollback_verified-ok later st next in
      let back = exchanged later next in
      let done' : rollback hash home no_faults later st ≡ (inr back, st') = rw verified done in
      let (_, _, _, l', kept, _) = rollback_lem no_faults later st st' back done' in
      (
        st',
        back,
        done',
        refl,
        refl,
        active_executable-of st' back path l' found
            (subst (λ fs. verify_file hash fs path a.active ≡ true) (sym kept) good),
      )

  -- If the active executable of a loaded document is verified and Rollback succeeds, then a
  -- second Rollback whose writes do not fail succeeds, returns the active and the previous core
  -- of that document, and the launcher finds the same executable again.
  pub rollback_undone :
      (f : Faults) (now later : ℕ) (st st' : Home) (a next : Activation) (path : Text)
      → load home st ≡ inr a
      → active_executable hash home st ≡ inr (path, a)
      → rollback hash home f now st ≡ (inr next, st')
      → Undoes later path a st'
  rollback_undone f now later st st' a next path l runs h =
      let (b, l0, same, l', kept, _) = rollback_lem f now st st' next h in
      let (found, good) = active_executable-inv st a path l runs in
      let before : b ≡ a = ground (arith, l, l0) in
      undone now later st' a path (l' ∙ ap inr (same ∙ ap (exchanged now) before)) found
        (subst (λ fs. verify_file hash fs path a.active ≡ true) (sym kept) good)
