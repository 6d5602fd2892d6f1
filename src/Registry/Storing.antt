-- ===== src/Registry/Storing.antt =====
-- What is written is read back.
use lctk.Prelude.{
  ◌≡◌, ◌≢◌, refl, ap, ◌∙◌, ◌⊎◌, inl, inr, Bool-cases, true, false, Option-cases, none, some, List,
  [], ◌∷◌, map, Text, text_eq, text_eq_iff, All, arith, if◌then◌else◌,
}
use lctk.Files.{Disk, Faults, whole, write_file}
use lctk.Files.Atomic.{write_file-all_or_nothing}
use lctk.Registry.{
  Registry, Project, is_profile, insert_by_id, list, with_id, validate, with_profile, migrate,
  Document, schema_version, Stored, missing, broken, stored, loaded, load, load_valid, save,
}
use lctk.Registry.Validity.{
  IsFine, HasOther, AreDistinct, IsValid, validate_iff, list-All, list-IsValid,
}

pub is_profile-nil : is_profile [] ≡ false
unfolding is_profile text_eq
is_profile-nil = refl

with_profile-fine : (p : Project) → is_profile p.profile ≡ true → with_profile p ≡ p
unfolding with_profile
with_profile-fine p h = elim (Bool-cases (text_eq p.profile [])) [
  | inl nothing ↦
      absurd (cc (ap is_profile ((text_eq_iff p.profile []).0 nothing), is_profile-nil, h))
  | inr something ↦ rw something
]

map-with_profile : (ps : List Project) → All IsFine ps → map with_profile ps ≡ ps
map-with_profile [] h = refl
map-with_profile (p ∷ ps) h = cc (with_profile-fine p h.0.3, map-with_profile ps h.1)

abbrev pub document : Registry → Document
document ps = record { version = schema_version; projects = ps }

load-document : (ps : Registry) → IsValid ps → load (stored (document ps)) ≡ loaded ps
unfolding load migrate load_valid
load-document ps v =
    let same = map-with_profile ps v.0 in
    let good : validate (map with_profile ps) ≡ none = rw same ((validate_iff ps).1 v) in
    rw (good, load_valid) (ap loaded same)

with_id-insert :
    (id : Text) (p : Project) (ps : List Project)
    → HasOther p.id ps
    → with_id id (insert_by_id p ps) ≡ (if text_eq p.id id then some p else with_id id ps)
unfolding with_id insert_by_id
with_id-insert id p [] o = refl
with_id-insert id p (q ∷ qs) o =
    ground (arith, o.0, with_id-insert id p qs o.1, text_eq_iff p.id id, text_eq_iff q.id id)

HasOther-list : (id : Text) (ps : List Project) → HasOther id ps → HasOther id (list ps)
HasOther-list id ps o = list-All (λ q. q.id ≢ id) ps o

with_id-list : (id : Text) (ps : Registry) → AreDistinct ps → with_id id (list ps) ≡ with_id id ps
unfolding list with_id
with_id-list id [] d = refl
with_id-list id (p ∷ ps) d =
    with_id-insert id p (list ps) (HasOther-list p.id ps d.0)
    ∙ ap (λ o. if text_eq p.id id then some p else o) (with_id-list id ps d.1)

-- A save of a valid registry returns no error and leaves a document that loads as the registry's
-- list, in which each id finds the registration that it found before; or it returns an error and
-- leaves the file as it was.
pub load-save :
    (f : Faults) (ps : Registry) (disk : Disk Document)
    → IsValid ps
    → (((save f ps disk).1 ≡ none)
        × ((save f ps disk).0.target ≡ some (whole (document (list ps))))
        × (load (stored (document (list ps))) ≡ loaded (list ps))
        × ((id : Text) → with_id id (list ps) ≡ with_id id ps))
      ⊎ (((save f ps disk).1 ≢ none) × ((save f ps disk).0.target ≡ disk.target))
unfolding save
load-save f ps disk v =
    let good = (validate_iff ps).1 v in
    elim (write_file-all_or_nothing f (document (list ps)) disk) [
      | inl (e, t) ↦ inl (
        rw (good, save) (rw e refl),
        rw (good, save) t,
        load-document (list ps) (list-IsValid ps v),
        λ id. with_id-list id ps v.1,
      )
      | inr (e, t) ↦ inr (
        elim (Option-cases (write_file f (document (list ps)) disk).1) [
          | inl n ↦ absurd (e n)
          | inr (why, w) ↦ rw (good, save) (rw w (λ z. cc z))
        ],
        rw (good, save) t,
      )
    ]

load_valid-IsValid : (qs ps : Registry) → load_valid qs ≡ loaded ps → IsValid ps
unfolding load_valid
load_valid-IsValid qs ps e = elim (Option-cases (validate qs)) [
  | inl good ↦ let same = rw (good, load_valid) at e in (validate_iff ps).0 (cc (same, good))
  | inr (why, bad) ↦ absurd (cc (rw (bad, load_valid) at e))
]

-- Whatever was stored, what loads is valid.
pub load-IsValid : (s : Stored) (ps : Registry) → load s ≡ loaded ps → IsValid ps
unfolding load load_valid
load-IsValid missing [] e = (tt, tt)
load-IsValid missing (p ∷ ps) e = absurd (cc e)
load-IsValid broken ps e = cc e
load-IsValid (stored d) ps e = elim (Option-cases (migrate d)) [
  | inl new_schema ↦ absurd (cc (rw (new_schema, load) at e))
  | inr (qs, old) ↦ load_valid-IsValid qs ps (rw (old, load) at e)
]
