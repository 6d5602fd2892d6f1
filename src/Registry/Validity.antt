-- ===== src/Registry/Validity.antt =====
-- Which registries are valid, and that every operation keeps them so.
use lctk.Prelude.{
  ℕ, ◌≡◌, ◌≢◌, refl, sym, ◌∙◌, ◌↔◌, inl, inr, Bool, Bool-cases, true, false, Option-cases, none,
  List, [], ◌∷◌, ◌++◌, Text, text_eq, text_eq_iff, text_lt, All, All-append, arith, if◌then◌else◌,
  if_cases,
}
use lctk.Policy.{Approvals}
use lctk.Registry.{
  Registry, Project, Canonical, Host, Outcome, found, refused, is_profile, profile_minimal,
  insert_by_id, list, with_id, contains, check_one, validate_from, validate, change_first,
  change_one, set_commands, set_resource_mode, remove_first, remove_found, remove, resolve,
  matching, new_project, add_new, add,
}

-- A registration that can be used.
abbrev pub IsFine : Project → Type 0
IsFine p = (p.id ≢ []) × (p.path ≢ []) × (p.key ≢ []) × (is_profile p.profile ≡ true)

abbrev pub HasOther : Text → List Project → Type 0
HasOther id = All (λ q. q.id ≢ id)

-- No id stands twice.
abbrev pub AreDistinct : List Project → Type 0
AreDistinct [] = Unit
AreDistinct (p ∷ ps) = HasOther p.id ps × AreDistinct ps

abbrev pub IsValid : Registry → Type 0
IsValid ps = All IsFine ps × AreDistinct ps

abbrev Unseen : List Text → List Project → Type 0
Unseen seen = All (λ p. contains p.id seen ≡ false)

check_one_iff :
    (seen : List Text) (p : Project)
    → (check_one seen p ≡ none) ↔ (IsFine p × (contains p.id seen ≡ false))
unfolding check_one
check_one_iff seen p = (
  λ e. ground (arith, e, text_eq_iff p.id [], text_eq_iff p.path [], text_eq_iff p.key []),
  λ f. ground (arith, f, text_eq_iff p.id [], text_eq_iff p.path [], text_eq_iff p.key []),
)

seen_iff :
    (id : Text) (seen : List Text) (q : Project)
    → (contains q.id (id ∷ seen) ≡ false) ↔ ((q.id ≢ id) × (contains q.id seen ≡ false))
unfolding contains
seen_iff id seen q = (
  λ e. ((λ same. ground (arith, e, text_eq_iff id q.id)), ground (arith, e)),
  λ f. ground (arith, f, text_eq_iff id q.id),
)

Unseen-cons :
    (id : Text) (seen : List Text) (ps : List Project)
    → Unseen (id ∷ seen) ps ↔ (HasOther id ps × Unseen seen ps)
Unseen-cons id seen [] = (λ u. (tt, tt), λ u. tt)
Unseen-cons id seen (p ∷ ps) =
    let here = seen_iff id seen p in
    let rest = Unseen-cons id seen ps in
    (
      λ u. (((here.0 u.0).0, (rest.0 u.1).0), ((here.0 u.0).1, (rest.0 u.1).1)),
      λ (o, u). (here.1 (o.0, u.0), rest.1 (o.1, u.1)),
    )

validate_from_iff :
    (seen : List Text) (ps : List Project)
    → (validate_from seen ps ≡ none) ↔ (All IsFine ps × AreDistinct ps × Unseen seen ps)
unfolding validate_from
validate_from_iff seen [] = (λ e. (tt, tt, tt), λ u. refl)
validate_from_iff seen (p ∷ ps) =
    let here = check_one_iff seen p in
    let rest = validate_from_iff (p.id ∷ seen) ps in
    let apart = Unseen-cons p.id seen ps in
    elim (Option-cases (check_one seen p)) [
      | inr (e, bad) ↦ (
        λ v. absurd (cc (rw (bad, validate_from) at v)),
        λ (f, d, u). absurd (cc (bad, here.1 (f.0, u.0))),
      )
      | inl good ↦ (
        λ v.
            let (f, d, u) = rest.0 (rw (good, validate_from) at v) in
            (((here.0 good).0, f), ((apart.0 u).0, d), ((here.0 good).1, (apart.0 u).1)),
        λ (f, d, u). rw (good, validate_from) (rest.1 (f.1, d.1, apart.1 (d.0, u.1))),
      )
    ]

Unseen-nil : (ps : List Project) → Unseen [] ps
unfolding contains
Unseen-nil [] = tt
Unseen-nil (p ∷ ps) = (refl, Unseen-nil ps)

-- validate reports no error exactly for a valid registry.
pub validate_iff : (ps : Registry) → (validate ps ≡ none) ↔ IsValid ps
unfolding validate
validate_iff ps =
    let all = validate_from_iff [] ps in
    (λ e. let (f, d, u) = all.0 e in (f, d), λ (f, d). all.1 (f, d, Unseen-nil ps))

with_id-none : (id : Text) (ps : List Project) → with_id id ps ≡ none → HasOther id ps
unfolding with_id
with_id-none id [] e = tt
with_id-none id (p ∷ ps) e = elim (Bool-cases (text_eq p.id id)) [
  | inl same ↦ absurd (cc (rw same at e))
  | inr other ↦ (
    (λ same. ground (arith, other, text_eq_iff p.id id, same)),
    with_id-none id ps (rw other at e),
  )
]

snoc-AreDistinct :
    (p : Project) (ps : List Project)
    → AreDistinct ps
    → HasOther p.id ps
    → AreDistinct (ps ++ p ∷ [])
snoc-AreDistinct p [] d o = (tt, tt)
snoc-AreDistinct p (q ∷ qs) d o = (
  All-append (λ r. r.id ≢ q.id) qs (p ∷ []) d.0 ((λ e. o.0 (sym e)), tt),
  snoc-AreDistinct p qs d.1 o.1,
)

-- An operation on a registration that leaves what is checked.
abbrev Keeps : (Project → Project) → Type 0
Keeps f = (p : Project) → ((f p).id ≡ p.id) × (IsFine p → IsFine (f p))

change_first-HasOther :
    (id other : Text) (f : Project → Project) (ps : List Project)
    → Keeps f
    → HasOther other ps
    → HasOther other (change_first id f ps)
unfolding change_first
change_first-HasOther id other f [] k h = tt
change_first-HasOther id other f (p ∷ ps) k h =
    if_cases (HasOther other) (text_eq p.id id) (f p ∷ ps) (p ∷ change_first id f ps)
      (λ here. ((λ e. h.0 (sym (k p).0 ∙ e)), h.1))
      (λ later. (h.0, change_first-HasOther id other f ps k h.1))

change_first-IsValid :
    (id : Text) (f : Project → Project) (ps : List Project)
    → Keeps f
    → IsValid ps
    → IsValid (change_first id f ps)
unfolding change_first
change_first-IsValid id f [] k v = v
change_first-IsValid id f (p ∷ ps) k v =
    let rest = change_first-IsValid id f ps k (v.0.1, v.1.1) in
    if_cases IsValid (text_eq p.id id) (f p ∷ ps) (p ∷ change_first id f ps)
      (λ here. (((k p).1 v.0.0, v.0.1), (rw ((k p).0) v.1.0, v.1.1)))
      (λ later. ((v.0.0, rest.0), (change_first-HasOther id p.id f ps k v.1.0, rest.1)))

change_one-IsValid :
    (id : Text) (f : Project → Project) (ps : Registry)
    → Keeps f
    → IsValid ps
    → IsValid (change_one id f ps).0
unfolding change_one
change_one-IsValid id f ps k v = elim (Option-cases (with_id id ps)) [
  | inl e ↦ rw (e, change_one) v
  | inr (p, e) ↦ rw (e, change_one) (change_first-IsValid id f ps k v)
]

remove_first-HasOther :
    (id other : Text) (ps : List Project) → HasOther other ps → HasOther other (remove_first id ps)
unfolding remove_first
remove_first-HasOther id other [] h = tt
remove_first-HasOther id other (p ∷ ps) h =
    if_cases (HasOther other) (text_eq p.id id) ps (p ∷ remove_first id ps) (λ here. h.1)
      (λ later. (h.0, remove_first-HasOther id other ps h.1))

remove_first-IsValid : (id : Text) (ps : List Project) → IsValid ps → IsValid (remove_first id ps)
unfolding remove_first
remove_first-IsValid id [] v = v
remove_first-IsValid id (p ∷ ps) v =
    let rest = remove_first-IsValid id ps (v.0.1, v.1.1) in
    if_cases IsValid (text_eq p.id id) ps (p ∷ remove_first id ps) (λ here. (v.0.1, v.1.1))
      (λ later. ((v.0.0, rest.0), (remove_first-HasOther id p.id ps v.1.0, rest.1)))

insert_by_id-All :
    (P : Project → Type 0) (p : Project) (ps : List Project)
    → P p
    → All P ps
    → All P (insert_by_id p ps)
unfolding insert_by_id
insert_by_id-All P p [] hp h = (hp, tt)
insert_by_id-All P p (q ∷ qs) hp h =
    if_cases (All P) (text_lt p.id q.id) (p ∷ q ∷ qs) (q ∷ insert_by_id p qs) (λ lt. (hp, h))
      (λ ge. (h.0, insert_by_id-All P p qs hp h.1))

insert_by_id-AreDistinct :
    (p : Project) (ps : List Project)
    → HasOther p.id ps
    → AreDistinct ps
    → AreDistinct (insert_by_id p ps)
unfolding insert_by_id
insert_by_id-AreDistinct p [] o d = (tt, tt)
insert_by_id-AreDistinct p (q ∷ qs) o d =
    if_cases AreDistinct (text_lt p.id q.id) (p ∷ q ∷ qs) (q ∷ insert_by_id p qs) (λ lt. (o, d))
      (λ ge. (
        insert_by_id-All (λ r. r.id ≢ q.id) p qs (λ e. o.0 (sym e)) d.0,
        insert_by_id-AreDistinct p qs o.1 d.1,
      ))

pub list-All : (P : Project → Type 0) (ps : List Project) → All P ps → All P (list ps)
unfolding list
list-All P [] h = tt
list-All P (p ∷ ps) h = insert_by_id-All P p (list ps) h.0 (list-All P ps h.1)

pub list-IsValid : (ps : Registry) → IsValid ps → IsValid (list ps)
unfolding list
list-IsValid [] v = v
list-IsValid (p ∷ ps) v =
    let rest = list-IsValid ps (v.0.1, v.1.1) in
    (
      insert_by_id-All IsFine p (list ps) v.0.0 rest.0,
      insert_by_id-AreDistinct p (list ps) (list-All (λ q. q.id ≢ p.id) ps v.1.0) rest.1,
    )

add_new-IsValid : (p : Project) (ps : Registry) → IsFine p → IsValid ps → IsValid (add_new p ps).0
unfolding add_new
add_new-IsValid p ps fine v = elim (Option-cases (with_id p.id ps)) [
  | inr (q, e) ↦ rw (e, add_new) v
  | inl e ↦
      rw (e, add_new)
        (
          All-append IsFine ps (p ∷ []) v.0 (fine, tt),
          snoc-AreDistinct p ps v.1 (with_id-none p.id ps e),
        )
]

remove_found-IsValid : (o : Outcome) (ps : Registry) → IsValid ps → IsValid (remove_found o ps).0
unfolding remove_found
remove_found-IsValid (refused e) ps v = v
remove_found-IsValid (found p) ps v = elim (Option-cases (with_id p.id ps)) [
  | inl e ↦ rw (e, remove_found) v
  | inr (q, e) ↦ rw (e, remove_found) (remove_first-IsValid p.id ps v)
]

module _ (h : Host) where
  -- A path that Resolve made canonical.
  abbrev pub IsUsable : Canonical → Type 0
  IsUsable c = (h.derive_id c ≢ []) × (c.display ≢ []) × (c.key ≢ [])

  add-IsValid :
      (c : Canonical) (asked : Text) (manifest : Bool) (now : ℕ) (ps : Registry)
      → IsUsable c
      → IsValid ps
      → IsValid (add h c asked manifest now ps).0
  unfolding add
  add-IsValid c asked manifest now ps usable v =
      let profile = if text_eq asked [] then profile_minimal else asked in
      elim (Bool-cases (is_profile profile)) [
        | inr wrong ↦ rw wrong v
        | inl right ↦ elim (Option-cases (matching h c ps)) [
          | inr (m, e) ↦ rw (right, e, add) v
          | inl e ↦
              rw (right, e, add)
                (add_new-IsValid (new_project h c profile manifest now) ps
                  (usable.0, usable.1, usable.2, right) v)
        ]
      ]

  remove-IsValid :
      (reference : Text) (ps : Registry) → IsValid ps → IsValid (remove h reference ps).0
  unfolding remove
  remove-IsValid reference ps v = remove_found-IsValid (resolve h reference ps) ps v

  -- Add of a path whose display, key and derived id are not empty, Remove, SetCommands and
  -- SetResourceMode keep a registry valid, whether they succeed or fail: no id stands twice, no
  -- id, path or key is empty, and every profile is known.
  pub operations-IsValid :
      (c : Canonical) (asked : Text) (manifest : Bool) (now : ℕ) (reference id mode : Text)
      (commands : Approvals) (ps : Registry)
      → IsUsable c
      → IsValid ps
      → IsValid (add h c asked manifest now ps).0
        × IsValid (remove h reference ps).0
        × IsValid (set_commands id commands ps).0
        × IsValid (set_resource_mode id mode ps).0
  unfolding set_commands set_resource_mode
  operations-IsValid c asked manifest now reference id mode commands ps usable v = (
    add-IsValid c asked manifest now ps usable v,
    remove-IsValid reference ps v,
    change_one-IsValid id (λ p. record p { commands = commands }) ps (λ p. (refl, λ f. f)) v,
    change_one-IsValid id (λ p. record p { resource_mode = mode }) ps (λ p. (refl, λ f. f)) v,
  )
