-- ===== src/Registry/Finding.antt =====
-- Which registration a reference finds, and which folder can be registered.
use lctk.Prelude.{
  ◌↔◌, ℕ, ◌≡◌, ◌≢◌, refl, ap, ◌∙◌, inl, inr, Bool, Bool-cases, true, false, Option, Option-cases,
  none, some, List, [], ◌∷◌, ◌++◌, Text, text_eq, text_eq_iff, text_eq_refl, trim_space, All, arith,
  if◌then◌else◌, ◌==◌,
}
use lctk.Registry.{
  Registry, Project, Canonical, Host, Match, Outcome, found, refused, is_profile, profile_minimal,
  with_id, compare_files, match_one, matching_from, matching, new_project, add_new, add, resolve,
  remove_first, remove_found, remove,
}
use lctk.Registry.Storing.{is_profile-nil}
use lctk.Registry.Validity.{HasOther, AreDistinct, IsValid}

with_id-snoc :
    (id : Text) (p : Project) (ps : List Project)
    → with_id p.id ps ≡ none
    → with_id id (ps ++ p ∷ []) ≡ (if text_eq p.id id then some p else with_id id ps)
unfolding with_id
with_id-snoc id p [] e = refl
with_id-snoc id p (q ∷ qs) e = ground (
  arith,
  e,
  with_id-snoc id p qs,
  text_eq_iff q.id p.id,
  text_eq_iff q.id id,
  text_eq_iff p.id id,
)

module _ (h : Host) where
  -- A reference that is an id, whatever else it may name.
  resolve-id :
      (p : Project) (ps : Registry)
      → with_id p.id ps ≡ some p
      → p.id ≢ []
      → trim_space p.id ≡ p.id
      → resolve h p.id ps ≡ found p
  unfolding resolve
  resolve-id p ps e nonempty trimmed =
      let something : text_eq p.id [] ≡ false = ground (arith, nonempty, text_eq_iff p.id []) in
      rw (trimmed, something, e)

  add_new-found :
      (p q : Project) (ps qs : Registry)
      → add_new p ps ≡ (qs, found q)
      → (q ≡ p) × (with_id p.id ps ≡ none) × (qs ≡ ps ++ p ∷ [])
  unfolding add_new
  add_new-found p q ps qs e = elim (Option-cases (with_id p.id ps)) [
    | inr (r, taken) ↦ absurd (cc (rw (taken, add_new) at e))
    | inl free ↦ let e' = rw (free, add_new) at e in (cc e', free, cc e')
  ]

  add-found :
      (c : Canonical) (asked : Text) (manifest : Bool) (now : ℕ) (q : Project) (ps qs : Registry)
      → add h c asked manifest now ps ≡ (qs, found q)
      → (q.id ≡ h.derive_id c)
        × (with_id q.id ps ≡ none)
        × (qs ≡ ps ++ q ∷ [])
        × (matching h c ps ≡ none)
  unfolding add
  add-found c asked manifest now q ps qs e =
      let profile = if text_eq asked [] then profile_minimal else asked in
      elim (Bool-cases (is_profile profile)) [
        | inr wrong ↦ absurd (cc (rw wrong at e))
        | inl right ↦ elim (Option-cases (matching h c ps)) [
          | inr (m, taken) ↦ absurd (cc (rw (right, taken, add) at e))
          | inl free ↦
              let (same, fresh, added) =
                add_new-found (new_project h c profile manifest now) q ps qs
                  (rw (right, free, add) at e) in
              (ap (λ (p : Project). p.id) same, rw same fresh, rw same added, free)
        ]
      ]

  -- A project that was added is found by its id, and every other id finds what it found before.
  pub add-resolve :
      (c : Canonical) (asked : Text) (manifest : Bool) (now : ℕ) (q : Project) (ps qs : Registry)
      → add h c asked manifest now ps ≡ (qs, found q)
      → q.id ≢ []
      → trim_space q.id ≡ q.id
      → (resolve h q.id qs ≡ found q) × ((id : Text) → id ≢ q.id → with_id id qs ≡ with_id id ps)
  add-resolve c asked manifest now q ps qs e nonempty trimmed =
      let (id, fresh, added, free) = add-found c asked manifest now q ps qs e in
      let whole : (i : Text) → with_id i qs ≡ (if text_eq q.id i then some q else with_id i ps) =
        λ i. rw added (with_id-snoc i q ps fresh) in
      (
        resolve-id q qs (whole q.id ∙ rw (text_eq_refl q.id)) nonempty trimmed,
        λ i other. whole i ∙ ground (arith, other, text_eq_iff q.id i),
      )

HasOther-none : (id : Text) (ps : List Project) → HasOther id ps → with_id id ps ≡ none
unfolding with_id
HasOther-none id [] o = refl
HasOther-none id (p ∷ ps) o = ground (arith, o.0, text_eq_iff p.id id, HasOther-none id ps o.1)

with_id-remove_first :
    (id r : Text) (ps : List Project)
    → AreDistinct ps
    → with_id id (remove_first r ps) ≡ (if text_eq r id then none else with_id id ps)
unfolding with_id remove_first
with_id-remove_first id r [] d = ground arith
with_id-remove_first id r (p ∷ ps) d = ground (
  arith,
  with_id-remove_first id r ps d.1,
  HasOther-none p.id ps d.0,
  text_eq_iff p.id r,
  text_eq_iff p.id id,
  text_eq_iff r id,
)

remove_found-removed :
    (o : Outcome) (p : Project) (ps qs : Registry)
    → remove_found o ps ≡ (qs, found p)
    → (o ≡ found p) × (qs ≡ remove_first p.id ps)
unfolding remove_found
remove_found-removed (refused e) p ps qs h = absurd (cc h)
remove_found-removed (found q) p ps qs h = elim (Option-cases (with_id q.id ps)) [
  | inl gone ↦ absurd (cc (rw (gone, remove_found) at h))
  | inr (r, there) ↦ let h' = rw (there, remove_found) at h in (cc h', cc h')
]

-- Where Remove of a reference succeeds on a valid registry, the registration it returns is the
-- one that the reference resolves to, its id finds nothing afterwards, and every other id finds
-- what it found before.
pub remove-resolve :
    (h : Host) (reference : Text) (p : Project) (ps qs : Registry)
    → IsValid ps
    → remove h reference ps ≡ (qs, found p)
    → (resolve h reference ps ≡ found p)
      × (with_id p.id qs ≡ none)
      × ((id : Text) → id ≢ p.id → with_id id qs ≡ with_id id ps)
unfolding remove
remove-resolve h reference p ps qs v e =
    let (same, left) = remove_found-removed (resolve h reference ps) p ps qs e in
    let law : (i : Text) → with_id i qs ≡ (if text_eq p.id i then none else with_id i ps) =
      λ i. rw left (with_id-remove_first i p.id ps v.1) in
    (
      same,
      law p.id ∙ rw (text_eq_refl p.id),
      λ i other. law i ∙ ground (arith, other, text_eq_iff p.id i),
    )

-- Two folders that differ: both can be inspected and are different files, or one cannot be inspected
-- and the keys differ.
abbrev pub AreApart : Option ℕ → Option ℕ → Text → Text → Type 0
AreApart (some a) (some b) k l = a ≢ b
AreApart (some a) none k l = k ≢ l
AreApart none b k l = k ≢ l

valid_profile :
    (profile : Text)
    → is_profile profile ≡ true
    → (if text_eq profile [] then profile_minimal else profile) ≡ profile
valid_profile profile valid = elim (Bool-cases (text_eq profile [])) [
  | inl nothing ↦
      absurd (cc (ap is_profile ((text_eq_iff profile []).0 nothing), is_profile-nil, valid))
  | inr something ↦ rw something
]

add_new-free :
    (p : Project) (ps : Registry) → with_id p.id ps ≡ none → add_new p ps ≡ (ps ++ p ∷ [], found p)
unfolding add_new
add_new-free p ps e = rw (e, add_new)

key_apart :
    (c : Canonical) (p : Project) (rest : Match)
    → ((if text_eq p.key c.key then some (p, false) else rest) ≡ none)
      ↔ ((p.key ≢ c.key) × (rest ≡ none))
key_apart c p rest = elim (Bool-cases (text_eq p.key c.key)) [
  | inl same ↦
      rw same (λ e. absurd (cc e), λ (ne, r). absurd (ne ((text_eq_iff p.key c.key).0 same)))
  | inr differ ↦
      rw differ
        (λ e. ((λ same. ground (arith, differ, same, text_eq_iff p.key c.key)), e), λ (ne, r). r)
]

match_one-Apart :
    (a b : Option ℕ) (c : Canonical) (p : Project) (rest : Match)
    → (match_one (compare_files a b) (text_eq p.key c.key) p rest ≡ none)
      ↔ (AreApart a b p.key c.key × (rest ≡ none))
unfolding match_one compare_files
match_one-Apart (some a) (some b) c p rest = elim (Bool-cases (a == b)) [
  | inl same ↦ rw same (λ e. absurd (cc e), λ (ne, r). absurd (ne (ground (arith, same))))
  | inr differ ↦ rw differ (λ e. ((λ same. ground (arith, differ, same)), e), λ (ne, r). r)
]
match_one-Apart (some a) none c p rest = key_apart c p rest
match_one-Apart none b c p rest = key_apart c p rest

module _ (h : Host) where
  matching-Apart :
      (o : Option ℕ) (c : Canonical) (ps : Registry)
      → (matching_from h o c ps ≡ none) ↔ All (λ p. AreApart o (h.stat p.path) p.key c.key) ps
  unfolding matching_from
  matching-Apart o c [] = (λ e. tt, λ a. refl)
  matching-Apart o c (p ∷ ps) =
      let here = match_one-Apart o (h.stat p.path) c p (matching_from h o c ps) in
      let rest = matching-Apart o c ps in
      (λ e. ((here.0 e).0, rest.0 (here.0 e).1), λ a. here.1 (a.0, rest.1 a.1))

  added_new :
      (c : Canonical) (profile : Text) (manifest : Bool) (now : ℕ) (ps : Registry)
      → is_profile profile ≡ true
      → matching_from h (h.stat c.display) c ps ≡ none
      → with_id (h.derive_id c) ps ≡ none
      → let p = new_project h c profile manifest now in
        add h c profile manifest now ps ≡ (ps ++ p ∷ [], found p)
  unfolding add matching
  added_new c profile manifest now ps valid free fresh =
      rw (valid_profile profile valid, valid, free, add)
        (rw (valid_profile profile valid)
          (add_new-free (new_project h c profile manifest now) ps fresh))

  -- With a known profile, Add registers a folder, at the end of the list, exactly when its id is
  -- free and it is apart from every registered folder: if both can be inspected they are
  -- different files, and otherwise their comparison keys differ.
  pub add-Apart :
      (c : Canonical) (profile : Text) (manifest : Bool) (now : ℕ) (ps : Registry)
      → is_profile profile ≡ true
      → let p = new_project h c profile manifest now in
        (add h c profile manifest now ps ≡ (ps ++ p ∷ [], found p)) ↔ (
          All (λ q. AreApart (h.stat c.display) (h.stat q.path) q.key c.key) ps
          × (with_id (h.derive_id c) ps ≡ none))
  add-Apart c profile manifest now ps valid =
      let p = new_project h c profile manifest now in
      let apart = matching-Apart (h.stat c.display) c ps in
      let filled : (if text_eq profile [] then profile_minimal else profile) ≡ profile =
        valid_profile profile valid in
      (
        λ e.
            let (id, fresh, added, free) =
              add-found h c profile manifest now p ps (ps ++ p ∷ []) e in
            (apart.0 (unfold matching in free), fresh),
        λ (a, fresh). added_new c profile manifest now ps valid (apart.1 a) fresh,
      )
