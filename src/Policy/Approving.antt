-- ===== src/Policy/Approving.antt =====
-- Approve and Revoke, seen through Resolve.
use lctk.Prelude.{
  ℕ, ◌≡◌, ◌≢◌, refl, sym, ap, ◌∙◌, inl, inr, Bool-cases, Option-cases, true, not, Option, none,
  some, List, [], ◌∷◌, Text, text_eq, text_eq_iff, trim_space, All, arith, if◌then◌else◌,
}
use lctk.Policy.{
  no_image, changed, check_approval, Approval, Approvals, Proposal, Resolved, allowed, refused,
  is_name, network_or_default, last_command, last_approval, digest, resolve, approve, revoke,
  replace_first, remove_first, insert_by_name, sort_by_name,
}

abbrev pub Absent : Text → List Approval → Type 0
Absent n = All (λ a. a.name ≢ n)

-- No name is approved twice.
abbrev pub Unique : List Approval → Type 0
Unique [] = Unit {0}
Unique (a ∷ rest) = Absent a.name rest × Unique rest

last_approval-Absent :
    (n : Text) (o : Option Approval) (rest : List Approval)
    → Absent n rest
    → last_approval n o rest ≡ o
unfolding last_approval
last_approval-Absent n o [] h = refl
last_approval-Absent n o (a ∷ rest) h =
    ground (arith, text_eq_iff a.name n, last_approval-Absent n o rest h.1)

-- The list after a replacement, and where there is nothing to replace.
replace_first-last :
    (a : Approval) (o : Option Approval) (old new : List Approval)
    → Unique old
    → replace_first a old ≡ some new
    → last_approval a.name o new ≡ some a
unfolding replace_first last_approval
replace_first-last a o [] new u h = cc
replace_first-last a o (b ∷ bs) new u h = elim (Bool-cases (text_eq b.name a.name)) [
  | inl same ↦
      let b' = record b { digest = a.digest; approved_at = a.approved_at } in
      let list : b' ∷ bs ≡ new = ground (arith, h, same) in
      let name = (text_eq_iff b.name a.name).0 same in
      rw (← list, same)
        (last_approval-Absent a.name (some b') bs (rw (← name) u.0) ∙ ground (arith, name))
  | inr other ↦ elim (Option-cases (replace_first a bs)) [
    | inl missing ↦ absurd (ground (arith, h, other, missing))
    | inr (cs, found) ↦
        let list : b ∷ cs ≡ new = ground (arith, h, other, found) in
        rw (← list, other) (replace_first-last a o bs cs u.1 found)
  ]
]

replace_first-Absent :
    (a : Approval) (old : List Approval) → replace_first a old ≡ none → Absent a.name old
unfolding replace_first
replace_first-Absent a [] h = tt
replace_first-Absent a (b ∷ bs) h =
    ground (arith, h, text_eq_iff b.name a.name, replace_first-Absent a bs)

insert_by_name-last :
    (m : Text) (a : Approval) (o : Option Approval) (bs : List Approval)
    → Absent a.name bs
    → last_approval m o (insert_by_name a bs)
      ≡ last_approval m (if text_eq a.name m then some a else o) bs
unfolding insert_by_name last_approval
insert_by_name-last m a o [] h = refl
insert_by_name-last m a o (b ∷ bs) h =
    let ih = insert_by_name-last m a (if text_eq b.name m then some b else o) bs h.1 in
    ground (arith, ih, text_eq_iff b.name m, text_eq_iff a.name m)

module _ (P : Approval → Type 0) where
  All-insert_by_name :
      (a : Approval) (bs : List Approval) → P a → All P bs → All P (insert_by_name a bs)
  unfolding insert_by_name
  All-insert_by_name a [] h hs = (h, tt)
  All-insert_by_name a (b ∷ bs) h hs = ground (arith, All-insert_by_name a bs h hs.1)

  All-sort_by_name : (bs : List Approval) → All P bs → All P (sort_by_name bs)
  unfolding sort_by_name
  All-sort_by_name [] hs = tt
  All-sort_by_name (b ∷ bs) hs =
      All-insert_by_name b (sort_by_name bs) hs.0 (All-sort_by_name bs hs.1)

remove_first-Absent :
    (n : Text) (old : List Approval) → Unique old → Absent n (remove_first n old).0
unfolding remove_first
remove_first-Absent n [] u = tt
remove_first-Absent n (b ∷ bs) u = elim (Bool-cases (text_eq b.name n)) [
  | inl same ↦ rw same (rw (← (text_eq_iff b.name n).0 same) u.0)
  | inr other ↦
      rw other ((λ e. ground (arith, text_eq_iff b.name n, e)), remove_first-Absent n bs u.1)
]

Unique-insert :
    (a : Approval) (bs : List Approval)
    → Absent a.name bs
    → Unique bs
    → Unique (insert_by_name a bs)
unfolding insert_by_name
Unique-insert a [] h u = (tt, tt)
Unique-insert a (b ∷ bs) h u = ground (
  arith,
  All-insert_by_name (λ c. c.name ≢ b.name) a bs (λ e. h.0 (sym e)) u.0,
  Unique-insert a bs h.1 u.1,
)

Unique-sort : (bs : List Approval) → Unique bs → Unique (sort_by_name bs)
unfolding sort_by_name
Unique-sort [] u = tt
Unique-sort (b ∷ bs) u =
    Unique-insert b (sort_by_name bs) (All-sort_by_name (λ c. c.name ≢ b.name) bs u.0)
      (Unique-sort bs u.1)

replace_first-All :
    (n : Text) (a : Approval) (old new : List Approval)
    → replace_first a old ≡ some new
    → Absent n old
    → Absent n new
unfolding replace_first
replace_first-All n a [] new h d = cc
replace_first-All n a (b ∷ bs) new h d = elim (Bool-cases (text_eq b.name a.name)) [
  | inl same ↦
      let list : record b { digest = a.digest; approved_at = a.approved_at } ∷ bs ≡ new =
        ground (arith, h, same) in
      rw (← list) d
  | inr other ↦ elim (Option-cases (replace_first a bs)) [
    | inl missing ↦ absurd (ground (arith, h, other, missing))
    | inr (cs, found) ↦
        let list : b ∷ cs ≡ new = ground (arith, h, other, found) in
        rw (← list) (d.0, replace_first-All n a bs cs found d.1)
  ]
]

replace_first-Unique :
    (a : Approval) (old new : List Approval)
    → replace_first a old ≡ some new
    → Unique old
    → Unique new
unfolding replace_first
replace_first-Unique a [] new h u = cc
replace_first-Unique a (b ∷ bs) new h u = elim (Bool-cases (text_eq b.name a.name)) [
  | inl same ↦
      let list : record b { digest = a.digest; approved_at = a.approved_at } ∷ bs ≡ new =
        ground (arith, h, same) in
      rw (← list) u
  | inr other ↦ elim (Option-cases (replace_first a bs)) [
    | inl missing ↦ absurd (ground (arith, h, other, missing))
    | inr (cs, found) ↦
        let list : b ∷ cs ≡ new = ground (arith, h, other, found) in
        rw (← list)
          (replace_first-All b.name a bs cs found u.0, replace_first-Unique a bs cs found u.1)
  ]
]

-- The list that Approve leaves, on both of its branches.
approved_list : Approval → List Approval → List Approval
approved_list a old = elim (replace_first a old) [
  | some rest ↦ rest
  | none ↦ sort_by_name (a ∷ old)
]

approved_list-last :
    (a : Approval) (old : List Approval)
    → Unique old
    → (last_approval a.name none (approved_list a old) ≡ some a) × Unique (approved_list a old)
unfolding approved_list sort_by_name
approved_list-last a old u = elim (Option-cases (replace_first a old)) [
  | inl missing ↦
      let away = replace_first-Absent a old missing in
      let sorted = All-sort_by_name (λ c. c.name ≢ a.name) old away in
      rw (missing, approved_list)
        (
          insert_by_name-last a.name a none (sort_by_name old) sorted
              ∙ last_approval-Absent a.name _ (sort_by_name old) sorted
              ∙ ap (λ b. if b then some a else none) ((text_eq_iff a.name a.name).1 refl),
          Unique-insert a (sort_by_name old) sorted (Unique-sort old u),
        )
  | inr (rest, found) ↦
      rw (found, approved_list)
        (replace_first-last a none old rest u found, replace_first-Unique a old rest found u)
]

remove_first-All :
    (m n : Text) (old : List Approval) → Absent m old → Absent m (remove_first n old).0
unfolding remove_first
remove_first-All m n [] d = tt
remove_first-All m n (b ∷ bs) d = ground (arith, remove_first-All m n bs d.1)

remove_first-Unique : (n : Text) (old : List Approval) → Unique old → Unique (remove_first n old).0
unfolding remove_first
remove_first-Unique n [] u = tt
remove_first-Unique n (b ∷ bs) u =
    ground (arith, remove_first-All b.name n bs u.0, remove_first-Unique n bs u.1)

module _ (hash : Text → Text) where
  approve_ok :
      (n command : Text) (now : ℕ) (s : Approvals)
      → (approve hash n command now s).1 ≡ none
      → (is_name n ≡ true)
        × (trim_space command ≢ [])
        × ((approve hash n command now s).0 ≡ record s {
          approvals =
              approved_list
                (record { name = n; digest = digest hash command; approved_at = now })
                s.approvals;
        })
  unfolding approve approved_list
  approve_ok n command now s ok = ground (arith, text_eq_iff (trim_space command) [])

  -- After an approval of a name that is accepted, with no name approved twice before, no name is
  -- approved twice, and Resolve of the name, where the manifest's last proposal of it is not
  -- empty, refuses another digest than the approved one as changed, then refuses where no image
  -- is named, and otherwise allows the proposed text.
  pub approve-resolve :
      (n command : Text) (now : ℕ) (ps : List Proposal) (s : Approvals)
      → Unique s.approvals
      → (approve hash n command now s).1 ≡ none
      → last_command n [] ps ≢ []
      → let t = (approve hash n command now s).0 in
        Unique t.approvals
        × (resolve hash n ps t ≡ (
            if not (text_eq (digest hash command) (digest hash (last_command n [] ps)))
            then refused changed
            else if text_eq (trim_space s.image) []
            then refused no_image
            else allowed (record {
              name = n;
              command = last_command n [] ps;
              image = trim_space s.image;
              network = network_or_default s;
            })))
  unfolding resolve check_approval network_or_default
  approve-resolve n command now ps s u ok given =
      let a : Approval = record { name = n; digest = digest hash command; approved_at = now } in
      let (known, _, taken) = approve_ok n command now s ok in
      let (last, unique) = approved_list-last a s.approvals u in
      let new = last_command n [] ps in
      rw taken (unique, rw last (ground (arith, known, text_eq_iff new [], given)))

  -- Where no name is approved twice, Resolve allows nothing for a name that was revoked, and no
  -- name is approved twice afterwards.
  pub revoke-resolve :
      (n : Text) (r : Resolved) (ps : List Proposal) (s : Approvals)
      → Unique s.approvals
      → (resolve hash n ps (revoke n s).0 ≢ allowed r) × Unique (revoke n s).0.approvals
  unfolding revoke resolve check_approval
  revoke-resolve n r ps s u =
      let gone = remove_first-Absent n s.approvals u in
      (
        λ h. ground (arith, h, last_approval-Absent n none (remove_first n s.approvals).0 gone),
        remove_first-Unique n s.approvals u,
      )
