-- ===== src/Inventory/Agreement.antt =====
-- A full build and a targeted update agree on which files are indexed.
use lctk.Prelude.{
  ℕ, ◌≤◌, ◌≡◌, refl, ap, sym, ◌∙◌, ◌⊎◌, inl, inr, Bool, Bool-cases, true, false, not, ◌&&◌, Option,
  List, [], ◌∷◌, ◌++◌, Text, text, text_eq, All, Any, Any-append_left, Any-append_right,
  Any-append_inv, arith, ltb, split, ◌==◌, append_nil, append_assoc,
}
use lctk.Ignore.{Pattern, ignored, join, is_ignore_file, with_files, root_rules}
use lctk.Inventory.{
  Node, file, directory, Entries, nil, entry, Candidate, excluded, candidate, entered, walk, visit,
  inventory, eligible_from, eligible,
}

-- A path leads to a regular file of a size.
abbrev mutual
  pub Leads : Entries → List Text → ℕ → Type 0
  Leads nil path size = ⊥
  Leads (entry name node es) path size = LeadsTo name node path size ⊎ Leads es path size

  pub LeadsTo : Text → Node → List Text → ℕ → Type 0
  LeadsTo name (file regular s) path size = (regular ≡ true) × (path ≡ name ∷ []) × (size ≡ s)
  LeadsTo name (directory es) path size =
      (n : Text) × (rest : List Text) × (path ≡ name ∷ n ∷ rest) × Leads es (n ∷ rest) size

abbrev pub join_all : Text → List Text → Text
join_all prefix [] = prefix
join_all prefix (s ∷ ss) = join_all (join prefix s) ss

abbrev pub last_name : List Text → Text
last_name [] = []
last_name (n ∷ []) = n
last_name (n ∷ m ∷ rest) = last_name (m ∷ rest)

mutual
  Leads-cons :
      (es : Entries) (path : List Text) (size : ℕ)
      → Leads es path size
      → (n : Text) × (rest : List Text) × (path ≡ n ∷ rest)
  Leads-cons nil path size h = absurd h
  Leads-cons (entry name node es) path size (inl h) = LeadsTo-cons name node path size h
  Leads-cons (entry name node es) path size (inr h) = Leads-cons es path size h

  LeadsTo-cons :
      (name : Text) (node : Node) (path : List Text) (size : ℕ)
      → LeadsTo name node path size
      → (n : Text) × (rest : List Text) × (path ≡ n ∷ rest)
  LeadsTo-cons name (file regular s) path size (_, e, _) = (name, [], e)
  LeadsTo-cons name (directory es) path size (n, rest, e, _) = (name, n ∷ rest, e)

both : (a b : Bool) → (a && b) ≡ true → (a ≡ true) × (b ≡ true)
both a b h = ground (arith, h)

module _ (read : Text → Option (List Text)) (max_bytes : ℕ) where
  candidate_complete :
      (rules : List Pattern) (base name : Text) (s : ℕ)
      → eligible_from read rules base (name ∷ []) ≡ true
      → s ≤ max_bytes
      → Any (λ f. f ≡ (join base name, s)) (candidate max_bytes rules (join base name) true s)
  unfolding candidate eligible_from
  candidate_complete rules base name s ok small =
      let p = join base name in
      let inside : ltb max_bytes s ≡ false = ground (arith, small) in
      elim (Bool-cases (not (is_ignore_file p) && ignored rules p false)) [
        | inl barred ↦ absurd (ground (arith, ok, barred))
        | inr let_in ↦ rw (let_in, inside) (inl refl)
      ]

  candidate_sound :
      (rules : List Pattern) (base name : Text) (regular : Bool) (s : ℕ) (c : Candidate)
      → Any (λ f. f ≡ c) (candidate max_bytes rules (join base name) regular s)
      → (regular ≡ true)
        × (c ≡ (join base name, s))
        × (s ≤ max_bytes)
        × ((eligible_from read rules base (name ∷ []) ≡ true) ⊎ (excluded name ≡ true))
  unfolding candidate eligible_from
  candidate_sound rules base name false s c h = absurd h
  candidate_sound rules base name true s c h =
      let p = join base name in
      elim (Bool-cases (not (is_ignore_file p) && ignored rules p false)) [
        | inl barred ↦ absurd (rw barred at h)
        | inr let_in ↦ elim (Bool-cases (ltb max_bytes s)) [
          | inl big ↦ absurd (rw (let_in, big) at h)
          | inr small ↦ elim (rw (let_in, small) at h) [
            | inl e ↦ (
              refl,
              sym e,
              ground (arith, small),
              elim (Bool-cases (excluded name)) [
                | inl out ↦ inr out
                | inr within ↦ inl (ground (arith, within, let_in))
              ],
            )
            | inr none_left ↦ absurd none_left
          ]
        ]
      ]

  mutual
    unfolding walk visit eligible_from

    walk_complete :
        (es : Entries) (rules : List Pattern) (base : Text) (path : List Text) (size : ℕ)
        → Leads es path size
        → eligible_from read rules base path ≡ true
        → size ≤ max_bytes
        → Any (λ f. f ≡ (join_all base path, size)) (walk read max_bytes rules base es)
    walk_complete nil rules base path size l ok small = absurd l
    walk_complete (entry name node es) rules base path size (inl l) ok small =
        Any-append_left (λ f. f ≡ (join_all base path, size))
          (visit read max_bytes rules name (join base name) node)
          (walk read max_bytes rules base es)
          (visit_complete node name rules base path size l ok small)
    walk_complete (entry name node es) rules base path size (inr l) ok small =
        Any-append_right (λ f. f ≡ (join_all base path, size))
          (visit read max_bytes rules name (join base name) node)
          (walk read max_bytes rules base es) (walk_complete es rules base path size l ok small)

    visit_complete :
        (node : Node) (name : Text) (rules : List Pattern) (base : Text) (path : List Text)
        (size : ℕ)
        → LeadsTo name node path size
        → eligible_from read rules base path ≡ true
        → size ≤ max_bytes
        → Any
            (λ f. f ≡ (join_all base path, size))
            (visit read max_bytes rules name (join base name) node)
    visit_complete (file regular s) name rules base path size (r, e, same) ok small =
        let ok' = rw e at ok in
        rw (r, e, same) (candidate_complete rules base name s ok' (omega (arith, same, small)))
    visit_complete (directory es) name rules base path size (n, rest, e, l) ok small =
        let p = join base name in
        let ok' = rw e at ok in
        let (enter, below) =
          both (entered rules name p) (eligible_from read (with_files read p rules) p (n ∷ rest))
            ok' in
        rw (enter, e) (walk_complete es (with_files read p rules) p (n ∷ rest) size l below small)

  -- What is listed is led to, and eligible unless its own name is excluded.
  abbrev Listed : (List Text → ℕ → Type 0) → List Pattern → Text → Candidate → Type 0
  Listed leads rules base (p, size) =
      (path : List Text) × leads path size
      × (p ≡ join_all base path)
      × (size ≤ max_bytes)
      × ((eligible_from read rules base path ≡ true) ⊎ (excluded (last_name path) ≡ true))

  -- One directory further up.
  deeper :
      (es : Entries) (name : Text) (rules : List Pattern) (base : Text) (c : Candidate)
      (path : List Text)
      → entered rules name (join base name) ≡ true
      → Leads es path c.1
      → c.0 ≡ join_all (join base name) path
      → c.1 ≤ max_bytes
      → (eligible_from read (with_files read (join base name) rules) (join base name) path ≡ true)
        ⊎ (excluded (last_name path) ≡ true)
      → Listed (LeadsTo name (directory es)) rules base c
  unfolding eligible_from
  deeper es name rules base c [] enter l e small allowed =
      let (n, rest, empty) = Leads-cons es [] c.1 l in cc empty
  deeper es name rules base c (n ∷ rest) enter l e small (inl ok) =
      (name ∷ n ∷ rest, (n, rest, refl, l), e, small, inl (rw (enter, ok) refl))
  deeper es name rules base c (n ∷ rest) enter l e small (inr out) =
      (name ∷ n ∷ rest, (n, rest, refl, l), e, small, inr out)

  mutual
    unfolding walk visit eligible_from

    walk-Listed :
        (es : Entries) (rules : List Pattern) (base : Text) (c : Candidate)
        → Any (λ f. f ≡ c) (walk read max_bytes rules base es)
        → Listed (Leads es) rules base c
    walk-Listed nil rules base c h = absurd h
    walk-Listed (entry name node es) rules base c h =
        elim (Any-append_inv (λ f. f ≡ c) (visit read max_bytes rules name (join base name) node)
          (walk read max_bytes rules base es) h) [
            | inl now ↦
                let (path, l, e, small, allowed) = visit-Listed node name rules base c now in
                (path, inl l, e, small, allowed)
            | inr later ↦
                let (path, l, e, small, allowed) = walk-Listed es rules base c later in
                (path, inr l, e, small, allowed)
          ]

    visit-Listed :
        (node : Node) (name : Text) (rules : List Pattern) (base : Text) (c : Candidate)
        → Any (λ f. f ≡ c) (visit read max_bytes rules name (join base name) node)
        → Listed (LeadsTo name node) rules base c
    visit-Listed (file regular s) name rules base c h =
        let (r, e, small, allowed) = candidate_sound rules base name regular s c h in
        (
          name ∷ [],
          (r, refl, ap (λ z. z.1) e),
          ap (λ z. z.0) e,
          omega (arith, small, ap (λ (z : Candidate). z.1) e),
          allowed,
        )
    visit-Listed (directory es) name rules base c h =
        let p = join base name in
        elim (Bool-cases (entered rules name p)) [
          | inl enter ↦
              let (path, l, e, small, allowed) =
                walk-Listed es (with_files read p rules) p c (rw enter at h) in
              deeper es name rules base c path enter l e small allowed
          | inr not_entered ↦ absurd (rw not_entered at h)
        ]

-- A name of a directory's entry.
abbrev no_slash : Text → Bool
no_slash [] = true
no_slash (x ∷ s) = not (x == b'/') && no_slash s

abbrev pub is_name : Text → Bool
is_name s = not (text_eq s []) && no_slash s

split-cons : (s : Text) → (h : Text) × (t : List Text) × (split b'/' s ≡ h ∷ t)
unfolding split
split-cons [] = ([], [], refl)
split-cons (x ∷ s) =
    let (h, t, e) = split-cons s in
    elim (Bool-cases (x == b'/')) [
      | inl slash ↦ ([], split b'/' s, rw slash)
      | inr other ↦ (x ∷ h, t, rw (other, e))
    ]

split-name : (s : Text) → no_slash s ≡ true → split b'/' s ≡ s ∷ []
unfolding split
split-name [] h = refl
split-name (x ∷ s) h = elim (Bool-cases (x == b'/')) [
  | inl slash ↦ absurd (ground (arith, h, slash))
  | inr other ↦ rw (other, split-name s (ground (arith, h)))
]

split-append : (p s : Text) → split b'/' (p ++ (b'/' ∷ s)) ≡ split b'/' p ++ split b'/' s
unfolding split
split-append [] s = refl
split-append (x ∷ p) s =
    let (h, t, e) = split-cons p in
    elim (Bool-cases (x == b'/')) [
      | inl slash ↦ rw (slash, split-append p s)
      | inr other ↦ rw (other, split-append p s, e)
    ]

join_slash : (x : ℕ) (p s : Text) → join (x ∷ p) s ≡ x ∷ (p ++ (b'/' ∷ s))
unfolding join text_eq
join_slash x p s = append_assoc (x ∷ p) (text "/") s

split-join_all :
    (x : ℕ) (p : Text) (path : List Text)
    → All (λ s. is_name s ≡ true) path
    → split b'/' (join_all (x ∷ p) path) ≡ split b'/' (x ∷ p) ++ path
split-join_all x p [] h = sym (append_nil (split b'/' (x ∷ p)))
split-join_all x p (s ∷ path) (h, rest) = rw (join_slash x p s) (
    split-join_all x (p ++ (b'/' ∷ s)) path rest
    ∙ rw (split-append (x ∷ p) s, split-name s (ground (arith, h)))
        (append_assoc (split b'/' (x ∷ p)) (s ∷ []) path))

split-path :
    (n : Text) (path : List Text)
    → All (λ s. is_name s ≡ true) (n ∷ path)
    → split b'/' (join_all [] (n ∷ path)) ≡ n ∷ path
unfolding join text_eq
split-path [] path (h, rest) = cc
split-path (x ∷ n) path (h, rest) =
    split-join_all x n path rest ∙ rw (split-name (x ∷ n) (ground (arith, h)))

-- A tree whose entries have names.
abbrev mutual
  pub IsTree : Entries → Type 0
  IsTree nil = Unit
  IsTree (entry name node es) = (is_name name ≡ true) × IsSubtree node × IsTree es

  pub IsSubtree : Node → Type 0
  IsSubtree (file regular size) = Unit
  IsSubtree (directory es) = IsTree es

mutual
  Leads-names :
      (es : Entries) (path : List Text) (size : ℕ)
      → IsTree es
      → Leads es path size
      → All (λ s. is_name s ≡ true) path
  Leads-names nil path size t l = absurd l
  Leads-names (entry name node es) path size (n, t, ts) (inl l) =
      LeadsTo-names node name path size n t l
  Leads-names (entry name node es) path size (n, t, ts) (inr l) = Leads-names es path size ts l

  LeadsTo-names :
      (node : Node) (name : Text) (path : List Text) (size : ℕ)
      → is_name name ≡ true
      → IsSubtree node
      → LeadsTo name node path size
      → All (λ s. is_name s ≡ true) path
  LeadsTo-names (file regular s) name path size n t (r, e, same) = rw e (n, tt)
  LeadsTo-names (directory es) name path size n t (m, rest, e, l) =
      rw e (n, Leads-names es (m ∷ rest) size t l)

module _ (read : Text → Option (List Text)) (max_bytes : ℕ) (es : Entries) (tree : IsTree es) where
  split-Leads :
      (path : List Text) (size : ℕ) → Leads es path size → split b'/' (join_all [] path) ≡ path
  split-Leads path size l =
      let (n, rest, e) = Leads-cons es path size l in
      rw e (split-path n rest (rw e at (Leads-names es path size tree l)))

  -- A full build lists what a targeted update accepts: if the tree's entries have names, a path
  -- leads to a regular file whose size is within the limit, and the path is eligible, then the
  -- inventory lists that path with that size.
  pub eligible-inventory :
      (path : List Text) (size : ℕ)
      → Leads es path size
      → size ≤ max_bytes
      → eligible read (join_all [] path) ≡ true
      → Any (λ f. f ≡ (join_all [] path, size)) (inventory read max_bytes es)
  unfolding inventory eligible
  eligible-inventory path size l small ok =
      walk_complete read max_bytes es (root_rules read) [] path size l
        (rw (split-Leads path size l) at ok) small

  -- What a full build lists, in a tree whose entries have names, is the path of a regular file in
  -- the tree with its size, which is within the limit; and the path is eligible, or its last name
  -- is one of the excluded directories' names.
  pub inventory-eligible :
      (c : Candidate)
      → Any (λ f. f ≡ c) (inventory read max_bytes es)
      → (path : List Text) × (c.0 ≡ join_all [] path)
        × Leads es path c.1
        × (c.1 ≤ max_bytes)
        × ((eligible read c.0 ≡ true) ⊎ (excluded (last_name path) ≡ true))
  unfolding inventory eligible
  inventory-eligible c listed =
      let (path, l, e, small, allowed) =
        walk-Listed read max_bytes es (root_rules read) [] c listed in
      (path, e, l, small, rw (e, split-Leads path c.1 l) allowed)

-- A regular file at the root that has a name which is not ignored is listed.
root_file :
    (read : Text → Option (List Text)) (max_bytes : ℕ) (rules : List Pattern) (name : Text)
    (size : ℕ) (es : Entries)
    → ignored rules name false ≡ false
    → size ≤ max_bytes
    → Leads es (name ∷ []) size
    → Any (λ f. f ≡ (name, size)) (walk read max_bytes rules [] es)
unfolding walk visit candidate join text_eq
root_file read max_bytes rules name size nil kept small l = absurd l
root_file read max_bytes rules name size (entry n (file regular s) es) kept small
      (inl (r, e, same)) =
    let here : n ≡ name = cc (e) in
    let inside : ltb max_bytes s ≡ false = ground (arith, small, same) in
    Any-append_left (λ f. f ≡ (name, size))
      (visit read max_bytes rules n (join [] n) (file regular s)) (walk read max_bytes rules [] es)
      (rw (r, here)
        (elim (Bool-cases (is_ignore_file name)) [
          | inl i ↦ rw (i, inside) (inl (rw same refl))
          | inr i ↦ rw (i, kept, inside) (inl (rw same refl))
        ]))
root_file read max_bytes rules name size (entry n (directory below) es) kept small
      (inl (m, rest, e, l)) =
    absurd (cc (e))
root_file read max_bytes rules name size (entry n node es) kept small (inr l) =
    Any-append_right (λ f. f ≡ (name, size)) (visit read max_bytes rules n (join [] n) node)
      (walk read max_bytes rules [] es) (root_file read max_bytes rules name size es kept small l)

-- A regular file at the root, wherever it stands among the entries, that has the name of an
-- excluded directory, is not ignored and is within the size limit is listed by a full build and
-- is not eligible.
pub metadata_file_disagrees :
    (read : Text → Option (List Text)) (max_bytes : ℕ) (name : Text) (size : ℕ) (es : Entries)
    → is_name name ≡ true
    → excluded name ≡ true
    → ignored (root_rules read) name false ≡ false
    → size ≤ max_bytes
    → Leads es (name ∷ []) size
    → Any (λ f. f ≡ (name, size)) (inventory read max_bytes es) × (eligible read name ≡ false)
unfolding inventory eligible eligible_from
metadata_file_disagrees read max_bytes name size es named out kept small l =
    let whole : split b'/' name ≡ name ∷ [] = split-name name (ground (arith, named)) in
    (root_file read max_bytes (root_rules read) name size es kept small l, rw (whole, out))
