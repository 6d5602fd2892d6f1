-- ===== src/Inventory/Watching.antt =====
-- The directories that a watcher observes: Store.WatchSet of
-- images/code-intel/internal/searchindex/watchset.go.
use lctk.Prelude.{
  take-append, ℕ, suc, ◌+◌, ◌≤◌, ◌≡◌, refl, ap, sym, ◌⊎◌, inl, inr, Bool, Bool-cases, true, false,
  Option, List, [], ◌∷◌, ◌++◌, Text, text, text_eq, Any, Any-append_left, Any-append_right,
  Any-append_inv, arith, if◌then◌else◌, ltb, leb, length, take, length-append, append_nil, not,
  ◌&&◌, take-all, length-take, ◌∙◌, append_assoc, ◌↔◌, ◌<◌,
}
use lctk.Ignore.{Pattern, is_ignore_file, ignored, join, with_files, root_rules}
use lctk.Inventory.{
  Node, file, directory, Entries, nil, entry, Candidate, candidate, entered, walk, visit, inventory,
}

-- The directories noted so far, and whether the walk was stopped.
abbrev pub Watched : Type 0
Watched = List Text × Bool

-- The bound, and the append of the callback.
unfoldable pub note_directory : ℕ → Text → Watched → Watched
note_directory max path (dirs, truncated) =
    if leb max (length dirs) then (dirs, true) else (dirs ++ path ∷ [], truncated)

module _ (read : Text → Option (List Text)) (max : ℕ) where
  -- fs.SkipAll stops the walk.
  unfoldable mutual
    unfolding note_directory entered

    pub watch_visit : List Pattern → Text → Text → Node → Watched → Watched
    watch_visit rules name path (file regular size) w = w
    watch_visit rules name path (directory es) w =
        let noted = note_directory max path w in
        let below = watch_walk (with_files read path rules) path es noted in
        if entered rules name path then (if noted.1 then noted else below) else w

    pub watch_walk : List Pattern → Text → Entries → Watched → Watched
    watch_walk rules base nil w = w
    watch_walk rules base (entry name node es) w =
        let w' = watch_visit rules name (join base name) node w in
        let rest = watch_walk rules base es w' in if w'.1 then w' else rest

  -- Store.WatchSet.
  unfoldable pub watch_set : Entries → Watched
  unfolding watch_walk
  watch_set es = watch_walk (root_rules read) [] es (text "." ∷ [], false)

-- The directories that the walk enters, in its order.
module _ (read : Text → Option (List Text)) where
  unfoldable mutual
    unfolding entered

    pub visited : List Pattern → Text → Text → Node → List Text
    visited rules name path (file regular size) = []
    visited rules name path (directory es) =
        let below = walked (with_files read path rules) path es in
        if entered rules name path then path ∷ below else []

    pub walked : List Pattern → Text → Entries → List Text
    walked rules base nil = []
    walked rules base (entry name node es) =
        visited rules name (join base name) node ++ walked rules base es

-- The callback on one directory after another, until it stops.
note_all : ℕ → Watched → List Text → Watched
unfolding note_directory
note_all max w [] = w
note_all max w (path ∷ paths) =
    let noted = note_directory max path w in
    let rest = note_all max noted paths in if noted.1 then noted else rest

note_all-append :
    (max : ℕ) (w : Watched) (xs ys : List Text)
    → w.1 ≡ false
    → note_all max w (xs ++ ys)
      ≡ (if (note_all max w xs).1 then note_all max w xs else note_all max (note_all max w xs) ys)
unfolding note_all
note_all-append max w [] ys h = rw h
note_all-append max w (x ∷ xs) ys h = elim (Bool-cases (note_directory max x w).1) [
  | inl full ↦ rw (full, full)
  | inr room ↦ rw room (note_all-append max (note_directory max x w) xs ys room)
]

else_eq :
    (b : Bool) (w : Watched) {r s : Watched}
    → (b ≡ false → r ≡ s)
    → (if b then w else r) ≡ (if b then w else s)
else_eq true w h = refl
else_eq false w h = h refl

note_all-nil : (max : ℕ) (w : Watched) → note_all max w [] ≡ w
unfolding note_all
note_all-nil max w = refl

note_all-cons :
    (max : ℕ) (w : Watched) (x : Text) (xs : List Text)
    → note_all max w (x ∷ xs) ≡ (
        if (note_directory max x w).1
        then note_directory max x w
        else note_all max (note_directory max x w) xs)
unfolding note_all
note_all-cons max w x xs = ground arith

module _ (read : Text → Option (List Text)) (max : ℕ) where
  mutual
    unfolding watch_visit watch_walk visited walked

    watch_visit-eq :
        (node : Node) (rules : List Pattern) (name path : Text) (w : Watched)
        → w.1 ≡ false
        → watch_visit read max rules name path node w
          ≡ note_all max w (visited read rules name path node)
    watch_visit-eq (file regular size) rules name path w h = sym (note_all-nil max w)
    watch_visit-eq (directory es) rules name path w h =
        elim (Bool-cases (entered rules name path)) [
          | inr out ↦ rw out (sym (note_all-nil max w))
          | inl enter ↦
              rw (enter, note_all-cons)
                (else_eq (note_directory max path w).1 (note_directory max path w) (λ room.
                  watch_walk-eq es (with_files read path rules) path (note_directory max path w)
                    room))
        ]

    watch_walk-eq :
        (es : Entries) (rules : List Pattern) (base : Text) (w : Watched)
        → w.1 ≡ false
        → watch_walk read max rules base es w ≡ note_all max w (walked read rules base es)
    watch_walk-eq nil rules base w h = sym (note_all-nil max w)
    watch_walk-eq (entry name node es) rules base w h =
        let now = watch_visit-eq node rules name (join base name) w h in
        let here = visited read rules name (join base name) node in
        rw (now, note_all-append max w here (walked read rules base es) h)
          (else_eq (note_all max w here).1 (note_all max w here)
            (λ room. watch_walk-eq es rules base (note_all max w here) room))

note_all_lem :
    (max : ℕ) (dirs paths : List Text)
    → length dirs ≤ max
    → note_all max (dirs, false) paths
      ≡ (take max (dirs ++ paths), ltb max (length dirs + length paths))
unfolding note_all note_directory
note_all_lem max dirs [] fits =
    rw (append_nil, not, ◌&&◌, take-all dirs max fits) (ground (arith, fits))
note_all_lem max dirs (x ∷ xs) fits = elim (Bool-cases (leb max (length dirs))) [
  | inl full ↦
      let at : max ≡ length dirs = ground (arith, full, fits) in
      rw (full, at, take-append dirs (x ∷ xs)) (ground arith)
  | inr room ↦
      let longer : length (dirs ++ x ∷ []) ≡ suc (length dirs) =
        omega (arith, length-append dirs (x ∷ [])) in
      rw
        (
          room,
          note_all_lem max (dirs ++ x ∷ []) xs (ground (arith, room, longer)),
          append_assoc,
          longer,
        )
        (ground arith)
]

-- A path is a name in a directory.
abbrev pub Inside : Text → Text → Type 0
Inside p d = (n : Text) × ((p ≡ join d n) ⊎ ((d ≡ text ".") × (p ≡ n)))

Inside-root : {p : Text} → Inside p [] → Inside p (text ".")
unfolding join text_eq
Inside-root (n, inl e) = (n, inr (refl, e))
Inside-root (n, inr (no_dot, e)) = (n, inr (refl, e))

module _ (read : Text → Option (List Text)) (max_bytes : ℕ) where
  candidate-path :
      (rules : List Pattern) (path : Text) (regular : Bool) (size : ℕ) (c : Candidate)
      → Any (λ f. f ≡ c) (candidate max_bytes rules path regular size)
      → c.0 ≡ path
  unfolding candidate
  candidate-path rules path false size c h = absurd h
  candidate-path rules path true size c h =
      elim (Bool-cases (not (is_ignore_file path) && ignored rules path false)) [
        | inl barred ↦ absurd (rw barred at h)
        | inr let_in ↦ elim (Bool-cases (ltb max_bytes size)) [
          | inl big ↦ absurd (rw (let_in, big) at h)
          | inr small ↦ elim (rw (let_in, small) at h) [
            | inl e ↦ ap (λ (f : Candidate). f.0) (sym e)
            | inr none_left ↦ absurd none_left
          ]
        ]
      ]

  mutual
    unfolding walk visit visited walked

    visit-Inside :
        (node : Node) (rules : List Pattern) (name base : Text) (c : Candidate)
        → Any (λ f. f ≡ c) (visit read max_bytes rules name (join base name) node)
        → Inside c.0 base ⊎ Any (Inside c.0) (visited read rules name (join base name) node)
    visit-Inside (file regular size) rules name base c h =
        inl (name, inl (candidate-path rules (join base name) regular size c h))
    visit-Inside (directory es) rules name base c h =
        elim (Bool-cases (entered rules name (join base name))) [
          | inr out ↦ absurd (rw out at h)
          | inl enter ↦ rw enter (
              inr (
                walk-Inside es (with_files read (join base name) rules) (join base name) c
                  (rw enter at h)))
        ]

    walk-Inside :
        (es : Entries) (rules : List Pattern) (base : Text) (c : Candidate)
        → Any (λ f. f ≡ c) (walk read max_bytes rules base es)
        → Inside c.0 base ⊎ Any (Inside c.0) (walked read rules base es)
    walk-Inside nil rules base c h = absurd h
    walk-Inside (entry name node es) rules base c h =
        let here = visited read rules name (join base name) node in
        let later = walked read rules base es in
        elim (Any-append_inv (λ f. f ≡ c) (visit read max_bytes rules name (join base name) node)
          (walk read max_bytes rules base es) h) [
            | inl now ↦ elim (visit-Inside node rules name base c now) [
              | inl d ↦ inl d
              | inr d ↦ inr (Any-append_left (Inside c.0) here later d)
            ]
            | inr after ↦ elim (walk-Inside es rules base c after) [
              | inl d ↦ inl d
              | inr d ↦ inr (Any-append_right (Inside c.0) here later d)
            ]
          ]

module _ (read : Text → Option (List Text)) (max : ℕ) where
  watch_set_lem :
      (es : Entries)
      → 1 ≤ max
      → watch_set read max es ≡ (
        take max (text "." ∷ walked read (root_rules read) [] es),
        ltb max (1 + length (walked read (root_rules read) [] es)),
      )
  unfolding watch_set
  watch_set_lem es h =
      let all = walked read (root_rules read) [] es in
      watch_walk-eq read max es (root_rules read) [] (text "." ∷ [], false) refl
      ∙ note_all_lem max (text "." ∷ []) all h

  -- At most as many directories are given as the bound, which is at least 1, and the set is
  -- called truncated exactly when the root and the directories that are entered are more than
  -- that.
  pub watch_set_bounds :
      (es : Entries)
      → 1 ≤ max
      → (length (watch_set read max es).0 ≤ max)
        × ((watch_set read max es).1 ≡ true
            ↔ max < 1 + length (walked read (root_rules read) [] es))
  watch_set_bounds es h =
      let all = walked read (root_rules read) [] es in
      rw (watch_set_lem es h) (
        omega (arith, length-take max (text "." ∷ all)),
        (λ t. ground (arith, t), λ t. ground (arith, t)),
      )

  -- If the set of watched directories is not truncated, then each file that a full build of the
  -- same tree lists lies directly in one of them, the root being written as a dot. The bound is
  -- at least 1.
  pub watch_set-Inside :
      (max_bytes : ℕ) (es : Entries) (c : Candidate)
      → 1 ≤ max
      → (watch_set read max es).1 ≡ false
      → Any (λ f. f ≡ c) (inventory read max_bytes es)
      → Any (Inside c.0) (watch_set read max es).0
  unfolding inventory
  watch_set-Inside max_bytes es c h whole listed =
      let all = walked read (root_rules read) [] es in
      let whole' : ltb max (1 + length all) ≡ false =
        ap (λ (w : Watched). w.1) (sym (watch_set_lem es h)) ∙ whole in
      let every : take max (text "." ∷ all) ≡ text "." ∷ all =
        take-all (text "." ∷ all) max (ground (arith, whole')) in
      rw (watch_set_lem es h, every)
        (elim (walk-Inside read max_bytes es (root_rules read) [] c listed) [
          | inl root ↦ inl (Inside-root root)
          | inr below ↦ inr below
        ])
