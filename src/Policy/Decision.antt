-- ===== src/Policy/Decision.antt =====
-- When a command runs: what Resolve allows, and that Describe says the same.
use lctk.Prelude.{
  ◌≡◌, ◌≢◌, refl, ◌↔◌, inl, inr, Bool-cases, true, false, ◌&&◌, not, Option, none, some, List, [],
  ◌∷◌, ◌++◌, ◌⊎◌, All, ap, Text, text, text_eq, text_eq_iff, trim_space, if◌then◌else◌, arith,
}
use lctk.Policy.{
  name_build, name_test, name_lint, Approval, Approvals, Proposal, Resolved, allowed, Status,
  is_name, network_or_default, last_command, last_approval, digest, resolve, describe_one,
  check_approval, mark_approved,
}

-- The names of the commands that there are.
abbrev pub Known : Text → Type 0
Known n = (n ≡ text "build") ⊎ (n ≡ text "test") ⊎ (n ≡ text "lint")

is_name_iff : (n : Text) → (is_name n ≡ true) ↔ Known n
unfolding is_name
is_name_iff n = (
  λ h.
      ground (arith, h, text_eq_iff n name_build, text_eq_iff n name_test, text_eq_iff n name_lint),
  λ h.
      ground (arith, h, text_eq_iff n name_build, text_eq_iff n name_test, text_eq_iff n name_lint),
)

-- The last element of a name.
abbrev pub IsLast : {A : Type 0} → (A → Text) → Text → List A → A → Type 0
IsLast {A} name n xs x =
    (before after : List A) × (xs ≡ before ++ x ∷ after)
    × (name x ≡ n)
    × All (λ y. name y ≢ n) after

-- There is one, or the name is nowhere.
named_or_absent :
    {A : Type 0}
    → (name : A → Text) (n : Text) (xs : List A)
    → ((x : A) × IsLast name n xs x) ⊎ All (λ y. name y ≢ n) xs
named_or_absent name n [] = inr tt
named_or_absent name n (x ∷ xs) = elim (named_or_absent name n xs) [
  | inl (y, (before, after, e, named, rest)) ↦
      inl (y, (x ∷ before, after, ap (λ m. x ∷ m) e, named, rest))
  | inr nowhere ↦ elim (Bool-cases (text_eq (name x) n)) [
    | inl same ↦ inl (x, ([], xs, refl, (text_eq_iff (name x) n).0 same, nowhere))
    | inr other ↦ inr (λ e. cc ((text_eq_iff (name x) n).1 e, other), nowhere)
  ]
]

last_command-absent :
    (n found : Text) (ps : List Proposal)
    → All (λ p. p.name ≢ n) ps
    → last_command n found ps ≡ found
unfolding last_command
last_command-absent n found [] h = refl
last_command-absent n found (p ∷ ps) h =
    ground (arith, text_eq_iff p.name n, last_command-absent n found ps h.1)

last_command-from :
    (n found : Text) (before after : List Proposal) (p : Proposal)
    → p.name ≡ n
    → All (λ q. q.name ≢ n) after
    → last_command n found (before ++ p ∷ after) ≡ trim_space p.command
unfolding last_command
last_command-from n found [] after p named h =
    rw ((text_eq_iff p.name n).1 named, last_command)
      (last_command-absent n (trim_space p.command) after h)
last_command-from n found (q ∷ before) after p named h =
    last_command-from n (if text_eq q.name n then trim_space q.command else found) before after p
      named h

last_command-IsLast :
    (n found : Text) (ps : List Proposal) (p : Proposal)
    → IsLast (λ q. q.name) n ps p
    → last_command n found ps ≡ trim_space p.command
last_command-IsLast n found ps p (before, after, e, named, h) =
    rw e (last_command-from n found before after p named h)

last_approval-absent :
    (n : Text) (found : Option Approval) (bs : List Approval)
    → All (λ b. b.name ≢ n) bs
    → last_approval n found bs ≡ found
unfolding last_approval
last_approval-absent n found [] h = refl
last_approval-absent n found (b ∷ bs) h =
    ground (arith, text_eq_iff b.name n, last_approval-absent n found bs h.1)

last_approval-from :
    (n : Text) (found : Option Approval) (before after : List Approval) (a : Approval)
    → a.name ≡ n
    → All (λ b. b.name ≢ n) after
    → last_approval n found (before ++ a ∷ after) ≡ some a
unfolding last_approval
last_approval-from n found [] after a named h =
    rw ((text_eq_iff a.name n).1 named, last_approval) (last_approval-absent n (some a) after h)
last_approval-from n found (b ∷ before) after a named h =
    last_approval-from n (if text_eq b.name n then some b else found) before after a named h

last_approval-IsLast :
    (n : Text) (found : Option Approval) (bs : List Approval) (a : Approval)
    → IsLast (λ b. b.name) n bs a
    → last_approval n found bs ≡ some a
last_approval-IsLast n found bs a (before, after, e, named, h) =
    rw e (last_approval-from n found before after a named h)

-- What the loops find is the last.
command_found :
    (n : Text) (ps : List Proposal)
    → last_command n [] ps ≢ []
    → (p : Proposal) × IsLast (λ q. q.name) n ps p × (last_command n [] ps ≡ trim_space p.command)
command_found n ps full = elim (named_or_absent (λ (q : Proposal). q.name) n ps) [
  | inl (p, last) ↦ (p, last, last_command-IsLast n [] ps p last)
  | inr nowhere ↦ absurd (full (last_command-absent n [] ps nowhere))
]

approval_found :
    (n : Text) (bs : List Approval) (a : Approval)
    → last_approval n none bs ≡ some a
    → IsLast (λ b. b.name) n bs a
approval_found n bs a found = elim (named_or_absent (λ (b : Approval). b.name) n bs) [
  | inl (b, last) ↦
      let same : b ≡ a = cc (last_approval-IsLast n none bs b last, found) in rw same at last
  | inr nowhere ↦ absurd (cc (last_approval-absent n none bs nowhere, found))
]

module _ (hash : Text → Text) where
  abbrev Fixed : Text → Text → Approvals → Resolved → Option Approval → Type 0
  Fixed n command s r o =
      (a : Approval) × (o ≡ some a)
      × (a.digest ≡ digest hash command)
      × (trim_space s.image ≢ [])
      × (r ≡ record {
        name = n;
        command = command;
        image = trim_space s.image;
        network = network_or_default s;
      })

  check_approval-allowed :
      (o : Option Approval) (n command : Text) (s : Approvals) (r : Resolved)
      → (check_approval hash o n command s ≡ allowed r) ↔ Fixed n command s r o
  unfolding check_approval
  check_approval-allowed none n command s r = (λ h. cc, λ h. cc (h.1))
  check_approval-allowed (some a) n command s r = (
    λ h. (
      a,
      refl,
      ground (arith, text_eq_iff a.digest (digest hash command)),
      ground (arith, text_eq_iff (trim_space s.image) []),
      ground arith,
    ),
    λ h.
        ground (
          arith,
          h,
          text_eq_iff a.digest (digest hash command),
          text_eq_iff (trim_space s.image) [],
        ),
  )

  -- In terms of what the two loops found.
  resolve_found :
      (n : Text) (ps : List Proposal) (s : Approvals) (r : Resolved)
      → (resolve hash n ps s ≡ allowed r) ↔ (
          (is_name n ≡ true)
          × (last_command n [] ps ≢ [])
          × (a : Approval) × (last_approval n none s.approvals ≡ some a)
          × (a.digest ≡ digest hash (last_command n [] ps))
          × (trim_space s.image ≢ [])
          × (r ≡ record {
            name = n;
            command = last_command n [] ps;
            image = trim_space s.image;
            network = network_or_default s;
          }))
  unfolding resolve
  resolve_found n ps s r =
      let command = last_command n [] ps in
      let fixed = check_approval-allowed (last_approval n none s.approvals) n command s r in
      (
        λ h.
            let (a, found, same, image, what) = fixed.0 (ground (arith, h)) in
            (
              ground (arith, h),
              ground (arith, h, text_eq_iff command []),
              a,
              found,
              same,
              image,
              what,
            ),
        λ h. ground (arith, h, text_eq_iff command [], fixed.1 (h.2, h.3, h.4, h.5, h.6)),
      )

  -- A command is allowed exactly when its name is build, test or lint, the manifest has a last
  -- proposal of the name, whose trimmed text is not empty, there is a last approval of the name,
  -- whose digest is the hash of that text, and an image is named; and then what runs is that text
  -- in that image, with the full network if it was granted and with none if not.
  pub resolve_allowed :
      (n : Text) (ps : List Proposal) (s : Approvals) (r : Resolved)
      → (resolve hash n ps s ≡ allowed r) ↔ (
          Known n
          × (p : Proposal) × IsLast (λ q. q.name) n ps p
          × (trim_space p.command ≢ [])
          × (a : Approval) × IsLast (λ b. b.name) n s.approvals a
          × (a.digest ≡ hash (trim_space (trim_space p.command)))
          × (trim_space s.image ≢ [])
          × (r ≡ record {
            name = n;
            command = trim_space p.command;
            image = trim_space s.image;
            network = if text_eq s.network (text "full") then text "full" else text "none";
          }))
  unfolding digest network_or_default
  resolve_allowed n ps s r =
      let loops = resolve_found n ps s r in
      (
        λ h.
            let (known, full, a, found, same, image, what) = loops.0 h in
            let (p, p_last, e) = command_found n ps full in
            let a_last = approval_found n s.approvals a found in
            (
              (is_name_iff n).0 known,
              p,
              p_last,
              rw e at full,
              a,
              a_last,
              rw e at same,
              image,
              rw e at what,
            ),
        λ (known, p, p_last, full, a, a_last, same, image, what).
            let e = last_command-IsLast n [] ps p p_last in
            loops.1 (
              (is_name_iff n).1 known,
              rw e full,
              a,
              last_approval-IsLast n none s.approvals a a_last,
              rw e same,
              image,
              rw e what,
            ),
      )

  -- What the loop of Describe has found so far agrees with what the loop of Resolve has found.
  abbrev Agrees : Status → Option Approval → Type 0
  Agrees st none = st.approved ≡ false
  Agrees st (some a) =
      (st.approved ≡ true)
      × (st.changed ≡ (st.proposed && not (text_eq a.digest (digest hash st.command))))

  record Marked (st st' : Status) (o : Option Approval) : Type 0 where
    name_kept : st'.name ≡ st.name
    command_kept : st'.command ≡ st.command
    proposed_kept : st'.proposed ≡ st.proposed
    agrees : Agrees st' o

  mark_approved-Marked :
      (st : Status) (o : Option Approval) (rest : List Approval)
      → Agrees st o
      → Marked st (mark_approved hash st rest) (last_approval st.name o rest)
  unfolding mark_approved last_approval
  mark_approved-Marked st o [] h = record {
    name_kept = refl;
    command_kept = refl;
    proposed_kept = refl;
    agrees = h;
  }
  mark_approved-Marked st o (a ∷ rest) h = elim (Bool-cases (text_eq a.name st.name)) [
    | inl same ↦
        let st' = record st {
          approved = true;
          approved_at = a.approved_at;
          changed = st.proposed && not (text_eq a.digest (digest hash st.command));
        } in
        let m = mark_approved-Marked st' (some a) rest (refl, refl) in
        rw same (record {
          name_kept = m.name_kept;
          command_kept = m.command_kept;
          proposed_kept = m.proposed_kept;
          agrees = m.agrees;
        })
    | inr other ↦ rw other (mark_approved-Marked st o rest h)
  ]

  Agrees-runnable :
      (st : Status) (o : Option Approval) (n command : Text) (s : Approvals)
      → st.proposed ≡ not (text_eq command [])
      → st.command ≡ command
      → Agrees st o
      → text_eq command [] ≡ false
      → ((st.proposed && st.approved && not st.changed && not (text_eq (trim_space s.image) []))
          ≡ true)
        ↔ ((r : Resolved) × (check_approval hash o n command s ≡ allowed r))
  unfolding check_approval
  Agrees-runnable st none n command s p c h k = (λ q. ground (arith, q), λ q. cc (q.1))
  Agrees-runnable st (some a) n command s p c h k = (
    λ q. (
      record {
        name = n;
        command = command;
        image = trim_space s.image;
        network = network_or_default s;
      },
      ground (arith, q),
    ),
    λ q. ground (arith, q.1),
  )

  -- For a name that is known, the status line says that the command can run exactly when Resolve
  -- allows it.
  pub describe_one-resolve :
      (n : Text) (ps : List Proposal) (s : Approvals)
      → is_name n ≡ true
      → ((describe_one hash ps s n).runnable ≡ true)
        ↔ ((r : Resolved) × (resolve hash n ps s ≡ allowed r))
  unfolding describe_one resolve
  describe_one-resolve n ps s known =
      let command = last_command n [] ps in
      let st : Status = record {
        name = n;
        command = command;
        proposed = not (text_eq command []);
        approved = false;
        changed = false;
        runnable = false;
        approved_at = 0;
      } in
      let m = mark_approved-Marked st none s.approvals refl in
      elim (Bool-cases (text_eq command [])) [
        | inl empty ↦ (
          λ q. absurd (ground (arith, q, empty, m.proposed_kept)),
          λ q. absurd (ground (arith, q.1, empty, known)),
        )
        | inr some_text ↦
            let k =
              Agrees-runnable (mark_approved hash st s.approvals) (last_approval n none s.approvals)
                n command s m.proposed_kept m.command_kept m.agrees some_text in
            (
              λ q. let (r, h) = k.0 q in (r, ground (arith, h, known, some_text)),
              λ q. k.1 (q.0, ground (arith, q.1, known, some_text)),
            )
      ]
