-- ===== src/Policy.antt =====
-- internal/commandpolicy/policy.go: which commands a project may run. The owner approves the text of
-- a command that a manifest proposes, and a client runs it by name. SHA-256 in hexadecimal is the
-- parameter `hash`; formatted messages are left out of the errors.
pub mod Decision
pub mod Approving
use lctk.Prelude.{
  ℕ, Bool, true, false, ◌&&◌, ◌||◌, not, Option, none, some, List, [], ◌∷◌, Text, text, text_eq,
  text_lt, trim_space, if◌then◌else◌, map,
}

abbrev pub name_build : Text
name_build = text "build"

abbrev pub name_test : Text
name_test = text "test"

abbrev pub name_lint : Text
name_lint = text "lint"

abbrev pub names : List Text
names = name_build ∷ name_test ∷ name_lint ∷ []

pub data PolicyError : Type 0 where
  unknown_name not_proposed not_approved changed no_image : PolicyError

pub record Approval : Type 0 where
  pub name : Text
  pub digest : Text
  pub approved_at : ℕ

pub record Approvals : Type 0 where
  pub image : Text
  pub network : Text
  pub approvals : List Approval

pub record Proposal : Type 0 where
  pub name : Text
  pub command : Text

pub record Resolved : Type 0 where
  pub name : Text
  pub command : Text
  pub image : Text
  pub network : Text

pub data Outcome : Type 0 where
  allowed : Resolved → Outcome
  refused : PolicyError → Outcome

-- Valid.
unfoldable pub is_name : Text → Bool
is_name n = text_eq n name_build || text_eq n name_test || text_eq n name_lint

-- ValidNetwork.
unfoldable pub is_network : Text → Bool
is_network p = text_eq p [] || text_eq p (text "none") || text_eq p (text "full")

unfoldable pub network_or_default : Approvals → Text
network_or_default s = if text_eq s.network (text "full") then text "full" else text "none"

-- The loop of Approve over the approvals that are there: the first of the name is replaced.
unfoldable pub replace_first : Approval → List Approval → Option (List Approval)
replace_first a [] = none
replace_first a (b ∷ bs) =
    if text_eq b.name a.name
    then some (record b { digest = a.digest; approved_at = a.approved_at } ∷ bs)
    else elim (replace_first a bs) [ none ↦ none | some cs ↦ some (b ∷ cs) ]

-- sort.Slice by name.
unfoldable pub insert_by_name : Approval → List Approval → List Approval
insert_by_name a [] = a ∷ []
insert_by_name a (b ∷ bs) = if text_lt a.name b.name then a ∷ b ∷ bs else b ∷ insert_by_name a bs

unfoldable pub sort_by_name : List Approval → List Approval
unfolding insert_by_name
sort_by_name [] = []
sort_by_name (a ∷ rest) = insert_by_name a (sort_by_name rest)

unfoldable pub remove_first : Text → List Approval → List Approval × Bool
remove_first n [] = ([], false)
remove_first n (b ∷ bs) =
    let (cs, found) = remove_first n bs in if text_eq b.name n then (bs, true) else (b ∷ cs, found)

-- Revoke.
unfoldable pub revoke : Text → Approvals → Approvals × Bool
unfolding remove_first
revoke n s =
    let (rest, found) = remove_first n s.approvals in (record s { approvals = rest }, found)

-- The command of the last proposal of a name, and the last approval of a name, as the loops of
-- Resolve find them.
unfoldable pub last_command : Text → Text → List Proposal → Text
last_command n found [] = found
last_command n found (p ∷ ps) =
    last_command n (if text_eq p.name n then trim_space p.command else found) ps

unfoldable pub last_approval : Text → Option Approval → List Approval → Option Approval
last_approval n found [] = found
last_approval n found (a ∷ rest) = last_approval n (if text_eq a.name n then some a else found) rest

pub record Status : Type 0 where
  pub name : Text
  pub command : Text
  pub proposed : Bool
  pub approved : Bool
  pub changed : Bool
  pub runnable : Bool
  pub approved_at : ℕ

module _ (hash : Text → Text) where
  unfoldable pub digest : Text → Text
  digest command = hash (trim_space command)

  -- Approve. The new approval joins a sorted list.
  unfoldable pub approve : Text → Text → ℕ → Approvals → Approvals × Option PolicyError
  unfolding replace_first sort_by_name digest
  approve n command now s =
      if not (is_name n)
      then (s, some unknown_name)
      else if text_eq (trim_space command) []
      then (s, some not_proposed)
      else let a : Approval = record { name = n; digest = digest command; approved_at = now } in
        elim (replace_first a s.approvals) [
          | some rest ↦ (record s { approvals = rest }, none)
          | none ↦ (record s { approvals = sort_by_name (a ∷ s.approvals) }, none)
        ]

  check_approval : Option Approval → Text → Text → Approvals → Outcome
  check_approval none n command s = refused not_approved
  check_approval (some a) n command s =
      if not (text_eq a.digest (digest command))
      then refused changed
      else if text_eq (trim_space s.image) []
      then refused no_image
      else allowed (record {
        name = n;
        command = command;
        image = trim_space s.image;
        network = network_or_default s;
      })

  -- Resolve.
  unfoldable pub resolve : Text → List Proposal → Approvals → Outcome
  unfolding check_approval
  resolve n ps s =
      let command = last_command n [] ps in
      if not (is_name n)
      then refused unknown_name
      else if text_eq command []
      then refused not_proposed
      else check_approval (last_approval n none s.approvals) n command s

  -- The loop of Describe over the approvals.
  mark_approved : Status → List Approval → Status
  mark_approved st [] = st
  mark_approved st (a ∷ rest) =
      mark_approved
        (if text_eq a.name st.name
          then record st {
            approved = true;
            approved_at = a.approved_at;
            changed = st.proposed && not (text_eq a.digest (digest st.command));
          }
          else st)
        rest

  -- One round of Describe. The map of the manifest's commands keeps the last of each name.
  unfoldable pub describe_one : List Proposal → Approvals → Text → Status
  unfolding mark_approved
  describe_one ps s n =
      let command = last_command n [] ps in
      let st =
        mark_approved
          (record {
            name = n;
            command = command;
            proposed = not (text_eq command []);
            approved = false;
            changed = false;
            runnable = false;
            approved_at = 0;
          })
          s.approvals in
      record st {
        runnable =
            st.proposed && st.approved && not st.changed && not (text_eq (trim_space s.image) []);
      }

  -- Describe.
  unfoldable pub describe : List Proposal → Approvals → List Status
  unfolding describe_one
  describe ps s = map (describe_one ps s) names
