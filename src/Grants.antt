-- ===== src/Grants.antt =====
-- internal/projectgrant/grant.go: the credentials that let a client use a project. The random token
-- and id of a new grant are an argument, none where the random source fails. Time 0 is the zero
-- time.Time. A constant-time comparison is equality of texts.
pub mod Scope
pub mod Revoking
pub mod Issuing
use lctk.Prelude.{
  ℕ, ◌+◌, ◌-◌, ◌%◌, Bool, true, false, ◌&&◌, ◌||◌, not, Option, none, some, List, [], ◌∷◌, ◌++◌,
  Text, text, text_eq, text_lt, trim_space, ltb, leb, ◌==◌, if◌then◌else◌, length, map,
}

abbrev pub default_client : Text
default_client = text "lctk-local"

abbrev pub env_var_prefix : Text
env_var_prefix = text "LCTK_TOKEN_"

abbrev pub second : ℕ
second = 1000000000

env_char : ℕ → ℕ
env_char c =
    if leb b'a' c && leb c b'z'
    then c - b'a' + b'A'
    else if (leb b'A' c && leb c b'Z') || (leb b'0' c && leb c b'9')
    then c
    else b'_'

-- EnvVarName, on the bytes of a project id.
unfoldable pub env_var_name : Text → Text
unfolding env_char
env_var_name id = env_var_prefix ++ map env_char id

pub data GrantError : Type 0 where
  no_grant project_not_permitted grant_expired grant_not_found : GrantError
  empty_project no_projects random_failed : GrantError

pub record Grant : Type 0 where
  pub id : Text
  pub client : Text
  pub project_ids : List Text
  pub token : Text
  pub issued_at : ℕ
  pub expires_at : ℕ
  pub revoked : Bool

pub data Outcome : Type 0 where
  found : Grant → Outcome
  refused : GrantError → Outcome

unfoldable pub is_expired : ℕ → Grant → Bool
is_expired now g = not (g.expires_at == 0) && ltb g.expires_at now

unfoldable pub contains : Text → List Text → Bool
contains p [] = false
contains p (q ∷ qs) = text_eq q p || contains p qs

unfoldable pub permits : Text → Grant → Bool
permits p g = contains p g.project_ids

unfoldable pub redacted : Grant → Grant
redacted g = record g { token = [] }

-- sort.Strings.
unfoldable pub insert_text : Text → List Text → List Text
insert_text s [] = s ∷ []
insert_text s (t ∷ ts) = if text_lt s t then s ∷ t ∷ ts else t ∷ insert_text s ts

unfoldable pub sort_texts : List Text → List Text
sort_texts [] = []
sort_texts (s ∷ ss) = insert_text s (sort_texts ss)

-- List: a copy ordered by id.
insert_by_id : Grant → List Grant → List Grant
insert_by_id g [] = g ∷ []
insert_by_id g (h ∷ hs) = if text_lt g.id h.id then g ∷ h ∷ hs else h ∷ insert_by_id g hs

unfoldable pub list : List Grant → List Grant
unfolding insert_by_id
list [] = []
list (g ∷ gs) = insert_by_id g (list gs)

-- A token and an id.
abbrev pub Random : Type 0
Random = Option (Text × Text)

-- Issue.
unfoldable pub issue : Random → Text → List Text → ℕ → ℕ → List Grant → List Grant × Outcome
issue random client [] expires_at now s = (s, refused no_projects)
issue none client (p ∷ ps) expires_at now s = (s, refused random_failed)
issue (some (token, id)) client (p ∷ ps) expires_at now s =
    let g : Grant = record {
      id = id;
      client = if text_eq client [] then default_client else client;
      project_ids = sort_texts (p ∷ ps);
      token = token;
      issued_at = now - now % second;
      expires_at = if expires_at == 0 then 0 else expires_at - expires_at % second;
      revoked = false;
    } in
    (s ++ g ∷ [], found g)

-- Resolve: every grant is compared, and the last that fits counts.
last_match : Text → Option Grant → List Grant → Option Grant
last_match token o [] = o
last_match token o (g ∷ gs) = last_match token (if text_eq g.token token then some g else o) gs

check_grant : Text → ℕ → Option Grant → Outcome
check_grant p now none = refused no_grant
check_grant p now (some g) =
    if g.revoked
    then refused no_grant
    else if is_expired now g
    then refused grant_expired
    else if not (permits p g)
    then refused project_not_permitted
    else found g

unfoldable pub resolve : Text → Text → ℕ → List Grant → Outcome
unfolding last_match check_grant
resolve token p now s =
    let presented = trim_space token in
    if text_eq presented []
    then refused no_grant
    else check_grant p now (last_match presented none s)

-- A grant that is neither revoked nor expired and permits a project.
unfoldable pub is_usable : Text → ℕ → Grant → Bool
is_usable p now g = not g.revoked && not (is_expired now g) && permits p g

first_usable : (Grant → Bool) → List Grant → Option Grant
first_usable test [] = none
first_usable test (g ∷ gs) = if test g then some g else first_usable test gs

-- ForProject.
unfoldable pub for_project : Text → ℕ → List Grant → Outcome
unfolding first_usable
for_project p now s = elim (first_usable (is_usable p now) s) [
  | some g ↦ found g
  | none ↦ refused grant_not_found
]

-- EnsureForProject.
unfoldable pub ensure_for_project : Random → Text → Text → ℕ → List Grant → List Grant × Outcome
unfolding first_usable
ensure_for_project random p client now s =
    let name = if text_eq client [] then default_client else client in
    if text_eq p []
    then (s, refused empty_project)
    else elim (first_usable (λ g. text_eq g.client name && is_usable p now g) s) [
      | some g ↦ (s, found g)
      | none ↦ issue random name (p ∷ []) 0 now s
    ]

-- Revoke: the first grant of the id.
unfoldable pub revoke : Text → List Grant → List Grant × Outcome
revoke id [] = ([], refused grant_not_found)
revoke id (g ∷ gs) =
    let (hs, o) = revoke id gs in
    let h = record g { revoked = true } in
    if text_eq g.id id then (h ∷ gs, found h) else (g ∷ hs, o)

unfoldable pub without : Text → List Text → List Text
without p [] = []
without p (q ∷ qs) = if text_eq q p then without p qs else q ∷ without p qs

withdraw : Text → Grant → Grant
unfolding without
withdraw p g =
    if not (permits p g)
    then g
    else if length g.project_ids == 1
    then record g { revoked = true }
    else record g { project_ids = without p g.project_ids }

affected : Text → List Grant → ℕ
affected p [] = 0
affected p (g ∷ gs) = (if permits p g then 1 else 0) + affected p gs

-- RevokeForProject, with the number of grants that it touched.
unfoldable pub revoke_for_project : Text → List Grant → List Grant × ℕ
unfolding withdraw affected
revoke_for_project p s = (map (withdraw p) s, affected p s)
