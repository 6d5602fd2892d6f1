-- ===== src/Grants/Issuing.antt =====
-- Issue and EnsureForProject, and the names of the environment variables.
use lctk.Prelude.{
  ℕ, ◌+◌, ◌-◌, ◌%◌, ◌≡◌, ◌≢◌, refl, ap, suc, true, false, ◌||◌, ◌&&◌, Option, none, some, List, [],
  ◌∷◌, ◌++◌, Text, text_eq, text_eq_iff, trim_space, All, All-append, arith, map, length,
  length-append, leb, ◌==◌, if◌then◌else◌,
}
use lctk.Grants.{
  Grant, found, refused, resolve, is_expired, permits, contains, last_match, check_grant, issue,
  second, insert_text, sort_texts, env_var_name, env_char, env_var_prefix, default_client,
  project_not_permitted,
}

contains-insert :
    (p s : Text) (ts : List Text) → contains p (insert_text s ts) ≡ (text_eq s p || contains p ts)
unfolding contains insert_text
contains-insert p s [] = refl
contains-insert p s (t ∷ ts) = ground (arith, contains-insert p s ts)

contains-sort : (p : Text) (ts : List Text) → contains p (sort_texts ts) ≡ contains p ts
unfolding contains sort_texts
contains-sort p [] = refl
contains-sort p (t ∷ ts) = ground (arith, contains-insert p t (sort_texts ts), contains-sort p ts)

last_match-snoc :
    (token : Text) (o : Option Grant) (s : List Grant) (g : Grant)
    → g.token ≡ token
    → last_match token o (s ++ g ∷ []) ≡ some g
unfolding last_match
last_match-snoc token o [] g e = ground (arith, text_eq_iff g.token token)
last_match-snoc token o (h ∷ s) g e =
    last_match-snoc token (if text_eq h.token token then some h else o) s g e

-- A grant without an expiry that is issued for some projects is found at any later time when its
-- token, which is not empty and has no space around it, is presented for one of those projects;
-- for any other project the token is refused as not permitted.
pub issue-resolve :
    (token id client p q : Text) (ps : List Text) (now later : ℕ) (s : List Grant)
    → trim_space token ≡ token
    → token ≢ []
    → let (t, o) = issue (some (token, id)) client (p ∷ ps) 0 now s in
      (g : Grant) × (o ≡ found g)
      × (resolve token q later t
          ≡ (if contains q (p ∷ ps) then found g else refused project_not_permitted))
unfolding issue resolve check_grant permits is_expired
issue-resolve token id client p q ps now later s bare named =
    let g : Grant = record {
      id = id;
      client = if text_eq client [] then default_client else client;
      project_ids = sort_texts (p ∷ ps);
      token = token;
      issued_at = now - now % second;
      expires_at = 0;
      revoked = false;
    } in
    let hit = last_match-snoc token none s g refl in
    let fits = contains-sort q (p ∷ ps) in
    (g, refl, rw (bare, hit) (ground (arith, named, text_eq_iff token [], fits)))

abbrev IsPlain : ℕ → Type 0
IsPlain c = ((leb b'A' c && leb c b'Z') || (leb b'0' c && leb c b'9') || (c == b'_')) ≡ true

env_char-IsPlain : (c : ℕ) → IsPlain (env_char c)
unfolding env_char
env_char-IsPlain c = ground arith

map-env_char : (id : Text) → All IsPlain (map env_char id) × (length (map env_char id) ≡ length id)
map-env_char [] = (tt, refl)
map-env_char (c ∷ id) =
    let (plain, same) = map-env_char id in ((env_char-IsPlain c, plain), ap suc same)

-- The name of a project's variable holds capital letters, digits and underscores only, and one of
-- them for each byte of the project's id after a prefix of eleven.
pub env_var_name_lem :
    (id : Text)
    → All
        (λ c. ((leb b'A' c && leb c b'Z') || (leb b'0' c && leb c b'9') || (c == b'_')) ≡ true)
        (env_var_name id)
      × (length (env_var_name id) ≡ 11 + length id)
unfolding env_var_name
env_var_name_lem id =
    let (plain, same) = map-env_char id in
    let prefix : All IsPlain env_var_prefix = ground arith in
    (
      All-append IsPlain env_var_prefix (map env_char id) prefix plain,
      omega (arith, same, length-append env_var_prefix (map env_char id)),
    )
