-- ===== src/Grants/Revoking.antt =====
-- RevokeForProject and Revoke, seen through Resolve.
use lctk.Prelude.{
  ℕ, ◌≡◌, ◌≢◌, refl, ap, ◌∙◌, Bool, true, false, Option, none, some, List, [], ◌∷◌, Text, text_eq,
  text_eq_iff, trim_space, arith, map, length, ◌==◌, if◌then◌else◌,
}
use mathlib.Core.Option
use lctk.Grants.{
  Grant, Outcome, found, refused, resolve, is_expired, permits, contains, last_match, check_grant,
  revoke_for_project, withdraw, without,
}

contains-without_self : (p : Text) (qs : List Text) → contains p (without p qs) ≡ false
unfolding contains without
contains-without_self p [] = refl
contains-without_self p (q ∷ qs) = ground (arith, contains-without_self p qs)

contains-without : (p r : Text) (qs : List Text) → r ≢ p → contains r (without p qs) ≡ contains r qs
unfolding contains without
contains-without p r [] n = refl
contains-without p r (q ∷ qs) n =
    ground (arith, n, text_eq_iff q p, text_eq_iff q r, contains-without p r qs n)

-- A single project id that is contained is the one that is asked for.
contains-one :
    (p r : Text) (qs : List Text)
    → (length qs == 1) ≡ true
    → contains p qs ≡ true
    → r ≢ p
    → contains r qs ≡ false
unfolding contains
contains-one p r [] one h n = cc
contains-one p r (q ∷ []) one h n = ground (arith, n, text_eq_iff q p, text_eq_iff q r)
contains-one p r (q ∷ t ∷ qs) one h n = absurd (ground (arith, one))

-- What the withdrawal of a project does to one grant.
withdraw-out :
    (p : Text) (now : ℕ) (g k : Grant) → check_grant p now (some (withdraw p g)) ≢ found k
unfolding withdraw check_grant permits
withdraw-out p now g k h = ground (arith, h, contains-without_self p g.project_ids)

-- Another project is let in as before, though the grant's list may be shorter.
abbrev pub accepts : Outcome → Bool
accepts (found g) = true
accepts (refused e) = false

withdraw-others :
    (p r : Text) (now : ℕ) (g : Grant)
    → r ≢ p
    → accepts (check_grant r now (some (withdraw p g))) ≡ accepts (check_grant r now (some g))
unfolding withdraw check_grant permits is_expired
withdraw-others p r now g n =
    ground (arith, n, contains-without p r g.project_ids n, contains-one p r g.project_ids)

chosen-map :
    (w : Grant → Grant) (b : Bool) (g : Grant) (o : Option Grant)
    → (if b then some (w g) else Option.map w o) ≡ Option.map w (if b then some g else o)
chosen-map w true g o = refl
chosen-map w false g o = refl

last_match-map :
    (w : Grant → Grant) (token : Text) (o : Option Grant) (s : List Grant)
    → ((g : Grant) → (w g).token ≡ g.token)
    → last_match token (Option.map w o) (map w s) ≡ Option.map w (last_match token o s)
unfolding last_match
last_match-map w token o [] h = refl
last_match-map w token o (g ∷ s) h =
    let same = text_eq g.token token in
    ap (λ t. last_match token (if text_eq t token then some (w g) else Option.map w o) (map w s))
      (h g)
    ∙ ap (λ k. last_match token k (map w s)) (chosen-map w same g o)
    ∙ last_match-map w token (if same then some g else o) s h

withdraw-token : (p : Text) (g : Grant) → (withdraw p g).token ≡ g.token
unfolding withdraw
withdraw-token p g = ground arith

withdrawn :
    (p token : Text) (s : List Grant)
    → last_match token none (map (withdraw p) s) ≡ Option.map (withdraw p) (last_match token none s)
withdrawn p token s = last_match-map (withdraw p) token none s (withdraw-token p)

check-out :
    (p : Text) (now : ℕ) (o : Option Grant) (k : Grant)
    → check_grant p now (Option.map (withdraw p) o) ≢ found k
check-out p now none k h = unfold check_grant in cc
check-out p now (some g) k h = withdraw-out p now g k h

check-others :
    (p r : Text) (now : ℕ) (o : Option Grant)
    → r ≢ p
    → accepts (check_grant r now (Option.map (withdraw p) o)) ≡ accepts (check_grant r now o)
check-others p r now none n = refl
check-others p r now (some g) n = withdraw-others p r now g n

-- After the grants of a project are revoked no credential is accepted for it at any time, and for
-- every other project each credential is accepted or refused as it was before.
pub revoke_for_project-resolve :
    (p r token : Text) (now : ℕ) (g : Grant) (s : List Grant)
    → r ≢ p
    → let t = (revoke_for_project p s).0 in
      (resolve token p now t ≢ found g)
      × (accepts (resolve token r now t) ≡ accepts (resolve token r now s))
unfolding resolve revoke_for_project
revoke_for_project-resolve p r token now g s n =
    let presented = trim_space token in
    let old = last_match presented none s in
    rw (withdrawn p presented s)
      (λ h. check-out p now old g (ground (arith, h)), ground (arith, check-others p r now old n))
