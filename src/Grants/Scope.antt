-- ===== src/Grants/Scope.antt =====
-- Whom Resolve lets in.
use lctk.Prelude.{
  ℕ, ◌≡◌, ◌≢◌, ◌⊎◌, inl, inr, ◌↔◌, Bool-cases, true, false, Option, none, some, List, [], ◌∷◌, Text,
  text_eq, text_eq_iff, trim_space, Any, arith, if◌then◌else◌, if◌then◌else◌,
}
use lctk.Grants.{Grant, found, resolve, is_expired, permits, last_match, check_grant}

check_grant-found :
    (o : Option Grant) (p : Text) (now : ℕ) (g : Grant)
    → (check_grant p now o ≡ found g)
      ↔ ((o ≡ some g) × (g.revoked ≡ false) × (is_expired now g ≡ false) × (permits p g ≡ true))
unfolding check_grant
check_grant-found none p now g = (λ h. cc, λ h. cc (h.0))
check_grant-found (some k) p now g = (λ h. ground (arith, h), λ h. ground (arith, h))

last_match-member :
    (token : Text) (o : Option Grant) (s : List Grant) (g : Grant)
    → last_match token o s ≡ some g
    → (o ≡ some g) ⊎ Any (λ h. (h ≡ g) × (h.token ≡ token)) s
unfolding last_match
last_match-member token o [] g h = inl h
last_match-member token o (k ∷ s) g h =
    elim (last_match-member token (if text_eq k.token token then some k else o) s g h) [
      | inl e ↦ ground (arith, e, text_eq_iff k.token token)
      | inr m ↦ inr (inr m)
    ]

-- If a credential is accepted for a project, the grant is one of the list and carries exactly the
-- presented token without the space around it, which is not empty; it is neither revoked nor
-- expired, and it permits that project.
pub resolve-found :
    (token p : Text) (now : ℕ) (s : List Grant) (g : Grant)
    → resolve token p now s ≡ found g
    → Any (λ h. (h ≡ g) × (h.token ≡ trim_space token)) s
      × (trim_space token ≢ [])
      × (g.revoked ≡ false)
      × (is_expired now g ≡ false)
      × (permits p g ≡ true)
unfolding resolve
resolve-found token p now s g h =
    let presented = trim_space token in
    elim (Bool-cases (text_eq presented [])) [
      | inl empty ↦ absurd (ground (arith, h, empty))
      | inr given ↦
          let (hit, live, unexpired, allowed) =
            (check_grant-found (last_match presented none s) p now g).0 (rw given at h) in
          elim (last_match-member presented none s g hit) [
            | inl e ↦ absurd (ground (arith, e))
            | inr m ↦ (m, ground (arith, given, text_eq_iff presented []), live, unexpired, allowed)
          ]
    ]
