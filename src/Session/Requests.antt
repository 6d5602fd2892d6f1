-- ===== src/Session/Requests.antt =====
-- Which requests the admin surface lets through.
use lctk.Prelude.{
  ℕ, ◌≤◌, ◌≡◌, ◌≢◌, refl, ap, ◌⊎◌, inl, inr, ◌↔◌, true, Option, none, some, [], Text, text_eq_iff,
  lookup, lookup-delete, HasKeys, delete-HasKeys, arith,
}
use lctk.Session.{
  Store, Session, Request, Net, Granted, authenticate, SessionError, authorize, revoke, close,
  loopback_host, csrf_of, denied, authenticate_cookie, check_session, is_live,
}

check_session-csrf :
    (o : Option Session) (now : ℕ) (token csrf : Text) (s : Store)
    → ((check_session now token o s).1 ≡ csrf_of csrf)
      ↔ ((found : Session) × (o ≡ some found) × (now ≤ found.expires) × (csrf ≡ found.csrf))
unfolding check_session is_live
check_session-csrf none now token csrf s = (λ h. cc, λ h. cc (h.1))
check_session-csrf (some found) now token csrf s =
    (λ h. (found, refl, ground (arith, h), ground (arith, h)), λ h. ground (arith, h))

authenticate_cookie-csrf :
    (o : Option Text) (now : ℕ) (csrf : Text) (s : Store)
    → ((authenticate_cookie now o s).1 ≡ csrf_of csrf) ↔ (
        (token : Text) × (o ≡ some token)
        × (token ≢ [])
        × (found : Session) × (lookup token s.sessions ≡ some found)
        × (now ≤ found.expires)
        × (csrf ≡ found.csrf))
unfolding authenticate_cookie
authenticate_cookie-csrf none now csrf s = (λ h. cc, λ h. cc (h.1))
authenticate_cookie-csrf (some token) now csrf s =
    let inner = check_session-csrf (lookup token s.sessions) now token csrf s in
    (
      λ h.
          let (found, at, live, same) = inner.0 (ground (arith, h)) in
          (token, refl, ground (arith, h, text_eq_iff token []), found, at, live, same),
      λ h.
          let same : h.0 ≡ token = ground (arith, h.1) in
          let back = inner.1 (h.3, rw same at h.4, h.5, h.6) in
          ground (arith, back, h.2, same, text_eq_iff token []),
    )

-- A request is let in with a token exactly so.
authenticate-csrf :
    (net : Net) (now : ℕ) (r : Request) (csrf : Text) (s : Store)
    → ((authenticate net now r s).1 ≡ csrf_of csrf) ↔ (
        (loopback_host net r.host ≡ true) × ((authenticate_cookie now r.cookie s).1 ≡ csrf_of csrf))
unfolding authenticate
authenticate-csrf net now r csrf s =
    (λ h. (ground (arith, h), ground (arith, h)), λ h. ground (arith, h))

Granted-cases :
    (g : Granted) → ((csrf : Text) × (g ≡ csrf_of csrf)) ⊎ ((why : SessionError) × (g ≡ denied why))
Granted-cases (csrf_of csrf) = inl (csrf, refl)
Granted-cases (denied why) = inr (why, refl)

-- A request that changes state goes through exactly when its host is loopback, its cookie is a
-- token that is not empty and names a session that has not expired, and its header is that
-- session's CSRF token.
pub authorize_iff :
    (net : Net) (now : ℕ) (r : Request) (s : Store)
    → ((authorize net now r s).1 ≡ none) ↔ (
        (loopback_host net r.host ≡ true)
        × (token : Text) × (r.cookie ≡ some token)
        × (token ≢ [])
        × (found : Session) × (lookup token s.sessions ≡ some found)
        × (now ≤ found.expires)
        × (r.csrf_header ≡ found.csrf))
unfolding authorize
authorize_iff net now r s = (
  λ h. elim (Granted-cases (authenticate net now r s).1) [
    | inl (csrf, e) ↦
        let (host, inner) = (authenticate-csrf net now r csrf s).0 e in
        let (token, cookie, named, found, at, live, same) =
          (authenticate_cookie-csrf r.cookie now csrf s).0 inner in
        (
          host,
          token,
          cookie,
          named,
          found,
          at,
          live,
          ground (arith, h, e, same, text_eq_iff r.csrf_header csrf),
        )
    | inr (why, e) ↦ absurd (ground (arith, h, e))
  ],
  λ h.
      let inner =
        (authenticate_cookie-csrf r.cookie now h.4.csrf s).1 (h.1, h.2, h.3, h.4, h.5, h.6, refl) in
      let granted = (authenticate-csrf net now r h.4.csrf s).1 (h.0, inner) in
      ground (arith, granted, h.7, text_eq_iff r.csrf_header h.4.csrf),
)

-- A request with a token as its cookie gets no CSRF token after that token's session is revoked,
-- and none after the store is closed.
pub revoke_final :
    (net : Net) (now : ℕ) (token csrf : Text) (r : Request) (s : Store)
    → r.cookie ≡ some token
    → ((authenticate net now r (revoke token s)).1 ≢ csrf_of csrf)
      × ((authenticate net now r (close s)).1 ≢ csrf_of csrf)
unfolding revoke close lookup
revoke_final net now token csrf r s cookie = (
  λ h.
      let inner = (authenticate-csrf net now r csrf (revoke token s)).0 h in
      let (t, e, _, found, at, _, _) =
        (authenticate_cookie-csrf r.cookie now csrf (revoke token s)).0 inner.1 in
      ground (arith, e, at, lookup-delete token t s.sessions, text_eq_iff token t),
  λ h.
      let inner = (authenticate-csrf net now r csrf (close s)).0 h in
      let (t, e, _, found, at, _, _) =
        (authenticate_cookie-csrf r.cookie now csrf (close s)).0 inner.1 in
      ground (arith, at),
)

abbrev Kept : Text → Store → Store → Type 0
Kept token s t =
    (lookup token t.sessions ≡ lookup token s.sessions) × HasKeys t.sessions × (t.code ≡ s.code)

check_session-Kept :
    (o : Option Session) (now : ℕ) (own token : Text) (s : Store)
    → HasKeys s.sessions
    → own ≢ token
    → Kept token s (check_session now own o s).0
unfolding check_session
check_session-Kept none now own token s keys other = ground (
  arith,
  lookup-delete own token s.sessions,
  text_eq_iff own token,
  delete-HasKeys own s.sessions keys,
)
check_session-Kept (some found) now own token s keys other = ground (
  arith,
  lookup-delete own token s.sessions,
  text_eq_iff own token,
  delete-HasKeys own s.sessions keys,
)

authenticate_cookie-Kept :
    (o : Option Text) (now : ℕ) (token : Text) (s : Store)
    → HasKeys s.sessions
    → o ≢ some token
    → Kept token s (authenticate_cookie now o s).0
unfolding authenticate_cookie
authenticate_cookie-Kept none now token s keys other = (refl, keys, refl)
authenticate_cookie-Kept (some own) now token s keys other = ground (
  arith,
  check_session-Kept (lookup own s.sessions) now own token s keys (λ e. other (ap some e)),
)

-- Authenticating a request leaves the session of every other token, the exchange code, and that
-- each session has its own token.
pub authenticate-others :
    (net : Net) (now : ℕ) (token : Text) (r : Request) (s : Store)
    → HasKeys s.sessions
    → r.cookie ≢ some token
    → (lookup token (authenticate net now r s).0.sessions ≡ lookup token s.sessions)
      × HasKeys (authenticate net now r s).0.sessions
      × ((authenticate net now r s).0.code ≡ s.code)
unfolding authenticate
authenticate-others net now token r s keys other =
    ground (arith, authenticate_cookie-Kept r.cookie now token s keys other)
