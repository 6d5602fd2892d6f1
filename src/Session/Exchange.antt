-- ===== src/Session/Exchange.antt =====
-- The exchange code is good for one session.
use lctk.Prelude.{
  ℕ, ◌+◌, ◌≡◌, ◌≢◌, true, some, [], Text, text_eq_iff, lookup, insert, lookup-insert, lookup-keep,
  insert-HasKeys, keep-HasKeys, HasKeys, arith, leb, if◌then◌else◌,
}
use lctk.Files.{Faults, WriteError, whole}
use lctk.Files.Atomic.{write_file-all_or_nothing}
use lctk.Session.{
  Store, Session, Secrets, Request, Net, exchange, opened, rejected, bad_code, write_error,
  open_session, sweep, write_locked, is_live, authenticate, loopback_host, csrf_of, denied,
  no_session, session_lifetime, authenticate_cookie, check_session,
}

-- A code that was not refused, where the next one differs from it, is refused from then on, and
-- the refusal changes nothing.
pub exchange_once :
    (f g : Faults) (r q : Secrets) (now later : ℕ) (code : Text) (s : Store)
    → r.next_code ≢ code
    → (exchange f r now code s).1 ≢ rejected bad_code
    → exchange g q later code (exchange f r now code s).0
      ≡ ((exchange f r now code s).0, rejected bad_code)
unfolding exchange open_session sweep
exchange_once f g r q now later code s fresh used =
    ground (arith, text_eq_iff code s.code, text_eq_iff code r.next_code)

-- The session that an exchange opens.
pub exchange-lookup :
    (f : Faults) (r : Secrets) (now : ℕ) (code : Text) (s : Store)
    → HasKeys s.sessions
    → (exchange f r now code s).1 ≡ opened r.token r.csrf
    → (lookup r.token (exchange f r now code s).0.sessions
        ≡ some (record { csrf = r.csrf; expires = now + session_lifetime }))
      × HasKeys (exchange f r now code s).0.sessions
unfolding exchange open_session sweep is_live
exchange-lookup f r now code s keys ok =
    let new : Session = record { csrf = r.csrf; expires = now + session_lifetime } in
    let all = insert r.token new s.sessions in
    let all_keys = insert-HasKeys r.token new s.sessions keys in
    ground (
      arith,
      lookup-keep (is_live now) r.token all all_keys,
      lookup-insert r.token r.token new s.sessions,
      text_eq_iff r.token r.token,
      keep-HasKeys (is_live now) all all_keys,
    )

-- After an exchange that opened a session with a token that is not empty, a request with that
-- token as its cookie, to a loopback host, gets the session's CSRF token until the lifetime is
-- over and is refused after that. Each session has its own token before.
pub exchange-authenticate :
    (net : Net) (f : Faults) (r : Secrets) (now later : ℕ) (code : Text) (q : Request) (s : Store)
    → HasKeys s.sessions
    → (exchange f r now code s).1 ≡ opened r.token r.csrf
    → r.token ≢ []
    → q.cookie ≡ some r.token
    → loopback_host net q.host ≡ true
    → let t = (exchange f r now code s).0 in
      (authenticate net later q t).1
      ≡ (if leb later (now + session_lifetime) then csrf_of r.csrf else denied no_session)
unfolding authenticate authenticate_cookie check_session is_live
exchange-authenticate net f r now later code q s keys ok named cookie host =
    let (found, _) = exchange-lookup f r now code s keys ok in
    ground (arith, found, text_eq_iff r.token [])

-- If the document holds the present code and an exchange of it fails at writing a next code that
-- differs, then the document still holds the spent code, and a new exchange of that code is
-- refused.
pub exchange_unwritten :
    (f g : Faults) (r q : Secrets) (now later issued : ℕ) (why : WriteError) (s : Store)
    → s.disk.target ≡ some (whole (record { code = s.code; issued_at = issued }))
    → r.next_code ≢ s.code
    → (exchange f r now s.code s).1 ≡ rejected (write_error why)
    → let t = (exchange f r now s.code s).0 in
      (t.disk.target ≡ some (whole (record { code = s.code; issued_at = issued })))
      × ((exchange g q later s.code t).1 ≡ rejected bad_code)
unfolding exchange open_session sweep write_locked
exchange_unwritten f g r q now later issued why s on_disk fresh failed =
    let outcome =
      write_file-all_or_nothing f (record { code = r.next_code; issued_at = now }) s.disk in
    (ground (arith, outcome), ground (arith, text_eq_iff s.code r.next_code))
