-- ===== src/Session.antt =====
-- internal/adminsession/session.go: the administrator's exchange code and sessions. A random secret
-- is an argument, fresh for each call that draws one; the clock is an argument. Package net is the
-- parameter `Net`; the constant-time comparison is equality of texts.
pub mod Exchange
pub mod Requests
use lctk.Prelude.{
  ℕ, ◌+◌, ◌-◌, Bool, true, false, ◌&&◌, ◌||◌, not, Option, none, some, List, [], ◌∷◌, Text, text,
  text_eq, lookup, delete, insert, keep, ltb, leb, ◌==◌, if◌then◌else◌, map, has_prefix,
}
use mathlib.Core.List.{reverse}
use lctk.Files.{Disk, Faults, WriteError, write_file}

-- Nanoseconds.
abbrev pub session_lifetime : ℕ
session_lifetime = 43200000000000

pub data SessionError : Type 0 where
  no_session bad_code foreign_host : SessionError
  write_error : WriteError → SessionError

pub record Session : Type 0 where
  pub csrf : Text
  pub expires : ℕ

-- The document that the CLI reads. Its schema version is always 1.
pub record Document : Type 0 where
  pub code : Text
  pub issued_at : ℕ

pub record Store : Type 0 where
  pub code : Text
  pub sessions : List (Text × Session)
  pub disk : Disk Document

-- What a request shows of itself: r.Host, the session cookie, the CSRF header.
pub record Request : Type 0 where
  pub host : Text
  pub cookie : Option Text
  pub csrf_header : Text

-- writeLocked.
unfoldable pub write_locked : Faults → ℕ → Store → Store × Option SessionError
write_locked f now s =
    let (disk, e) = write_file f (record { code = s.code; issued_at = now }) s.disk in
    (record s { disk = disk }, elim e [ none ↦ none | some why ↦ some (write_error why) ])

-- New: no store where the code could not be written.
unfoldable pub new : Faults → Text → ℕ → Disk Document → Option Store × Option SessionError
unfolding write_locked
new f secret now disk =
    let (s, e) = write_locked f now (record { code = secret; sessions = []; disk = disk }) in
    elim e [ none ↦ (some s, none) | some why ↦ (none, some why) ]

-- now.After(found.expires) is false.
unfoldable pub is_live : ℕ → Session → Bool
is_live now found = leb now found.expires

unfoldable pub sweep : ℕ → Store → Store
sweep now s = record s { sessions = keep (is_live now) s.sessions }

-- The secrets that Exchange draws, in its order.
pub record Secrets : Type 0 where
  pub next_code : Text
  pub token : Text
  pub csrf : Text

pub data Exchanged : Type 0 where
  opened : Text → Text → Exchanged
  rejected : SessionError → Exchanged

unfoldable pub open_session : Secrets → ℕ → Store → Store
unfolding sweep
open_session r now s = sweep now (record s {
  code = r.next_code;
  sessions = insert r.token (record { csrf = r.csrf; expires = now + session_lifetime }) s.sessions;
})

-- Exchange.
unfoldable pub exchange : Faults → Secrets → ℕ → Text → Store → Store × Exchanged
unfolding write_locked
exchange f r now code s =
    if text_eq code [] || not (text_eq code s.code)
    then (s, rejected bad_code)
    else let (t, e) = write_locked f now (open_session r now s) in
      (t, elim e [ none ↦ opened r.token r.csrf | some why ↦ rejected why ])

-- Package net: the host of a host:port pair, and whether an address is loopback.
pub record Net : Type 0 where
  pub split_host_port : Text → Option Text
  pub is_loopback_ip : Text → Bool

trim_prefix : Text → Text → Text
trim_prefix p s = if has_prefix p s then drop_of p s else s
  where
    drop_of : Text → Text → Text
    drop_of [] t = t
    drop_of (c ∷ q) [] = []
    drop_of (c ∷ q) (d ∷ t) = drop_of q t

trim_suffix : Text → Text → Text
unfolding trim_prefix
trim_suffix p s = reverse (trim_prefix (reverse p) (reverse s))

-- Simple case folding of the letters of "localhost": ASCII, the long s and the Kelvin sign.
fold : ℕ → ℕ
fold c =
    if leb b'A' c && leb c b'Z'
    then c + 32
    else if c == 0x17F
    then b's'
    else if c == 0x212A
    then b'k'
    else c

-- LoopbackHost.
unfoldable pub loopback_host : Net → Text → Bool
unfolding trim_prefix trim_suffix fold
loopback_host net host =
    let name : Text = elim (net.split_host_port host) [ some h ↦ h | none ↦ host ] in
    let bare = trim_suffix (93 ∷ []) (trim_prefix (91 ∷ []) name) in
    text_eq (map fold bare) (text "localhost") || net.is_loopback_ip bare

pub data Granted : Type 0 where
  csrf_of : Text → Granted
  denied : SessionError → Granted

check_session : ℕ → Text → Option Session → Store → Store × Granted
check_session now token none s =
    (record s { sessions = delete token s.sessions }, denied no_session)
check_session now token (some found) s =
    if is_live now found
    then (s, csrf_of found.csrf)
    else (record s { sessions = delete token s.sessions }, denied no_session)

authenticate_cookie : ℕ → Option Text → Store → Store × Granted
unfolding check_session
authenticate_cookie now none s = (s, denied no_session)
authenticate_cookie now (some token) s =
    if text_eq token []
    then (s, denied no_session)
    else check_session now token (lookup token s.sessions) s

-- Authenticate.
unfoldable pub authenticate : Net → ℕ → Request → Store → Store × Granted
unfolding authenticate_cookie
authenticate net now r s =
    if not (loopback_host net r.host)
    then (s, denied foreign_host)
    else authenticate_cookie now r.cookie s

-- Authorize, whose only result is an error or none.
unfoldable pub authorize : Net → ℕ → Request → Store → Store × Option SessionError
authorize net now r s =
    let (t, granted) = authenticate net now r s in
    (
      t,
      elim granted [
        | denied why ↦ some why
        | csrf_of csrf ↦ if text_eq r.csrf_header csrf then none else some no_session
      ],
    )

unfoldable pub revoke : Text → Store → Store
revoke token s = record s { sessions = delete token s.sessions }

-- Close, where the removal of the document succeeds or it was not there.
unfoldable pub close : Store → Store
close s = record s { sessions = []; disk = record s.disk { target = none } }
