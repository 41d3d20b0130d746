-- ===== src/Web/Request.antt =====
-- A request as the handlers of server.go read it, and what they decide on it first: `remoteAddr`,
-- `currentUser`, `checkCSRF`, `ipAllowlist` and `requireAuth`.
use amarre.Base.{
  Bool, false, String, Option, none, some, if◌then◌else◌, str_eq, Time, Result, ok, err,
}
use amarre.Auth.Totp.{Bytes, Mac}
use amarre.Config.{Config, ip_allowed}
use amarre.Config.Net.{Addr, unmap}
use amarre.Store.Tables.{User, Db, StoreError}
use amarre.Store.Sessions.{session_csrf, session_user}

-- `remote` is the address that `netip.ParseAddr` reads in `RemoteAddr`; the cookies are the ones of
-- the session and of the form; `form_ok` is false where `ParseForm` fails.
pub record Request : Type 0 where
  pub remote : Option Addr
  pub session_cookie : Option String
  pub csrf_cookie : Option String
  pub form_ok : Bool
  pub csrf : String
  pub username : String
  pub password : String
  pub totp : String

-- `Addr.String` (also of the zero address), `strings.TrimSpace`, the bytes of a text,
-- `auth.VerifyPassword` (`none` for its error), and what the one-time code calls.
pub record Environment : Type 0 where
  pub ip_text : Option Addr → String
  pub trim : String → String
  pub bytes_of : String → Bytes
  pub verify_password : String → String → Option Bool
  pub mac : Mac

abbrev pub unmap_option : Option Addr → Option Addr
unmap_option none = none
unmap_option (some a) = some (unmap a)

-- `remoteAddr`: `none` is its error.
unfoldable pub remote_addr : Request → Option Addr
unfolding unmap
remote_addr r = unmap_option r.remote

-- The text of the address: handlers that ignore the error print the zero address.
abbrev pub ip_of : Environment → Request → String
ip_of e r = e.ip_text (remote_addr r)

abbrev pub user_of : String → Result StoreError User → Option (User × String)
user_of token (ok u) = some (u, token)
user_of token (err x) = none

unfoldable pub user_from :
    Environment → Db → Option String → Option Addr → Time → Option (User × String)
unfolding session_user
user_from e db none a now = none
user_from e db (some token) none now = none
user_from e db (some token) (some a) now =
    user_of token (session_user db token (e.ip_text (some a)) now)

unfoldable pub current_user : Environment → Db → Request → Time → Option (User × String)
unfolding user_from remote_addr
current_user e db r now = user_from e db r.session_cookie (remote_addr r) now

-- The token of the session, where it has one that is not empty.
abbrev pub wanted : Result StoreError String → Option String
wanted (err x) = none
wanted (ok want) = if str_eq want "" then none else some want

unfoldable pub session_token : Db → Option String → Option String
unfolding session_csrf
session_token db none = none
session_token db (some c) = wanted (session_csrf db c)

-- `subtle.ConstantTimeCompare(…) == 1`, after the test on the empty token.
abbrev pub matches : Option String → Option String → String → Bool
matches (some want) cookie got = str_eq want got
matches none (some c) got = str_eq c got
matches none none got = false

unfoldable pub check_csrf : Db → Request → Bool
unfolding session_token
check_csrf db r =
    if str_eq r.csrf ""
    then false
    else matches (session_token db r.session_cookie) r.csrf_cookie r.csrf

-- `ipAllowlist` before `requireAuth`: whether the handler is reached.
abbrev pub from_allowed : Config → Option Addr → Bool
from_allowed c none = false
from_allowed c (some a) = ip_allowed c a
