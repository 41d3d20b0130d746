-- ===== src/Web/Login.antt =====
-- `postLogin` and `postLogout` of server.go. The clock readings and the two results of `NewToken`
-- are arguments; a time is read once for all the calls of a request.
pub mod Guards
pub mod Admits
use amarre.Base.{
  ℕ, ◌*◌, Bool, true, false, String, Option, none, some, List, [], ◌∷◌, if◌then◌else◌, hour, Time,
  Result, ok, err,
}
use amarre.Auth.Limiter.{Limiter, allow, reset}
use amarre.Auth.Totp.{Bytes, verify_totp}
use amarre.Store.Tables.{User, Db, StoreError}
use amarre.Store.Users.{user_by_name}
use amarre.Store.Sessions.{create_session, delete_session}
use amarre.Store.Audit.{audit}
use amarre.Web.Request.{Request, Environment, ip_of, check_csrf, current_user}

-- The state that the handlers change.
pub record Gate : Type 0 where
  pub db : Db
  pub lim : Limiter

pub data Outcome : Type 0 where
  bad_form : Outcome
  bad_token : Outcome
  too_many : Outcome
  bad_credentials : Outcome
  bad_code : Outcome
  internal_error : Outcome
  signed_in : String → Outcome

abbrev pub session_ttl : ℕ
session_ttl = 8 * hour

abbrev pub noted : Gate → Time → String → String → String → Outcome → Gate × Outcome
noted g now name ip what outcome =
    (record g { db = audit g.db now name ip "login" "" what }, outcome)

-- From the creation of the session on.
unfoldable pub open_session :
    Gate → Time → String → String → String → Result StoreError Db → Gate × Outcome
unfolding audit reset
open_session g now name ip token (err e) = (g, internal_error)
open_session g now name ip token (ok db) =
    noted (record { db = db; lim = reset g.lim ip }) now name ip "succès" (signed_in token)

-- With the two tokens of the session.
unfoldable pub with_tokens :
    Gate → Time → String → String → User → Option String → Option String → Gate × Outcome
unfolding open_session create_session
with_tokens g now name ip u none csrf = (g, internal_error)
with_tokens g now name ip u (some token) none = (g, internal_error)
with_tokens g now name ip u (some token) (some csrf) =
    open_session g now name ip token (create_session g.db token u.id ip csrf session_ttl now)

-- An account without a secret needs no code.
unfoldable pub code_passes : Environment → Bytes → Request → Time → Bool
unfolding verify_totp
code_passes e [] r now = true
code_passes e (b ∷ bs) r now = verify_totp e.mac (b ∷ bs) (e.bytes_of (e.trim r.totp)) now

unfoldable pub with_password :
    Environment
    → Gate
    → Request
    → Time
    → Option String
    → Option String
    → User
    → Option Bool
    → Gate × Outcome
unfolding code_passes with_tokens audit
with_password e g r now token csrf u (some true) =
    if code_passes e u.totp_secret r now
    then with_tokens g now (e.trim r.username) (ip_of e r) u token csrf
    else noted g now (e.trim r.username) (ip_of e r) "totp-invalide" bad_code
with_password e g r now token csrf u _ =
    noted g now (e.trim r.username) (ip_of e r) "identifiants-invalides" bad_credentials

unfoldable pub with_user :
    Environment
    → Gate
    → Request
    → Time
    → Option String
    → Option String
    → Result StoreError User
    → Gate × Outcome
unfolding with_password audit
with_user e g r now token csrf (err x) =
    noted g now (e.trim r.username) (ip_of e r) "identifiants-invalides" bad_credentials
with_user e g r now token csrf (ok u) =
    with_password e g r now token csrf u (e.verify_password r.password u.pass_hash)

-- By the answer of the limit, whose state is kept in both cases.
unfoldable pub admitted :
    Environment
    → Gate
    → Request
    → Time
    → Option String
    → Option String
    → Bool × Limiter
    → Gate × Outcome
unfolding with_user user_by_name audit
admitted e g r now token csrf (false, lim) =
    noted (record g { lim = lim }) now r.username (ip_of e r) "trop-de-tentatives" too_many
admitted e g r now token csrf (true, lim) =
    with_user e (record g { lim = lim }) r now token csrf (user_by_name g.db (e.trim r.username))

unfoldable pub post_login :
    Environment → Gate → Request → Time → Option String → Option String → Gate × Outcome
unfolding admitted check_csrf allow audit
post_login e g r now token csrf =
    if r.form_ok
    then (if check_csrf g.db r
        then admitted e g r now token csrf (allow g.lim (ip_of e r) now)
        else noted g now "?" (ip_of e r) "csrf-invalide" bad_token)
    else (g, bad_form)

-- The line of the audit log of a logout, where there is a user.
abbrev pub log_out : Environment → Db → Request → Time → Option (User × String) → Db
log_out e db r now none = delete_session db ""
log_out e db r now (some (u, token)) =
    audit (delete_session db token) now u.username (ip_of e r) "logout" "" "succès"

-- `false` is the answer of an invalid token.
unfoldable pub post_logout : Environment → Db → Request → Time → Db × Bool
unfolding current_user check_csrf audit
post_logout e db r now =
    if check_csrf db r then (log_out e db r now (current_user e db r now), true) else (db, false)
