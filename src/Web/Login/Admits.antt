-- ===== src/Web/Login/Admits.antt =====
-- A sign-in with everything that it takes.
use amarre.Base.{
  ◌+◌, ◌&&◌, ◌≡◌, refl, ap, ◌∙◌, Bool, true, false, String, Option, some, arith, if◌then◌else◌,
  str_eq, ltb, Time, unix, ok, err,
}
use amarre.Auth.Limiter.{Limiter, allow, reset}
use amarre.Store.Tables.{User, Db, no_user}
use amarre.Store.Users.{find_id, user_by_name}
use amarre.Store.Sessions.{create_session, session_user}
use amarre.Store.Sessions.Lifetime.{session_user-create_session}
use amarre.Store.Audit.{audit}
use amarre.Web.Request.{Request, Environment, ip_of, check_csrf}
use amarre.Web.Login.{
  Gate, signed_in, session_ttl, open_session, with_tokens, code_passes, with_password, with_user,
  admitted, post_login,
}

-- What is behind the limit, where the limit allows.
admitted-allowed :
    (e : Environment) (g : Gate) (r : Request) (now : Time) (token csrf : Option String)
    (o : Bool × Limiter)
    → o.0 ≡ true
    → admitted e g r now token csrf o
      ≡ with_user e
          (record g { lim = o.1 })
          r
          now
          token
          csrf
          (user_by_name g.db (e.trim r.username))
unfolding admitted
admitted-allowed e g r now token csrf (true, lim) h = refl
admitted-allowed e g r now token csrf (false, lim) h = absurd (ground (arith, h))

-- The state after the sign-in.
abbrev opened : Environment → Gate → Request → Time → Db → Gate
opened e g r now db = record {
  db = audit db now (e.trim r.username) (ip_of e r) "login" "" "succès";
  lim = reset (allow g.lim (ip_of e r) now).1 (ip_of e r);
}

one-true : {A : Type 0} {b : Bool} {x : A} (y : A) → b ≡ true → (if b then x else y) ≡ x
one-true {b = b} {x} y h = rw h refl

both-true :
    {A : Type 0} {b c : Bool} {x : A} (y z : A)
    → b ≡ true
    → c ≡ true
    → (if b then (if c then x else y) else z) ≡ x
both-true {b = b} {c} {x} y z h k = rw (h, k) refl

post_login-opened :
    (e : Environment) (g : Gate) (r : Request) (now : Time) (token csrf : String) (u : User)
    (db : Db)
    → r.form_ok ≡ true
    → check_csrf g.db r ≡ true
    → (allow g.lim (ip_of e r) now).0 ≡ true
    → user_by_name g.db (e.trim r.username) ≡ ok u
    → e.verify_password r.password u.pass_hash ≡ some true
    → code_passes e u.totp_secret r now ≡ true
    → create_session g.db token u.id (ip_of e r) csrf session_ttl now ≡ ok db
    → post_login e g r now (some token) (some csrf) ≡ (opened e g r now db, signed_in token)
unfolding post_login with_user with_password with_tokens open_session
post_login-opened e g r now token csrf u db form checked allowed found pass code created =
    both-true _ _ form checked
    ∙ admitted-allowed e g r now (some token) (some csrf) (allow g.lim (ip_of e r) now) allowed
    ∙ ap (with_user e behind r now (some token) (some csrf)) found
    ∙ ap (with_password e behind r now (some token) (some csrf) u) pass
    ∙ one-true _ code
    ∙ ap (open_session behind now (e.trim r.username) (ip_of e r) token) created
  where
    behind : Gate
    behind = record g { lim = (allow g.lim (ip_of e r) now).1 }

-- A request with the token of its form, within the limit of attempts, with the name and the
-- password of an account and a code that passes, signs in where the two new tokens are drawn and
-- the session can be stored; and for eight hours from then on the session gives that account to the
-- address of the request, and to no other address.
pub post_login-admits :
    (e : Environment) (g : Gate) (r : Request) (now later : Time) (token csrf other : String)
    (u : User) (db : Db)
    → r.form_ok ≡ true
    → check_csrf g.db r ≡ true
    → (allow g.lim (ip_of e r) now).0 ≡ true
    → user_by_name g.db (e.trim r.username) ≡ ok u
    → e.verify_password r.password u.pass_hash ≡ some true
    → code_passes e u.totp_secret r now ≡ true
    → find_id u.id g.db.users ≡ some u
    → create_session g.db token u.id (ip_of e r) csrf session_ttl now ≡ ok db
    → ((post_login e g r now (some token) (some csrf)).1 ≡ signed_in token)
      × (session_user (post_login e g r now (some token) (some csrf)).0.db token other later ≡ (
          if ltb (unix later) (unix (now + session_ttl)) && str_eq (ip_of e r) other
          then ok u
          else err no_user))
unfolding session_user audit
post_login-admits e g r now later token csrf other u db form checked allowed found pass code known
      created =
    let all =
      post_login-opened e g r now token csrf u db form checked allowed found pass code created in
    (
      ap (λ x. x.1) all,
      ap (λ x. session_user x.0.db token other later) all
          ∙ session_user-create_session g.db db token (ip_of e r) csrf other u.id session_ttl u now
              later known created,
    )
