-- ===== src/Web/Login/Guards.antt =====
-- What a sign-in takes, and what every other request leaves alone.
use amarre.Base.{
  ◌≡◌, refl, subst, ap, ◌⊎◌, inl, inr, Bool, true, false, String, Option, none, some, [], ◌∷◌,
  if◌then◌else◌, Time, Result, ok, err, arith, Option-cases, ℕ, ◌+◌, ◌*◌, hour, unix,
}
use amarre.Auth.Limiter.{Limiter, allow, reset}
use amarre.Auth.Totp.{Bytes, verify_totp}
use amarre.Store.Tables.{User, Db, StoreError}
use amarre.Store.Users.{find_id, user_by_name}
use amarre.Store.Sessions.{find_session, create_session}
use amarre.Store.Audit.{audit}
use amarre.Web.Request.{Request, Environment, ip_of, check_csrf}
use amarre.Web.Login.{
  Gate, Outcome, bad_form, bad_token, bad_code, signed_in, session_ttl, noted, open_session,
  with_tokens, code_passes, with_password, with_user, admitted, post_login,
}

-- The session that a sign-in created, and that the state after it, `o`, keeps: it is the first
-- row, before the rows that were there; and the attempts of the address are forgotten.
pub record Opened (g : Gate) (now : Time) (ip t : String) (u : User) (token csrf : Option String)
    (o : Gate) : Type 0 where
  pub csrf_token : String
  pub token_is : token ≡ some t
  pub csrf_is : csrf ≡ some csrf_token
  pub new_token : find_session t g.db.sessions ≡ none
  pub stored :
      o.db.sessions
      ≡ record {
        token = t;
        user_id = u.id;
        created_at = unix now;
        expires_at = unix (now + 8 * hour);
        remote_ip = ip;
        csrf = csrf_token;
      }
        ∷ g.db.sessions
  pub users_kept : o.db.users ≡ g.db.users
  pub forgotten : o.lim ≡ reset g.lim ip

create_session-ok :
    (db after : Db) (token : String) (id : ℕ) (ip csrf : String) (ttl : ℕ) (now : Time)
    → create_session db token id ip csrf ttl now ≡ ok after
    → (find_session token db.sessions ≡ none)
      × (after.sessions
          ≡ record {
            token = token;
            user_id = id;
            created_at = unix now;
            expires_at = unix (now + ttl);
            remote_ip = ip;
            csrf = csrf;
          }
            ∷ db.sessions)
      × (after.users ≡ db.users)
unfolding create_session
create_session-ok db after token id ip csrf ttl now h =
    elim (Option-cases (find_session token db.sessions)) [
      | inr (s, p) ↦ absurd (ground (arith, p, h))
      | inl p ↦ elim (Option-cases (find_id id db.users)) [
        | inl q ↦ absurd (ground (arith, p, q, h))
        | inr (u, q) ↦ (p, ground (arith, p, q, h), ground (arith, p, q, h))
      ]
    ]

abbrev token_of : Outcome → Option String
token_of (signed_in t) = some t
token_of _ = none

with_tokens-signed_in :
    (g : Gate) (now : Time) (name ip t : String) (u : User) (token csrf : Option String)
    → (with_tokens g now name ip u token csrf).1 ≡ signed_in t
    → Opened g now ip t u token csrf (with_tokens g now name ip u token csrf).0
unfolding with_tokens open_session audit
with_tokens-signed_in g now name ip t u none csrf h = absurd (cc h)
with_tokens-signed_in g now name ip t u (some a) none h = absurd (cc h)
with_tokens-signed_in g now name ip t u (some a) (some c) h =
    go (create_session g.db a u.id ip c session_ttl now) refl h
  where
    go :
        (r : Result StoreError Db)
        → create_session g.db a u.id ip c session_ttl now ≡ r
        → (open_session g now name ip a r).1 ≡ signed_in t
        → Opened g now ip t u (some a) (some c) (open_session g now name ip a r).0
    go (err e) eq k = absurd (cc k)
    go (ok db) eq k =
        let same : some a ≡ some t = ap token_of k in
        let e : a ≡ t = cc same in
        let (fresh, rows, users) =
          create_session-ok g.db db t u.id ip c session_ttl now
            (subst (λ x. create_session g.db x u.id ip c session_ttl now ≡ ok db) e eq) in
        record {
          csrf_token = c;
          token_is = same;
          csrf_is = refl;
          new_token = fresh;
          stored = rows;
          users_kept = users;
          forgotten = refl;
        }

with_password-signed_in :
    (e : Environment) (g : Gate) (r : Request) (now : Time) (token csrf : Option String)
    (t : String) (u : User) (o : Option Bool)
    → (with_password e g r now token csrf u o).1 ≡ signed_in t
    → (o ≡ some true)
      × (code_passes e u.totp_secret r now ≡ true)
      × Opened g now (ip_of e r) t u token csrf (with_password e g r now token csrf u o).0
unfolding with_password
with_password-signed_in e g r now token csrf t u none h = absurd (cc h)
with_password-signed_in e g r now token csrf t u (some false) h = absurd (cc h)
with_password-signed_in e g r now token csrf t u (some true) h =
    go (code_passes e u.totp_secret r now) refl h
  where
    go :
        (b : Bool)
        → code_passes e u.totp_secret r now ≡ b
        → (if b
            then with_tokens g now (e.trim r.username) (ip_of e r) u token csrf
            else noted g now (e.trim r.username) (ip_of e r) "totp-invalide" bad_code).1
          ≡ signed_in t
        → (some true ≡ some true)
          × (code_passes e u.totp_secret r now ≡ true)
          × Opened g now
              (ip_of e r)
              t
              u
              token
              csrf
              (if b
                then with_tokens g now (e.trim r.username) (ip_of e r) u token csrf
                else noted g now (e.trim r.username) (ip_of e r) "totp-invalide" bad_code).0
    go true eq k =
        (refl, eq, with_tokens-signed_in g now (e.trim r.username) (ip_of e r) t u token csrf k)
    go false eq k = absurd (cc k)

code_passes-true :
    (e : Environment) (secret : Bytes) (r : Request) (now : Time)
    → code_passes e secret r now ≡ true
    → (secret ≡ []) ⊎ (verify_totp e.mac secret (e.bytes_of (e.trim r.totp)) now ≡ true)
unfolding code_passes
code_passes-true e [] r now h = inl refl
code_passes-true e (b ∷ bs) r now h = inr h

-- What the credentials of a request are for a user.
pub record Entitled (e : Environment) (g : Gate) (r : Request) (now : Time) (u : User)
    : Type 0 where
  pub named : user_by_name g.db (e.trim r.username) ≡ ok u
  pub password : e.verify_password r.password u.pass_hash ≡ some true
  pub code :
      (u.totp_secret ≡ [])
      ⊎ (verify_totp e.mac u.totp_secret (e.bytes_of (e.trim r.totp)) now ≡ true)

with_user-signed_in :
    (e : Environment) (g : Gate) (r : Request) (now : Time) (token csrf : Option String)
    (t : String) (o : Result StoreError User)
    → user_by_name g.db (e.trim r.username) ≡ o
    → (with_user e g r now token csrf o).1 ≡ signed_in t
    → (u : User) × Entitled e g r now u
      × Opened g now (ip_of e r) t u token csrf (with_user e g r now token csrf o).0
unfolding with_user
with_user-signed_in e g r now token csrf t (err x) eq h = absurd (cc h)
with_user-signed_in e g r now token csrf t (ok u) eq h =
    let (password, code, opened) =
      with_password-signed_in e g r now token csrf t u (e.verify_password r.password u.pass_hash)
        h in
    (
      u,
      record {
        named = eq;
        password = password;
        code = code_passes-true e u.totp_secret r now code;
      },
      opened,
    )

admitted-signed_in :
    (e : Environment) (g : Gate) (r : Request) (now : Time) (token csrf : Option String)
    (t : String) (o : Bool × Limiter)
    → (admitted e g r now token csrf o).1 ≡ signed_in t
    → (o.0 ≡ true)
      × ((u : User) × Entitled e (record g { lim = o.1 }) r now u
          × Opened
              (record g { lim = o.1 })
              now
              (ip_of e r)
              t
              u
              token
              csrf
              (admitted e g r now token csrf o).0)
unfolding admitted
admitted-signed_in e g r now token csrf t (false, lim) h = absurd (cc h)
admitted-signed_in e g r now token csrf t (true, lim) h = (
  refl,
  with_user-signed_in e (record g { lim = lim }) r now token csrf t
      (user_by_name g.db (e.trim r.username)) refl h,
)

-- A request signs in only with the token of its form, within the limit of attempts of its
-- address, under a name that exists, with the password of that account and, where the account
-- has a secret, with a code that `VerifyTOTP` accepts; and then the state afterwards has one session
-- more than before, of that account, bound to the address of the request, under the token of the
-- cookie, which no session had, and for eight hours; and the attempts of the address are forgotten.
pub post_login-signed_in :
    (e : Environment) (g : Gate) (r : Request) (now : Time) (token csrf : Option String)
    (t : String)
    → (post_login e g r now token csrf).1 ≡ signed_in t
    → (check_csrf g.db r ≡ true)
      × ((allow g.lim (ip_of e r) now).0 ≡ true)
      × ((u : User) × Entitled e (record g { lim = (allow g.lim (ip_of e r) now).1 }) r now u
          × Opened
              (record g { lim = (allow g.lim (ip_of e r) now).1 })
              now
              (ip_of e r)
              t
              u
              token
              csrf
              (post_login e g r now token csrf).0)
unfolding post_login
post_login-signed_in e g r now token csrf t h = go r.form_ok (check_csrf g.db r) refl h
  where
    go :
        (form checked : Bool)
        → check_csrf g.db r ≡ checked
        → (if form
            then (if checked
                then admitted e g r now token csrf (allow g.lim (ip_of e r) now)
                else noted g now "?" (ip_of e r) "csrf-invalide" bad_token)
            else (g, bad_form)).1
          ≡ signed_in t
        → (check_csrf g.db r ≡ true)
          × ((allow g.lim (ip_of e r) now).0 ≡ true)
          × ((u : User) × Entitled e (record g { lim = (allow g.lim (ip_of e r) now).1 }) r now u
              × Opened
                  (record g { lim = (allow g.lim (ip_of e r) now).1 })
                  now
                  (ip_of e r)
                  t
                  u
                  token
                  csrf
                  (if form
                    then (if checked
                        then admitted e g r now token csrf (allow g.lim (ip_of e r) now)
                        else noted g now "?" (ip_of e r) "csrf-invalide" bad_token)
                    else (g, bad_form)).0)
    go true true eq k =
        let (permitted, rest) =
          admitted-signed_in e g r now token csrf t (allow g.lim (ip_of e r) now) k in
        (eq, permitted, rest)
    go true false eq k = absurd (cc k)
    go false checked eq k = absurd (cc k)

-- No session was touched, or the request signed in.
abbrev Untouched : Gate → Gate × Outcome → Type 0
Untouched g (g', o) = (g'.db.sessions ≡ g.db.sessions) ⊎ ((t : String) × (o ≡ signed_in t))

with_tokens-Untouched :
    (g : Gate) (now : Time) (name ip : String) (u : User) (token csrf : Option String)
    → Untouched g (with_tokens g now name ip u token csrf)
unfolding with_tokens open_session audit
with_tokens-Untouched g now name ip u none csrf = inl refl
with_tokens-Untouched g now name ip u (some a) none = inl refl
with_tokens-Untouched g now name ip u (some a) (some c) =
    go (create_session g.db a u.id ip c session_ttl now)
  where
    go : (r : Result StoreError Db) → Untouched g (open_session g now name ip a r)
    go (err e) = inl refl
    go (ok db) = inr (a, refl)

with_password-Untouched :
    (e : Environment) (g : Gate) (r : Request) (now : Time) (token csrf : Option String) (u : User)
    (o : Option Bool)
    → Untouched g (with_password e g r now token csrf u o)
unfolding with_password audit
with_password-Untouched e g r now token csrf u none = inl refl
with_password-Untouched e g r now token csrf u (some false) = inl refl
with_password-Untouched e g r now token csrf u (some true) = go (code_passes e u.totp_secret r now)
  where
    go :
        (b : Bool)
        → Untouched g (
            if b
            then with_tokens g now (e.trim r.username) (ip_of e r) u token csrf
            else noted g now (e.trim r.username) (ip_of e r) "totp-invalide" bad_code)
    go true = with_tokens-Untouched g now (e.trim r.username) (ip_of e r) u token csrf
    go false = inl refl

admitted-Untouched :
    (e : Environment) (g : Gate) (r : Request) (now : Time) (token csrf : Option String)
    (o : Bool × Limiter)
    → Untouched g (admitted e g r now token csrf o)
unfolding admitted with_user audit
admitted-Untouched e g r now token csrf (false, lim) = inl refl
admitted-Untouched e g r now token csrf (true, lim) = go (user_by_name g.db (e.trim r.username))
  where
    go :
        (o : Result StoreError User)
        → Untouched g (with_user e (record g { lim = lim }) r now token csrf o)
    go (err x) = inl refl
    go (ok u) =
        with_password-Untouched e (record g { lim = lim }) r now token csrf u
          (e.verify_password r.password u.pass_hash)

-- A request that does not sign in opens and closes no session, whatever its form holds.
pub post_login-sessions :
    (e : Environment) (g : Gate) (r : Request) (now : Time) (token csrf : Option String)
    → ((post_login e g r now token csrf).0.db.sessions ≡ g.db.sessions)
      ⊎ ((t : String) × ((post_login e g r now token csrf).1 ≡ signed_in t))
unfolding post_login audit
post_login-sessions e g r now token csrf = go r.form_ok (check_csrf g.db r)
  where
    go :
        (form checked : Bool)
        → Untouched g (
            if form
            then (if checked
                then admitted e g r now token csrf (allow g.lim (ip_of e r) now)
                else noted g now "?" (ip_of e r) "csrf-invalide" bad_token)
            else (g, bad_form))
    go true true = admitted-Untouched e g r now token csrf (allow g.lim (ip_of e r) now)
    go true false = inl refl
    go false checked = inl refl
