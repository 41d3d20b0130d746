-- ===== src/Web/Pages/Tokens.antt =====
-- The token that a page carries for its forms.
use amarre.Base.{
  ◌≡◌, ◌≢◌, refl, sym, ap, subst, true, false, String, Option, none, some, List, [], ◌∷◌, arith,
  Bool-cases, inl, inr, str_eq, str_eq_iff, Time, Result, ok, err,
}
use amarre.Store.Tables.{User, Session, Db, StoreError, no_user}
use amarre.Store.Sessions.{
  find_session, session_csrf, set_csrf_rows, set_session_csrf, session_row_user, session_user,
}
use amarre.Config.Net.{Addr}
use amarre.Web.Request.{
  Request, Environment, remote_addr, user_of, user_from, current_user, session_token, check_csrf,
}
use amarre.Web.Pages.{Site, csrf_part, ensure_csrf, rail_with, rail_for, rail}

-- A session that has a user has a row.
row_user-row :
    (users : List User) (token ip : String) (now : Time) (ss : List Session) (u : User)
    → session_row_user users token ip now ss ≡ some u
    → (s : Session) × (find_session token ss ≡ some s)
unfolding session_row_user find_session
row_user-row users token ip now [] u h = absurd (cc h)
row_user-row users token ip now (s ∷ ss) u h = elim (Bool-cases (str_eq s.token token)) [
  | inl hit ↦ (s, rw hit refl)
  | inr miss ↦
      let h' : session_row_user users token ip now ss ≡ some u = ground (arith, h, miss) in
      let (found, e) = row_user-row users token ip now ss u h' in (found, rw miss e)
]

abbrev with_csrf : String → Session → Option Session
with_csrf csrf s = some (record s { csrf = csrf })

find_session-set :
    (token csrf : String) (ss : List Session) (s : Session)
    → find_session token ss ≡ some s
    → find_session token (set_csrf_rows token csrf ss) ≡ some (record s { csrf = csrf })
unfolding find_session set_csrf_rows
find_session-set token csrf [] s h = absurd (cc h)
find_session-set token csrf (t ∷ ts) s h = elim (Bool-cases (str_eq t.token token)) [
  | inl hit ↦ let e : t ≡ s = ground (arith, h, hit) in rw (hit, hit) (ap (with_csrf csrf) e)
  | inr miss ↦
      let h' : find_session token ts ≡ some s = ground (arith, h, miss) in
      rw (miss, miss) (find_session-set token csrf ts s h')
]

session_user-row :
    (db : Db) (token ip : String) (now : Time) (u : User)
    → session_user db token ip now ≡ ok u
    → (s : Session) × (find_session token db.sessions ≡ some s)
unfolding session_user
session_user-row db token ip now u h =
    go (session_row_user db.users token ip now db.sessions) refl h
  where
    go :
        (o : Option User)
        → session_row_user db.users token ip now db.sessions ≡ o
        → (elim o [ none ↦ err no_user | some v ↦ ok v ]) ≡ ok u
        → (s : Session) × (find_session token db.sessions ≡ some s)
    go none e k = absurd (cc k)
    go (some v) e k = row_user-row db.users token ip now db.sessions v e

user_from-row :
    (e : Environment) (db : Db) (cookie : Option String) (a : Option Addr) (now : Time) (u : User)
    (token : String)
    → user_from e db cookie a now ≡ some (u, token)
    → (cookie ≡ some token) × ((s : Session) × (find_session token db.sessions ≡ some s))
unfolding user_from
user_from-row e db none a now u token h = absurd (cc h)
user_from-row e db (some c) none now u token h = absurd (cc h)
user_from-row e db (some c) (some a) now u token h =
    go (session_user db c (e.ip_text (some a)) now) refl h
  where
    go :
        (o : Result StoreError User)
        → session_user db c (e.ip_text (some a)) now ≡ o
        → user_of c o ≡ some (u, token)
        → (some c ≡ some token) × ((s : Session) × (find_session token db.sessions ≡ some s))
    go (err x) q k = absurd (cc k)
    go (ok v) q k =
        let e' : c ≡ token = ground (arith, k) in
        (
          ap (λ x. some x) e',
          subst (λ x. (s : Session) × (find_session x db.sessions ≡ some s)) e'
              (session_user-row db c (e.ip_text (some a)) now v q),
        )

-- A token that is not empty and that the session has is accepted in a form.
accepted :
    (db : Db) (r : Request) (token csrf : String)
    → r.session_cookie ≡ some token
    → session_csrf db token ≡ ok csrf
    → csrf ≢ ""
    → check_csrf db (record r { csrf = csrf }) ≡ true
unfolding check_csrf session_token
accepted db r token csrf cookie have full =
    let not_empty : str_eq csrf "" ≡ false = ground (arith, full, str_eq_iff csrf "") in
    let self : str_eq csrf csrf ≡ true = (str_eq_iff csrf csrf).1 refl in
    rw (not_empty, cookie, session_token, have) (rw not_empty self)

found-csrf :
    (db : Db) (token : String) (s : Session)
    → find_session token db.sessions ≡ some s
    → session_csrf db token ≡ ok s.csrf
unfolding session_csrf
found-csrf db token s h = rw (h, session_csrf) refl

-- The token that a page shows is the one that the session has by then, and it is not empty.
ensure_csrf-has :
    (db : Db) (token f : String) (s : Session)
    → find_session token db.sessions ≡ some s
    → f ≢ ""
    → (session_csrf (ensure_csrf db token (some f) s.csrf).0 token
        ≡ ok (ensure_csrf db token (some f) s.csrf).1)
      × ((ensure_csrf db token (some f) s.csrf).1 ≢ "")
ensure_csrf-has db token f s h full = elim (Bool-cases (str_eq s.csrf "")) [
  | inl bare ↦ rw bare (
    found-csrf (set_session_csrf db token f) token (record s { csrf = f })
        (find_session-set token f db.sessions s h),
    full,
  )
  | inr has ↦ rw has (found-csrf db token s h, λ e. ground (arith, e, has, str_eq_iff s.csrf ""))
]

rail_for-check_csrf :
    (site : Site) (name : String) (db : Db) (r : Request) (now : Time) (f : String) (u : User)
    (token : String) (s : Session)
    → r.session_cookie ≡ some token
    → find_session token db.sessions ≡ some s
    → f ≢ ""
    → check_csrf
        (rail_for site name db now (some f) (some (u, token))).0
        (record r { csrf = (rail_for site name db now (some f) (some (u, token))).1.csrf })
      ≡ true
rail_for-check_csrf site name db r now f u token s cookie h full =
    let has = ensure_csrf-has db token f s h full in
    subst
      (λ o.
        check_csrf
          (rail_with site name (some u) now (ensure_csrf db token (some f) (csrf_part o))).0
          (record r {
            csrf =
                (rail_with site name (some u) now
                  (ensure_csrf db token (some f) (csrf_part o))).1.csrf;
          })
        ≡ true)
      (sym (found-csrf db token s h))
      (accepted (ensure_csrf db token (some f) s.csrf).0 r token
        (ensure_csrf db token (some f) s.csrf).1 cookie has.0 has.1)

-- The forms of every page of a signed-in operator are accepted: the token on the page, which is
-- made and kept for a session that has none, passes the check of the next form that is sent with
-- the cookie of the session.
pub rail-check_csrf :
    (site : Site) (name : String) (db : Db) (r : Request) (now : Time) (f : String) (u : User)
    (token : String)
    → current_user site.env db r now ≡ some (u, token)
    → f ≢ ""
    → check_csrf
        (rail site name db r now (some f)).0
        (record r { csrf = (rail site name db r now (some f)).1.csrf })
      ≡ true
unfolding rail current_user
rail-check_csrf site name db r now f u token h full =
    let (cookie, (s, found)) =
      user_from-row site.env db r.session_cookie (remote_addr r) now u token h in
    subst
      (λ o.
        check_csrf (rail_for site name db now (some f) o).0
          (record r { csrf = (rail_for site name db now (some f) o).1.csrf })
        ≡ true)
      (sym h) (rail_for-check_csrf site name db r now f u token s cookie found full)
