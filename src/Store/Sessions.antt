-- ===== src/Store/Sessions.antt =====
-- The sessions of store.go: `CreateSession`, `SessionCSRF`, `SetSessionCSRF`, `SessionUser`,
-- `DeleteSession` and `PurgeExpiredSessions`. A token stands in at most one row (primary key), so
-- a query by token reads the first row that fits.
pub mod Lifetime
use amarre.Base.{
  ℕ, ◌+◌, ◌*◌, Bool, true, false, ◌&&◌, String, Option, none, some, List, [], ◌∷◌, ◌++◌, ltb, leb,
  ◌==◌, if◌then◌else◌, str_eq, Time, unix, Result, ok, err,
}
use amarre.Store.Tables.{User, Session, Db, StoreError, no_user, no_row, constraint}
use amarre.Store.Users.{find_id}

unfoldable pub find_session : String → List Session → Option Session
find_session token [] = none
find_session token (s ∷ ss) = if str_eq s.token token then some s else find_session token ss

-- The expiry is `now.Add(ttl)`. The token is the primary key, and the user must exist.
unfoldable pub create_session : Db → String → ℕ → String → String → ℕ → Time → Result StoreError Db
unfolding find_session find_id
create_session db token user_id ip csrf ttl now = elim (find_session token db.sessions) [
  | some s ↦ err constraint
  | none ↦ elim (find_id user_id db.users) [
    | none ↦ err constraint
    | some u ↦ ok (record db {
      sessions =
          record {
            token = token;
            user_id = user_id;
            created_at = unix now;
            expires_at = unix (now + ttl);
            remote_ip = ip;
            csrf = csrf;
          }
          ∷ db.sessions;
    })
  ]
]

unfoldable pub session_csrf : Db → String → Result StoreError String
unfolding find_session
session_csrf db token = elim (find_session token db.sessions) [
  | none ↦ err no_row
  | some s ↦ ok s.csrf
]

unfoldable pub set_csrf_rows : String → String → List Session → List Session
set_csrf_rows token csrf [] = []
set_csrf_rows token csrf (s ∷ ss) =
    (if str_eq s.token token then record s { csrf = csrf } else s) ∷ set_csrf_rows token csrf ss

abbrev pub set_session_csrf : Db → String → String → Db
set_session_csrf db token csrf = record db { sessions = set_csrf_rows token csrf db.sessions }

-- The `WHERE` clause of `SessionUser` on a row: token, expiry and address.
abbrev pub is_live : String → String → Time → Session → Bool
is_live token ip now s =
    str_eq s.token token && (ltb (unix now) s.expires_at && str_eq s.remote_ip ip)

unfoldable pub session_row_user : List User → String → String → Time → List Session → Option User
unfolding find_id
session_row_user users token ip now [] = none
session_row_user users token ip now (s ∷ ss) =
    let rest = session_row_user users token ip now ss in
    if is_live token ip now s
    then elim (find_id s.user_id users) [ some u ↦ some u | none ↦ rest ]
    else rest

unfoldable pub session_user : Db → String → String → Time → Result StoreError User
unfolding session_row_user
session_user db token ip now = elim (session_row_user db.users token ip now db.sessions) [
  | none ↦ err no_user
  | some u ↦ ok u
]

unfoldable pub delete_rows : String → List Session → List Session
delete_rows token [] = []
delete_rows token (s ∷ ss) =
    let rest = delete_rows token ss in if str_eq s.token token then rest else s ∷ rest

abbrev pub delete_session : Db → String → Db
delete_session db token = record db { sessions = delete_rows token db.sessions }

-- `DELETE … WHERE expires_at <= now`
unfoldable pub purge_rows : Time → List Session → List Session
purge_rows now [] = []
purge_rows now (s ∷ ss) =
    let rest = purge_rows now ss in if leb s.expires_at (unix now) then rest else s ∷ rest

abbrev pub purge_expired_sessions : Db → Time → Db
purge_expired_sessions db now = record db { sessions = purge_rows now db.sessions }
