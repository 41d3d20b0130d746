-- ===== src/Store/Sessions/Lifetime.antt =====
-- From login to logout: which token opens the console, from where and until when.
use amarre.Base.{
  ℕ, ◌+◌, ◌≤◌, ◌≡◌, refl, ◌&&◌, String, none, some, List, [], ◌∷◌, arith, ltb, if◌then◌else◌,
  str_eq, str_eq_iff, Time, unix, ok, err,
}
use amarre.Store.Tables.{User, Session, Db, no_user}
use amarre.Store.Users.{find_id}
use amarre.Store.Sessions.{
  find_session, create_session, session_row_user, session_user, delete_rows, delete_session,
  purge_rows, purge_expired_sessions,
}

session_row_user-none :
    (us : List User) (token ip : String) (now : Time) (ss : List Session)
    → find_session token ss ≡ none
    → session_row_user us token ip now ss ≡ none
unfolding session_row_user find_session
session_row_user-none us token ip now [] h = refl
session_row_user-none us token ip now (s ∷ ss) h =
    ground (arith, session_row_user-none us token ip now ss)

-- A session that was just opened under a new token gives its user to the address that opened it
-- until it expires, and nobody to another address or later.
pub session_user-create_session :
    (db db' : Db) (token ip csrf other : String) (id ttl : ℕ) (u : User) (now later : Time)
    → find_id id db.users ≡ some u
    → create_session db token id ip csrf ttl now ≡ ok db'
    → session_user db' token other later
      ≡ (if ltb (unix later) (unix (now + ttl)) && str_eq ip other then ok u else err no_user)
unfolding create_session session_user
session_user-create_session db db' token ip csrf other id ttl u now later e c =
    ground
      (arith, str_eq_iff token token, session_row_user-none db.users token other later db.sessions)

session_row_user-delete_rows :
    (us : List User) (token t ip : String) (now : Time) (ss : List Session)
    → session_row_user us t ip now (delete_rows token ss)
      ≡ (if str_eq token t then none else session_row_user us t ip now ss)
unfolding session_row_user delete_rows
session_row_user-delete_rows us token t ip now [] = ground arith
session_row_user-delete_rows us token t ip now (s ∷ ss) = ground (
  arith,
  str_eq_iff s.token t,
  str_eq_iff s.token token,
  str_eq_iff token t,
  session_row_user-delete_rows us token t ip now ss,
)

-- After a logout the token opens nothing, and every other token opens what it did.
pub session_user-delete_session :
    (db : Db) (token t ip : String) (now : Time)
    → session_user (delete_session db token) t ip now
      ≡ (if str_eq token t then err no_user else session_user db t ip now)
unfolding session_user
session_user-delete_session db token t ip now =
    ground (arith, session_row_user-delete_rows db.users token t ip now db.sessions)

session_row_user-purge_rows :
    (us : List User) (t ip : String) (now later : Time) (ss : List Session)
    → unix now ≤ unix later
    → session_row_user us t ip later (purge_rows now ss) ≡ session_row_user us t ip later ss
unfolding session_row_user purge_rows
session_row_user-purge_rows us t ip now later [] h = refl
session_row_user-purge_rows us t ip now later (s ∷ ss) h =
    ground (arith, session_row_user-purge_rows us t ip now later ss)

-- The periodic purge is not seen by anybody: from then on every lookup answers as before.
pub session_user-purge :
    (db : Db) (t ip : String) (now later : Time)
    → unix now ≤ unix later
    → session_user (purge_expired_sessions db now) t ip later ≡ session_user db t ip later
unfolding session_user
session_user-purge db t ip now later h =
    rw (session_row_user-purge_rows db.users t ip now later db.sessions h, session_user)
