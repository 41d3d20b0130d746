-- ===== src/Store/Users.antt =====
-- `CreateUser`, `UserByName`, `TOTPSecret` and `CountUsers` of store.go.
use amarre.Base.{
  ℕ, ◌+◌, String, Option, none, some, List, [], ◌∷◌, ◌++◌, ◌==◌, if◌then◌else◌, str_eq, length,
  Result, ok, err,
}
use amarre.Store.Tables.{User, Db, StoreError, no_user, constraint}

unfoldable pub find_name : String → List User → Option User
find_name name [] = none
find_name name (u ∷ us) = if str_eq u.username name then some u else find_name name us

unfoldable pub find_id : ℕ → List User → Option User
find_id id [] = none
find_id id (u ∷ us) = if u.id == id then some u else find_id id us

-- `username` is unique: a second row of the name is refused.
unfoldable pub create_user : Db → String → String → List ℕ → Result StoreError Db
unfolding find_name
create_user db name hash totp = elim (find_name name db.users) [
  | some u ↦ err constraint
  | none ↦ ok (record db {
    users =
        db.users
        ++ record {
          id = length db.users + 1;
          username = name;
          pass_hash = hash;
          totp_secret = totp;
        }
          ∷ [];
  })
]

unfoldable pub user_by_name : Db → String → Result StoreError User
unfolding find_name
user_by_name db name = elim (find_name name db.users) [ none ↦ err no_user | some u ↦ ok u ]

unfoldable pub totp_secret : Db → String → Result StoreError (List ℕ)
unfolding find_name
totp_secret db name = elim (find_name name db.users) [
  | none ↦ err no_user
  | some u ↦ ok u.totp_secret
]

abbrev pub count_users : Db → ℕ
count_users db = length db.users
