-- ===== src/Commands/Accounts.antt =====
-- The account that `useradd` makes.
use amarre.Base.{
  ◌≤◌, ◌≡◌, ◌≢◌, refl, sym, ap, ◌∙◌, subst, true, Bool-cases, inl, inr, arith, String, Option, none,
  some, List, [], ◌∷◌, ◌++◌, str_eq, str_eq_iff, ltb, if◌then◌else◌, Result, ok, err, byte_length,
  length, ◌+◌,
}
use amarre.Auth.Totp.{Bytes}
use amarre.Auth.Password.{
  Kdf, Encoded, hashed, no_random, no_key, hash_password, judged, verify_password,
}
use amarre.Auth.Password.RoundTrip.{verify_password-hash_password}
use amarre.Store.Tables.{User, Db, StoreError, no_user, constraint}
use amarre.Store.Users.{find_name, create_user, user_by_name}
use amarre.Commands.{
  Typed, Refusal, added, password_of, created, with_secret, with_hash, with_input, user_add,
}

-- The row of a new account under a name that no row has.
find_name-new :
    (us : List User) (u : User) (other : String)
    → find_name u.username us ≡ none
    → find_name other (us ++ u ∷ [])
      ≡ (if str_eq u.username other then some u else find_name other us)
unfolding find_name
find_name-new [] u other h = refl
find_name-new (v ∷ us) u other h = ground (
  arith,
  h,
  str_eq_iff v.username other,
  str_eq_iff u.username other,
  str_eq_iff v.username u.username,
  find_name-new us u other,
)

-- The database has one account more, and the others are as they were.
abbrev pub Adds : Db → Db → User → Type 0
Adds db db' u =
    (user_by_name db u.username ≡ err no_user)
    × ((other : String)
        → user_by_name db' other
          ≡ (if str_eq u.username other then ok u else user_by_name db other))

abbrev row_for : Db → String → String → Bytes → User
row_for db name hash secret = record {
  id = length db.users + 1;
  username = name;
  pass_hash = hash;
  totp_secret = secret;
}

create_user-Adds :
    (db db' : Db) (name hash : String) (secret : Bytes)
    → create_user db name hash secret ≡ ok db'
    → Adds db db' (row_for db name hash secret)
unfolding create_user user_by_name
create_user-Adds db db' name hash secret h = go (find_name name db.users) refl h
  where
    u : User
    u = row_for db name hash secret

    go :
        (o : Option User)
        → find_name name db.users ≡ o
        → elim o [ some v ↦ err constraint | none ↦ ok (record db { users = db.users ++ u ∷ [] }) ]
          ≡ ok db'
        → Adds db db' u
    go (some v) e k = absurd (ground (arith, k))
    go none e k =
        let same : db.users ++ u ∷ [] ≡ db'.users = ground (arith, k) in
        (
          rw (e, user_by_name) refl,
          λ other.
              let found = ap (find_name other) (sym same) ∙ find_name-new db.users u other e in
              rw (found, user_by_name)
                (elim (Bool-cases (str_eq name other)) [
                  | inl here ↦ rw here refl
                  | inr there ↦ rw there refl
                ]),
        )

-- The account that was made for what the operator entered.
abbrev pub Account : Kdf → Db → Db → String → Typed → Bytes → Type 0
Account k db db' name typed s =
    (p : String) × (u : User) × (password_of typed ≡ ok p)
    × (12 ≤ byte_length p)
    × (u.username ≡ name)
    × (u.totp_secret ≡ s)
    × (verify_password k p u.pass_hash ≡ judged true)
    × Adds db db' u

with_secret-added :
    (k : Kdf) (encode : Bytes → Bytes) (db db' : Db) (name h : String) (secret : Option Bytes)
    (s : Bytes)
    → with_secret k encode db name h secret ≡ added db' s
    → create_user db name h s ≡ ok db'
unfolding with_secret
with_secret-added k encode db db' name h none s e = absurd (ground (arith, e))
with_secret-added k encode db db' name h (some b) s e = go (create_user db name h (encode b)) refl e
  where
    go :
        (r : Result StoreError Db)
        → create_user db name h (encode b) ≡ r
        → created (encode b) r ≡ added db' s
        → create_user db name h s ≡ ok db'
    go (err x) q g = absurd (ground (arith, g))
    go (ok d) q g =
        let same : encode b ≡ s = ground (arith, g) in
        let end : d ≡ db' = ground (arith, g) in
        subst (λ x. create_user db name h x ≡ ok db') same (q ∙ ap (λ d. ok d) end)

with_hash-added :
    (k : Kdf) (encode : Bytes → Bytes) (db db' : Db) (name : String) (secret : Option Bytes)
    (s : Bytes) (x : Encoded)
    → with_hash k encode db name secret x ≡ added db' s
    → (h : String) × (x ≡ hashed h) × (create_user db name h s ≡ ok db')
unfolding with_hash
with_hash-added k encode db db' name secret s (hashed h) e =
    (h, refl, with_secret-added k encode db db' name h secret s e)
with_hash-added k encode db db' name secret s no_random e = absurd (ground (arith, e))
with_hash-added k encode db db' name secret s no_key e = absurd (ground (arith, e))

hash-verified :
    (k : Kdf) (p h : String) (salt : Option Bytes)
    → hash_password k p salt ≡ hashed h
    → verify_password k p h ≡ judged true
unfolding hash_password
hash-verified k p h none e = absurd (ground (arith, e))
hash-verified k p h (some salt) e = (verify_password-hash_password k p p h salt e).0

with_input-added :
    (k : Kdf) (encode : Bytes → Bytes) (db db' : Db) (name : String) (typed : Typed)
    (salt secret : Option Bytes) (s : Bytes) (r : Result Refusal String)
    → password_of typed ≡ r
    → with_input k encode db name salt secret r ≡ added db' s
    → Account k db db' name typed s
unfolding with_input
with_input-added k encode db db' name typed salt secret s (err x) q e = absurd (ground (arith, e))
with_input-added k encode db db' name typed salt secret s (ok p) q e =
    elim (Bool-cases (ltb (byte_length p) 12)) [
      | inl short ↦ absurd (ground (arith, e, short))
      | inr long ↦
          let kept : with_hash k encode db name secret (hash_password k p salt) ≡ added db' s =
            ground (arith, e, long) in
          let (h, made, wrote) =
            with_hash-added k encode db db' name secret s (hash_password k p salt) kept in
          (
            p,
            row_for db name h s,
            q,
            ground (arith, long),
            refl,
            refl,
            hash-verified k p h salt made,
            create_user-Adds db db' name h s wrote,
          )
    ]

-- Where `useradd` creates an account, the name was free and not empty and the password that was
-- entered has twelve bytes at least; the account has that name, the secret that is shown and a hash
-- under which VerifyPassword accepts the password; and every other account is as it was.
pub user_add-Account :
    (k : Kdf) (encode : Bytes → Bytes) (db db' : Db) (name : String) (typed : Typed)
    (salt secret : Option Bytes) (s : Bytes)
    → user_add k encode (ok db) name typed salt secret ≡ added db' s
    → (name ≢ "") × Account k db db' name typed s
unfolding user_add
user_add-Account k encode db db' name typed salt secret s e = elim (Bool-cases (str_eq name "")) [
  | inl empty ↦ absurd (ground (arith, e, empty))
  | inr full ↦
      let kept : with_input k encode db name salt secret (password_of typed) ≡ added db' s =
        ground (arith, e, full) in
      (
        ground (arith, full, str_eq_iff name ""),
        with_input-added k encode db db' name typed salt secret s (password_of typed) refl kept,
      )
]
