-- ===== src/Commands.antt =====
-- The commands of cmd/amarre/main.go: what `useradd`, `totp` and `serve` decide. The flags, the
-- files, the terminal and the listener are arguments.
pub mod Accounts
pub mod Starts
mod Tests
use amarre.Base.{
  ℕ, Bool, true, false, ◌&&◌, ◌||◌, not, String, Option, none, some, List, [], ◌∷◌, if◌then◌else◌,
  str_eq, ltb, length, ◌==◌, Result, ok, err, is_code, trim_right, byte_length,
}
use amarre.Auth.Totp.{Bytes}
use amarre.Auth.Password.{Kdf, Encoded, hashed, no_random, no_key, hash_password}
use amarre.Config.{Config, ConfigError, Parsers, validate}
use amarre.Store.Tables.{Db, StoreError}
use amarre.Store.Users.{create_user, totp_secret, count_users}

-- What the operator enters: a line of the standard input with the error of its reading, or the two
-- answers at the terminal.
pub data Typed : Type 0 where
  piped : String → Option String → Typed
  asked : Result String String → Result String String → Typed

pub data Refusal : Type 0 where
  no_name : Refusal
  no_store : String → Refusal
  no_input : String → Refusal
  differ : Refusal
  too_short : Refusal
  no_randomness : Refusal
  not_created : StoreError → Refusal

-- The database with the account and the secret that is shown, an error, or a panic.
pub data Added : Type 0 where
  added : Db → Bytes → Added
  refused : Refusal → Added
  panic : Added

-- `strings.TrimRight(line, "\r\n")`
abbrev pub without_line_end : String → String
without_line_end line = trim_right (λ c. is_code b'\r' c || is_code b'\n' c) line

abbrev pub piped_line : String → Option String → Result Refusal String
piped_line line none = ok (without_line_end line)
piped_line line (some e) = if str_eq line "" then err (no_input e) else ok (without_line_end line)

unfoldable pub password_of : Typed → Result Refusal String
unfolding trim_right
password_of (piped line e) = piped_line line e
password_of (asked (err e) second) = err (no_input e)
password_of (asked (ok p) (err e)) = err (no_input e)
password_of (asked (ok p) (ok q)) = if str_eq p q then ok p else err differ

abbrev pub created : Bytes → Result StoreError Db → Added
created secret (err e) = refused (not_created e)
created secret (ok db) = added db secret

module _ (k : Kdf) (encode_secret : Bytes → Bytes) where
  -- From the random bytes of the secret on.
  unfoldable pub with_secret : Db → String → String → Option Bytes → Added
  unfolding create_user
  with_secret db name hash none = refused no_randomness
  with_secret db name hash (some b) =
      created (encode_secret b) (create_user db name hash (encode_secret b))

  unfoldable pub with_hash : Db → String → Option Bytes → Encoded → Added
  unfolding with_secret
  with_hash db name secret (hashed h) = with_secret db name h secret
  with_hash db name secret no_random = refused no_randomness
  with_hash db name secret no_key = panic

  unfoldable pub with_input :
      Db → String → Option Bytes → Option Bytes → Result Refusal String → Added
  unfolding with_hash hash_password byte_length
  with_input db name salt secret (err e) = refused e
  with_input db name salt secret (ok p) =
      if ltb (byte_length p) 12
      then refused too_short
      else with_hash db name secret (hash_password k p salt)

  abbrev pub with_store : String → Typed → Option Bytes → Option Bytes → Result String Db → Added
  with_store name typed salt secret (err e) = refused (no_store e)
  with_store name typed salt secret (ok db) = with_input db name salt secret (password_of typed)

  -- `cmdUserAdd`; the configuration is read and the store opened in one step.
  unfoldable pub user_add : Result String Db → String → Typed → Option Bytes → Option Bytes → Added
  unfolding with_input password_of
  user_add opened name typed salt secret =
      if str_eq name "" then refused no_name else with_store name typed salt secret opened

-- `cmdTOTP`: the secret that is shown, or an error.
pub data Shown : Type 0 where
  shown : Bytes → Shown
  missing_name : Shown
  unopened : String → Shown
  unknown : StoreError → Shown
  no_second_factor : Shown

abbrev pub secret_shown : Result StoreError Bytes → Shown
secret_shown (err e) = unknown e
secret_shown (ok []) = no_second_factor
secret_shown (ok (b ∷ bs)) = shown (b ∷ bs)

abbrev pub stored_secret : String → Result String Db → Shown
stored_secret name (err e) = unopened e
stored_secret name (ok db) = secret_shown (totp_secret db name)

unfoldable pub show_totp : Result String Db → String → Shown
unfolding totp_secret
show_totp opened name = if str_eq name "" then missing_name else stored_secret name opened

-- How `cmdServe` begins: the console runs, or the first error.
pub data Start : Type 0 where
  running : Config → Db → Bool → Start
  unreadable : String → Start
  invalid : ConfigError → Start
  no_source : Start
  store_closed : String → Start
  no_account : Start
  no_client : String → Start
  no_server : String → Start

-- With TLS where both files are named.
abbrev pub listening : Config → Db → Result String (Unit {0}) → Start
listening c db (err e) = no_server e
listening c db (ok u) =
    running c db (not (str_eq c.tls.cert_file "") && not (str_eq c.tls.key_file ""))

abbrev pub with_client : Config → Db → Result String (Unit {0}) → Result String (Unit {0}) → Start
with_client c db server (err e) = no_client e
with_client c db server (ok u) = listening c db server

abbrev pub with_accounts :
    Config → Result String (Unit {0}) → Result String (Unit {0}) → Result String Db → Start
with_accounts c client server (err e) = store_closed e
with_accounts c client server (ok db) =
    if count_users db == 0 then no_account else with_client c db server client

abbrev pub with_config :
    Result String Db
    → Result String (Unit {0})
    → Result String (Unit {0})
    → Result ConfigError Config
    → Start
with_config opened client server (err e) = invalid e
with_config opened client server (ok c) =
    if length c.allowed_cidrs == 0 then no_source else with_accounts c client server opened

-- `cmdServe` up to the listener; `raw` is the file as YAML reads it.
unfoldable pub start :
    Parsers
    → Result String Config
    → Result String Db
    → Result String (Unit {0})
    → Result String (Unit {0})
    → Start
unfolding validate
start net (err e) opened client server = unreadable e
start net (ok raw) opened client server = with_config opened client server (validate net raw)
