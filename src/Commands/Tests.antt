-- ===== src/Commands/Tests.antt =====
-- The commands at concrete values.
use amarre.Base.{
  ◌*◌, ◌≡◌, ◌≢◌, refl, false, String, none, some, List, [], ◌∷◌, pos, minute, ok, str_eq,
  if◌then◌else◌,
}
use amarre.Auth.Totp.{Bytes}
use amarre.Auth.Password.Samples.{simple}
use amarre.Config.Net.{v4}
use amarre.Config.{Config, Parsers}
use amarre.Store.Tables.{Db, empty_db}
use amarre.Commands.{
  Typed, piped, asked, differ, too_short, Added, added, refused, user_add, show_totp, shown,
  running, no_source, no_account, start,
}
use amarre.Commands.Accounts.{Account, user_add-Account}
use amarre.Commands.Starts.{Serves, start-Serves}

abbrev encode : Bytes → Bytes
encode bs = 65 ∷ bs

abbrev entered : Typed
entered = piped "motdepasse12\n" none

unfoldable made : Added
unfolding user_add
made = user_add simple encode (ok empty_db) "alice" entered (some (1 ∷ [])) (some (7 ∷ []))

abbrev db_of : Added → Db
db_of (added db s) = db
db_of _ = empty_db

abbrev with_alice : Db
with_alice = db_of made

made-added :
    user_add simple encode (ok empty_db) "alice" entered (some (1 ∷ [])) (some (7 ∷ []))
    ≡ added with_alice (65 ∷ 7 ∷ [])
unfolding user_add made
made-added = refl

shorter :
    user_add simple encode (ok empty_db) "alice" (piped "motdepasse\r\n" none) (some []) (some [])
    ≡ refused too_short
unfolding user_add
shorter = refl

mistyped :
    user_add simple encode
      (ok empty_db)
      "alice"
      (asked (ok "motdepasse12") (ok "motdepasse21"))
      (some [])
      (some [])
    ≡ refused differ
unfolding user_add
mistyped = refl

secret_again : show_totp (ok with_alice) "alice" ≡ shown (65 ∷ 7 ∷ [])
unfolding show_totp made
secret_again = refl

abbrev name : String
name = "alice"

user_add-Account_example :
    (name ≢ "") × Account simple empty_db with_alice name entered (65 ∷ 7 ∷ [])
user_add-Account_example =
    user_add-Account simple encode empty_db with_alice name entered (some (1 ∷ [])) (some (7 ∷ []))
      (65 ∷ 7 ∷ []) made-added

-- "home" is an address.
abbrev parsers : Parsers
parsers = record {
  parse_prefix = λ s. none;
  parse_addr = λ s. if str_eq s "home" then some (v4 0xc0000207) else none;
}

abbrev file : List String → Config
file cidrs = record {
  listen = "127.0.0.1:8443";
  state_db = "amarre.db";
  fleet_key = "/etc/amarre/key";
  interval = pos (15 * minute);
  allowed_cidrs = cidrs;
  tls = record { cert_file = "cert"; key_file = "" };
  hosts = [];
  allowed = [];
}

abbrev checked : Config
checked = record (file ("home" ∷ [])) { allowed = record { addr = v4 0xc0000207; bits = 32 } ∷ [] }

starts :
    start parsers (ok (file ("home" ∷ []))) (ok with_alice) (ok tt) (ok tt)
    ≡ running checked with_alice false
unfolding start made
starts = refl

closed_to_all : start parsers (ok (file [])) (ok with_alice) (ok tt) (ok tt) ≡ no_source
unfolding start
closed_to_all = refl

nobody : start parsers (ok (file ("home" ∷ []))) (ok empty_db) (ok tt) (ok tt) ≡ no_account
unfolding start
nobody = refl

start-Serves_example : Serves parsers (file ("home" ∷ [])) checked with_alice false
start-Serves_example =
    start-Serves parsers (file ("home" ∷ [])) checked (ok with_alice) (ok tt) (ok tt) with_alice
      false refl starts
