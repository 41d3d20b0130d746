-- ===== src/Web/Samples.antt =====
-- A console with one account, its session and one host, which tests share.
use amarre.Base.{
  ◌+◌, ◌*◌, refl, true, false, none, some, [], ◌∷◌, str_eq, hour, minute, pos, Time, epoch, unix,
}
use amarre.Auth.Limiter.{new_limiter}
use amarre.Auth.Totp.{Mac}
use amarre.Config.{Config}
use amarre.Config.Net.{v4}
use amarre.Store.Tables.{User, empty_db}
use amarre.Collector.Trees.{new_tree_store}
use amarre.Collector.Collect.{Console}
use amarre.Collector.Browse.{Value}
use amarre.Web.Request.{Request, Environment}
use amarre.Web.Login.{Gate}

abbrev pub ten_am : Time
ten_am = epoch + 10 * hour

abbrev pub plain_mac : Mac
plain_mac = record {
  decode_secret = λ secret. some secret;
  hmac_sha1 = λ key message.
      0 ∷ 0 ∷ 0 ∷ 0 ∷ 0 ∷ 0 ∷ 0 ∷ 0 ∷ 0 ∷ 0 ∷ 0 ∷ 0 ∷ 0 ∷ 0 ∷ 0 ∷ 0 ∷ 0 ∷ 0 ∷ 0 ∷ 0 ∷ [];
  sum_length = λ key message. refl;
}

-- The hash of a password is its text.
abbrev pub office : Environment
office = record {
  ip_text = λ a. "10.1.2.3";
  trim = λ s. s;
  bytes_of = λ s. [];
  verify_password = λ password hash. some (str_eq password hash);
  mac = plain_mac;
}

abbrev pub bob : User
bob = record { id = 1; username = "bob"; pass_hash = "secret"; totp_secret = [] }

abbrev pub door : Gate
door = record { db = record empty_db { users = bob ∷ [] }; lim = new_limiter 5 (15 * minute) }

abbrev pub login_form : Request
login_form = record {
  remote = some (v4 0x0a010203);
  session_cookie = none;
  csrf_cookie = some "k";
  form_ok = true;
  csrf = "k";
  username = "bob";
  password = "secret";
  totp = "";
}

abbrev pub one_host : Config
one_host = record {
  listen = "127.0.0.1:8443";
  state_db = "amarre.db";
  fleet_key = "/etc/amarre/key";
  interval = pos (15 * minute);
  allowed_cidrs = [];
  tls = record { cert_file = ""; key_file = "" };
  hosts =
      record {
        name = "web";
        http_check = "";
        http_expect = pos 0;
        addr = "web";
        user = "root";
        port = pos 22;
        expect = pos (26 * hour);
        disabled = false;
      }
      ∷ [];
  allowed = record { addr = v4 0x0a010000; bits = 16 } ∷ [];
}

abbrev pub bob_inside : Console Value
bob_inside = record {
  db = record door.db {
    sessions =
        record {
          token = "t";
          user_id = 1;
          created_at = unix ten_am;
          expires_at = unix (ten_am + 8 * hour);
          remote_ip = "10.1.2.3";
          csrf = "c";
        }
        ∷ [];
  };
  bo = [];
  cache = [];
  trees = new_tree_store;
  running = [];
}

abbrev pub action_form : Request
action_form = record login_form { session_cookie = some "t"; csrf = "c" }
