-- ===== src/Collector/Action/Tests.antt =====
-- A collection that fails, and a verification that another one excludes.
use amarre.Base.{
  ◌+◌, ◌*◌, ◌≡◌, refl, true, false, String, none, some, [], ◌∷◌, if◌then◌else◌, pos, minute, hour,
  Time, epoch, lookup, ok, err, find_by, unix,
}
use amarre.Config.{HostConfig, Config}
use amarre.Store.Tables.{empty_db}
use amarre.Collector.Trees.{new_tree_store}
use amarre.Collector.Collect.{Console, Answers, find_host}
use amarre.Collector.Action.{busy, not_offered, is_offered, action}
use amarre.Collector.Action.Exclusion.{action-excludes}

abbrev morning : Time
morning = epoch + 7 * hour

abbrev lone_host : HostConfig
lone_host = record {
  name = "web";
  http_check = "";
  http_expect = pos 0;
  addr = "web";
  user = "root";
  port = pos 22;
  expect = pos (26 * hour);
  disabled = false;
}

abbrev lone : Config
lone = record {
  listen = "127.0.0.1:8443";
  state_db = "amarre.db";
  fleet_key = "/etc/amarre/key";
  interval = pos (15 * minute);
  allowed_cidrs = [];
  tls = record { cert_file = ""; key_file = "" };
  hosts = lone_host ∷ [];
  allowed = [];
}

abbrev fresh_console : Console String
fresh_console = record { db = empty_db; bo = []; cache = []; trees = new_tree_store; running = [] }

abbrev refused : Answers
refused = record {
  status = err "handshake failed";
  stats = none;
  snapshots = none;
  policy = none;
  excludes = none;
  health = none;
  probe = some "{}";
}

abbrev checking : Console String
checking = record fresh_console {
  running = ("web", "check") ∷ [];
  db = record empty_db {
    audit =
        record {
          at = unix morning;
          actor = "alice";
          remote_ip = "10.1.2.3";
          action = "check";
          target = "web";
          outcome = "demandé";
        }
        ∷ [];
  };
}

accepted : action lone fresh_console "web" "check" "alice" "10.1.2.3" morning ≡ ok checking
unfolding action find_by
accepted = refl

action-excludes_example :
    (h : HostConfig) × (find_host lone "web" ≡ some h)
    × (is_offered "check" ≡ true)
    × (lookup h.name fresh_console.running ≡ none)
    × (action lone checking "web" "backup" "bob" "10.1.2.4" (morning + minute)
        ≡ (if is_offered "backup" then err (busy h.name "check") else err (not_offered "backup")))
action-excludes_example =
    action-excludes lone fresh_console checking "web" "check" "alice" "10.1.2.3" "backup" "bob"
      "10.1.2.4" morning (morning + minute) accepted
