-- ===== src/Collector/Samples.antt =====
-- A configuration with one host, which tests share.
use amarre.Base.{◌*◌, false, [], ◌∷◌, pos, hour, minute}
use amarre.Config.{HostConfig, Config}

abbrev pub lone_host : HostConfig
lone_host = record {
  name = "web";
  http_check = "";
  http_expect = pos 0;
  addr = "web";
  user = "root";
  port = pos 22;
  expect = pos (26 * hour);
  disabled = false;
}

abbrev pub lone : Config
lone = record {
  listen = "127.0.0.1:8443";
  state_db = "amarre.db";
  fleet_key = "/etc/amarre/key";
  interval = pos (15 * minute);
  allowed_cidrs = [];
  tls = record { cert_file = ""; key_file = "" };
  hosts = lone_host ∷ [];
  allowed = [];
}
