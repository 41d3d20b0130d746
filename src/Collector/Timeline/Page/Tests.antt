-- ===== src/Collector/Timeline/Page/Tests.antt =====
-- The page of a console with one host, over a day.
use amarre.Base.{
  ◌+◌, unix, sort_by, ◌*◌, ◌-◌, ◌≡◌, refl, false, [], ◌∷◌, pos, arith, Time, hour, minute, epoch,
  length,
}
use amarre.Config.{HostConfig, Config}
use amarre.Store.Tables.{Db, empty_db}
use amarre.Store.History.{health_series}
use amarre.Collector.Timeline.{episodes}
use amarre.Collector.Timeline.Page.{Layouts, window_by_key, end_of, timeline}
use amarre.Collector.Timeline.Page.Order.{Presents, timeline-Presents}

abbrev noon : Time
noon = epoch + 252 * hour

abbrev seen_db : Db
seen_db = record empty_db {
  history =
      record {
        host = "web";
        at = unix (noon + 5 * minute);
        state = "warn";
        crit = 0;
        warn = 1;
        summary = "disk";
      }
      ∷ [];
}

abbrev plain : Layouts
plain layout t = layout

abbrev lone_host : HostConfig
lone_host = record {
  name = "web";
  http_check = "";
  http_expect = pos 0;
  addr = "web";
  user = "root";
  port = pos 22;
  expect = pos (26 * hour);
  disabled = false;
}

abbrev lone : Config
lone = record {
  listen = "127.0.0.1:8443";
  state_db = "amarre.db";
  fleet_key = "/etc/amarre/key";
  interval = pos (15 * minute);
  allowed_cidrs = [];
  tls = record { cert_file = ""; key_file = "" };
  hosts = lone_host ∷ [];
  allowed = [];
}

timeline-Presents_example :
    Presents plain lone seen_db
      (noon + 30 * minute)
      (end_of (noon + 30 * minute) (window_by_key "24h").bucket - (window_by_key "24h").duration)
      "24h"
      (timeline plain lone seen_db (noon + 30 * minute) "24h")
timeline-Presents_example =
    timeline-Presents plain lone seen_db (noon + 30 * minute) "24h" (omega arith)

timeline-run : length (timeline plain lone seen_db (noon + 30 * minute) "24h").episodes ≡ 1
unfolding timeline sort_by episodes health_series
timeline-run = refl
