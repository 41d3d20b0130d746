-- ===== src/Collector/Timeline/Page.antt =====
-- `Timeline` of internal/collector/timeline.go around the rows and the episodes: the windows, the
-- axis, and the order of the page. The bars are in Bars.
pub mod Order
pub mod Entries
mod Tests
use amarre.Base.{
  ℕ, zero, suc, ◌+◌, ◌-◌, ◌*◌, ◌/◌, ◌%◌, Bool, true, false, ◌&&◌, not, String, Option, none, some,
  List, [], ◌∷◌, ◌++◌, map, if◌then◌else◌, ltb, ◌==◌, str_eq, str_lt, sort_by, Time, hour, is_zero,
  after,
}
use amarre.Config.{HostConfig, Config}
use amarre.Store.Tables.{Db}
use amarre.Store.History.{health_series, health_coverage}
use amarre.Collector.Timeline.{Episode, episodes}
use amarre.Collector.Timeline.Rows.{Row, row_of}

pub record Window : Type 0 where
  pub key : String
  pub label : String
  pub duration : ℕ
  pub bucket : ℕ
  pub layout : String

pub record Axis : Type 0 where
  pub index : ℕ
  pub label : String

pub record TimelineData : Type 0 where
  pub window : Window
  pub rows : List Row
  pub axis : List Axis
  pub episodes : List Episode
  pub buckets : ℕ
  pub depuis : Time
  pub mesures : ℕ
  pub tronquee : Bool

-- `t.Format(layout)`
abbrev pub Layouts : Type 0
Layouts = String → Time → String

abbrev pub day_window : Window
day_window = record {
  key = "24h";
  label = "24 heures";
  duration = 24 * hour;
  bucket = hour;
  layout = "15h";
}

abbrev pub windows : List Window
windows =
    day_window
    ∷ (record {
      key = "7j";
      label = "7 jours";
      duration = 7 * 24 * hour;
      bucket = 4 * hour;
      layout = "02/01";
    })
    ∷ (record {
      key = "14j";
      label = "14 jours";
      duration = 14 * 24 * hour;
      bucket = 6 * hour;
      layout = "02/01";
    })
    ∷ []

abbrev pub find_window : String → List Window → Option Window
find_window k [] = none
find_window k (w ∷ ws) = if str_eq w.key k then some w else find_window k ws

abbrev pub or_first : Option Window → Window
or_first none = day_window
or_first (some w) = w

unfoldable pub window_by_key : String → Window
window_by_key k = or_first (find_window k windows)

-- `time.Now().Truncate(w.Bucket).Add(w.Bucket)`
abbrev pub end_of : Time → ℕ → Time
end_of now bucket = now - now % bucket + bucket

abbrev pub step_of : ℕ → ℕ
step_of buckets = if ltb (buckets / 8) 1 then 1 else buckets / 8

-- The loop of the axis from `i` on, with the turns that are left to it.
unfoldable pub axis_from : Layouts → Window → Time → ℕ → ℕ → ℕ → ℕ → List Axis
axis_from layouts w start buckets step zero i = []
axis_from layouts w start buckets step (suc left) i =
    let rest = axis_from layouts w start buckets step left (i + step) in
    if ltb i buckets
    then record { index = i; label = layouts w.layout (start + i * w.bucket) } ∷ rest
    else []

abbrev pub enabled : List HostConfig → List HostConfig
enabled [] = []
enabled (h ∷ hs) = let rest = enabled hs in if h.disabled then rest else h ∷ rest

abbrev pub host_row : Layouts → Db → Time → ℕ → ℕ → HostConfig → Row
host_row layouts db start bucket buckets h =
    row_of (layouts "02/01 15h04") h.name start bucket buckets (health_series db h.name start)

abbrev pub all_episodes : Db → Time → Time → List HostConfig → List Episode
all_episodes db start now [] = []
all_episodes db start now (h ∷ hs) =
    episodes h.name now (health_series db h.name start) ++ all_episodes db start now hs

abbrev pub later_start : Episode → Episode → Bool
later_start a b = after a.start b.start

unfoldable pub worse_row : Row → Row → Bool
worse_row a b =
    if a.crits == b.crits
    then (if a.warns == b.warns then str_lt a.name b.name else ltb b.warns a.warns)
    else ltb b.crits a.crits

unfoldable pub timeline_of : Layouts → Config → Db → Time → Window → TimelineData
unfolding axis_from worse_row
timeline_of layouts c db now w =
    let start = end_of now w.bucket - w.duration in
    let buckets = w.duration / w.bucket in
    let seen = health_coverage db in
    record {
      window = w;
      rows = sort_by worse_row (map (host_row layouts db start w.bucket buckets) (enabled c.hosts));
      axis = axis_from layouts w start buckets (step_of buckets) buckets 0;
      episodes = sort_by later_start (all_episodes db start now (enabled c.hosts));
      buckets = buckets;
      depuis = seen.0;
      mesures = seen.2;
      tronquee = not (is_zero seen.0) && after seen.0 start;
    }

unfoldable pub timeline : Layouts → Config → Db → Time → String → TimelineData
unfolding timeline_of window_by_key
timeline layouts c db now key = timeline_of layouts c db now (window_by_key key)
