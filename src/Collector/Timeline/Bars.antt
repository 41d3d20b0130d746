-- ===== src/Collector/Timeline/Bars.antt =====
-- `bars` of internal/collector/timeline.go: the time of each host between the three states, hour by
-- hour. `int(float64(a) / float64(b) * 100)` is the record `Share`.
pub mod Balance
mod Tests
use amarre.Base.{
  ℕ, zero, suc, ◌+◌, ◌-◌, ◌*◌, ◌/◌, ◌%◌, ◌≤◌, Bool, String, Option, none, some, List, [], ◌∷◌, map,
  if◌then◌else◌, str_eq, ltb, ◌==◌, ℤ, pos, negsuc, ◌-ℤ◌, Time, hour, sort_by,
}
use amarre.Config.{HostConfig, Config}
use amarre.Store.Tables.{Db}
use amarre.Store.History.{HealthPoint, health_series}
use amarre.Collector.Timeline.Rows.{rank, slot}
use amarre.Collector.Timeline.Page.{end_of, enabled}

pub record Bar : Type 0 where
  pub host : String
  pub pct_ok : ℤ
  pub pct_warn : ℕ
  pub pct_crit : ℕ
  pub measured : ℕ
  pub total : ℕ
  pub coverage : ℕ
  pub dur_ok : ℕ
  pub dur_warn : ℕ
  pub dur_crit : ℕ

-- The percentage of a part, in floating point and cut off. For whole hours, up to ten thousand, the
-- rounding of the operations is far below the distance to the next percent, so that it does not
-- exceed the exact quotient.
pub record Share : Type 0 where
  pub share : ℕ → ℕ → ℕ
  pub share_small :
      (h m : ℕ) → 1 ≤ m → h ≤ m → m ≤ 10000 → share (h * hour) (m * hour) * m ≤ h * 100

-- `make([]string, total)`
abbrev pub empty_slots : ℕ → List String
empty_slots zero = []
empty_slots (suc n) = "" ∷ empty_slots n

-- The slot `i` takes the state if that is worse.
unfoldable pub put_slot : String → ℕ → List String → List String
put_slot s i [] = []
put_slot s zero (t ∷ ts) = (if ltb (rank t) (rank s) then s else t) ∷ ts
put_slot s (suc i) (t ∷ ts) = t ∷ put_slot s i ts

abbrev pub put_point : HealthPoint → Option ℕ → List String → List String
put_point p none slots = slots
put_point p (some i) slots = put_slot p.state i slots

unfoldable pub fill_slots : Time → ℕ → List HealthPoint → List String → List String
unfolding put_slot
fill_slots start total [] slots = slots
fill_slots start total (p ∷ pts) slots =
    fill_slots start total pts (put_point p (slot start hour total p) slots)

-- The time of a state in the loop over the slots.
unfoldable pub time_in : String → List String → ℕ
time_in s [] = 0
time_in s (t ∷ ts) = (if str_eq t s then hour else 0) + time_in s ts

-- The three percentages, of what was measured; nothing where nothing was.
abbrev pub share_of : Share → ℕ → ℕ → ℕ → ℕ
share_of f measured part all = if measured == 0 then 0 else f.share part all

abbrev pub rest_of : ℕ → ℕ → ℕ → ℤ
rest_of measured crit warn = if measured == 0 then pos 0 else pos 100 -ℤ pos crit -ℤ pos warn

abbrev pub coverage_of : ℕ → ℕ → ℕ
coverage_of total measured = if total == 0 then 0 else measured * 100 / total

abbrev pub bar_with : Share → String → ℕ → ℕ → ℕ → ℕ → Bar
bar_with f name total ok warn crit =
    let all = ok + warn + crit in
    let measured = all / hour in
    let pct_crit = share_of f measured crit all in
    let pct_warn = share_of f measured warn all in
    record {
      host = name;
      pct_ok = rest_of measured pct_crit pct_warn;
      pct_warn = pct_warn;
      pct_crit = pct_crit;
      measured = measured;
      total = total;
      coverage = coverage_of total measured;
      dur_ok = ok;
      dur_warn = warn;
      dur_crit = crit;
    }

unfoldable pub bar_of : Share → String → ℕ → List String → Bar
unfolding time_in ◌-ℤ◌
bar_of f name total slots =
    bar_with f name total (time_in "ok" slots) (time_in "warn" slots) (time_in "crit" slots)

abbrev pub host_bar : Share → Db → Time → ℕ → HostConfig → Bar
host_bar f db start total h =
    bar_of f h.name total
      (fill_slots start total (health_series db h.name start) (empty_slots total))

abbrev pub worse_bar : Bar → Bar → Bool
worse_bar a b =
    if a.pct_crit == b.pct_crit then ltb b.pct_warn a.pct_warn else ltb b.pct_crit a.pct_crit

unfoldable pub bars : Share → Config → Db → Time → ℕ → List Bar
unfolding bar_of fill_slots
bars f c db now days =
    let end = end_of now hour in
    let start = end - days * 24 * hour in
    sort_by worse_bar (map (host_bar f db start ((end - start) / hour)) (enabled c.hosts))
