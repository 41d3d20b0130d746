-- ===== src/Store/Hourly.antt =====
-- `HourlyHistory` of store.go: the state of a host hour by hour. The Go map that it returns is a
-- function of the hour. The text of an hour comes from all its rows, as in the inner query.
pub mod Worst
mod Tests
use amarre.Base.{
  ℕ, suc, ◌+◌, ◌*◌, ◌/◌, Bool, true, false, ◌&&◌, String, Option, none, some, List, [], ◌∷◌,
  if◌then◌else◌, str_eq, ltb, ◌==◌, max, length, Time, unix, of_unix,
}
use amarre.Store.Tables.{HealthRow, Db}
use amarre.Store.History.{series_rows}

pub record HourlyState : Type 0 where
  pub hour : Time
  pub state : String
  pub crit : ℕ
  pub warn : ℕ
  pub summary : String
  pub samples : ℕ

-- The two `CASE state`.
abbrev pub state_rank : String → ℕ
state_rank s =
    if str_eq s "crit" then 3 else if str_eq s "warn" then 2 else if str_eq s "ok" then 1 else 0

abbrev pub summary_rank : String → ℕ
summary_rank s = if str_eq s "crit" then 3 else if str_eq s "warn" then 2 else 1

-- The switch on the worst rank.
abbrev pub state_of_rank : ℕ → String
state_of_rank n =
    if n == 3 then "crit" else if n == 2 then "warn" else if n == 1 then "ok" else "unknown"

-- `(at / 3600) * 3600`
abbrev pub hour_of : ℕ → ℕ
hour_of at = at / 3600 * 3600

unfoldable pub in_hour : ℕ → List HealthRow → List HealthRow
in_hour h [] = []
in_hour h (r ∷ rs) = let rest = in_hour h rs in if hour_of r.at == h then r ∷ rest else rest

unfoldable pub worst_rank : List HealthRow → ℕ
worst_rank [] = 0
worst_rank (r ∷ rs) = max (state_rank r.state) (worst_rank rs)

unfoldable pub most_crit : List HealthRow → ℕ
most_crit [] = 0
most_crit (r ∷ rs) = max r.crit (most_crit rs)

unfoldable pub most_warn : List HealthRow → ℕ
most_warn [] = 0
most_warn (r ∷ rs) = max r.warn (most_warn rs)

-- The first row of the worst rank, after the best one so far.
unfoldable pub worst_summary : HealthRow → List HealthRow → String
worst_summary b [] = b.summary
worst_summary b (r ∷ rs) =
    worst_summary (if ltb (summary_rank b.state) (summary_rank r.state) then r else b) rs

abbrev pub summary_from : List HealthRow → String
summary_from [] = ""
summary_from (r ∷ rs) = worst_summary r rs

unfoldable pub host_history : String → List HealthRow → List HealthRow
host_history host [] = []
host_history host (r ∷ rs) =
    let rest = host_history host rs in if str_eq r.host host then r ∷ rest else rest

-- The group of an hour; an hour without rows has none.
abbrev pub grouped : ℕ → String → List HealthRow → Option HourlyState
grouped h summary [] = none
grouped h summary (r ∷ rs) = some (record {
  hour = of_unix h;
  state = state_of_rank (worst_rank (r ∷ rs));
  crit = most_crit (r ∷ rs);
  warn = most_warn (r ∷ rs);
  summary = summary;
  samples = length (r ∷ rs);
})

-- `HourlyHistory`, at an hour.
unfoldable pub hourly_history : Db → String → Time → ℕ → Option HourlyState
unfolding in_hour worst_rank most_crit most_warn worst_summary host_history series_rows
hourly_history db host since h =
    grouped h (summary_from (in_hour h (host_history host db.history)))
      (in_hour h (series_rows host (unix since) db.history))
