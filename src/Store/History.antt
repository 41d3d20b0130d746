-- ===== src/Store/History.antt =====
-- The history of states of store.go: `RecordHealth`, `PurgeHealthHistory`, `HealthSeries` and
-- `HealthCoverage`. The pair of host and second is the primary key; `RecordHealth` is an upsert.
pub mod Series
use amarre.Base.{
  ℕ, ◌-◌, ◌/◌, Bool, true, false, ◌&&◌, String, Option, none, some, List, [], ◌∷◌, map, ltb, leb,
  ◌==◌, if◌then◌else◌, str_eq, Time, unix, of_unix, sort_by, length, min, max,
}
use amarre.Store.Tables.{HealthRow, Db}

-- `HealthPoint`
pub record HealthPoint : Type 0 where
  pub at : Time
  pub state : String
  pub crit : ℕ
  pub warn : ℕ
  pub summary : String

unfoldable pub upsert_health : HealthRow → List HealthRow → List HealthRow
upsert_health r [] = r ∷ []
upsert_health r (s ∷ ss) =
    let rest = upsert_health r ss in
    if str_eq s.host r.host && (s.at == r.at) then r ∷ ss else s ∷ rest

unfoldable pub record_health : Db → String → Time → String → ℕ → ℕ → String → Db
unfolding upsert_health
record_health db host at state crit warn summary = record db {
  history =
      upsert_health
        (record {
          host = host;
          at = unix at;
          state = state;
          crit = crit;
          warn = warn;
          summary = summary;
        })
        db.history;
}

-- `WHERE at < now.Add(-keep).Unix()`
unfoldable pub purge_history_rows : ℕ → List HealthRow → List HealthRow
purge_history_rows limit [] = []
purge_history_rows limit (r ∷ rs) =
    let rest = purge_history_rows limit rs in if ltb r.at limit then rest else r ∷ rest

unfoldable pub purge_health_history : Db → ℕ → Time → Db
unfolding purge_history_rows
purge_health_history db keep now = record db {
  history = purge_history_rows (unix (now - keep)) db.history;
}

abbrev pub in_series : String → ℕ → HealthRow → Bool
in_series host since r = str_eq r.host host && leb since r.at

unfoldable pub series_rows : String → ℕ → List HealthRow → List HealthRow
series_rows host since [] = []
series_rows host since (r ∷ rs) =
    let rest = series_rows host since rs in if in_series host since r then r ∷ rest else rest

abbrev pub earlier : HealthRow → HealthRow → Bool
earlier r s = ltb r.at s.at

abbrev pub point_of : HealthRow → HealthPoint
point_of r = record {
  at = of_unix r.at;
  state = r.state;
  crit = r.crit;
  warn = r.warn;
  summary = r.summary;
}

unfoldable pub health_series : Db → String → Time → List HealthPoint
unfolding series_rows
health_series db host since =
    map point_of (sort_by earlier (series_rows host (unix since) db.history))

-- `MIN(at)` and `MAX(at)` over the rows, null where there is none.
abbrev pub least_at : List HealthRow → Option ℕ
least_at [] = none
least_at (r ∷ rs) = elim (least_at rs) [ none ↦ some r.at | some t ↦ some (min r.at t) ]

abbrev pub greatest_at : List HealthRow → Option ℕ
greatest_at [] = none
greatest_at (r ∷ rs) = elim (greatest_at rs) [ none ↦ some r.at | some t ↦ some (max r.at t) ]

-- The first and the last measure, the zero time where there is none, and their number.
unfoldable pub health_coverage : Db → Time × Time × ℕ
health_coverage db = (
  elim (least_at db.history) [ none ↦ 0 | some t ↦ of_unix t ],
  elim (greatest_at db.history) [ none ↦ 0 | some t ↦ of_unix t ],
  length db.history,
)
