-- ===== src/Store/History/Series.antt =====
-- The series of a host: its order, and that the periodic purge does not cut into it.
use amarre.Base.{
  ℕ, ◌-◌, ◌≤◌, ◌≡◌, refl, ap, Bool, String, List, [], ◌∷◌, map, arith, ltb, Time, unix, sort_by,
  IsSorted, sort_by-IsSorted,
}
use amarre.Store.Tables.{HealthRow, Db}
use amarre.Store.History.{
  HealthPoint, purge_history_rows, purge_health_history, series_rows, earlier, point_of,
  health_series,
}

abbrev pub point_earlier : HealthPoint → HealthPoint → Bool
point_earlier p q = ltb p.at q.at

map-point_of-IsSorted :
    (rs : List HealthRow) → IsSorted earlier rs → IsSorted point_earlier (map point_of rs)
map-point_of-IsSorted [] h = tt
map-point_of-IsSorted (r ∷ []) h = tt
map-point_of-IsSorted (r ∷ s ∷ rs) h = (ground arith, map-point_of-IsSorted (s ∷ rs) h.1)

-- The points of a series never go back in time.
pub health_series-IsSorted :
    (db : Db) (host : String) (since : Time) → IsSorted point_earlier (health_series db host since)
unfolding health_series
health_series-IsSorted db host since =
    map-point_of-IsSorted (sort_by earlier (series_rows host (unix since) db.history))
      (sort_by-IsSorted earlier (λ r s h. ground arith) (series_rows host (unix since) db.history))

series_rows-purge :
    (host : String) (limit since : ℕ) (rs : List HealthRow)
    → limit ≤ since
    → series_rows host since (purge_history_rows limit rs) ≡ series_rows host since rs
unfolding series_rows purge_history_rows
series_rows-purge host limit since [] h = refl
series_rows-purge host limit since (r ∷ rs) h =
    ground (arith, series_rows-purge host limit since rs)

-- The purge of what is older than `keep` is not seen in a series that begins within `keep`.
pub health_series-purge :
    (db : Db) (host : String) (keep : ℕ) (now since : Time)
    → unix (now - keep) ≤ unix since
    → health_series (purge_health_history db keep now) host since ≡ health_series db host since
unfolding health_series purge_health_history
health_series-purge db host keep now since h =
    ap (λ rs. map point_of (sort_by earlier rs))
      (series_rows-purge host (unix (now - keep)) (unix since) db.history h)
