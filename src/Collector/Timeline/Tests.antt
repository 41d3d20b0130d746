-- ===== src/Collector/Timeline/Tests.antt =====
-- A site that is watched, then critical, then well again, then down.
use amarre.Base.{◌≡◌, ℕ, ◌+◌, ◌*◌, refl, String, [], ◌∷◌, ◌++◌, arith, Time, hour, epoch, List}
use amarre.Store.History.{HealthPoint}
use amarre.Collector.Timeline.Rows.{Format, row_of}
use amarre.Collector.Timeline.Rows.Worst.{rank_at}
use amarre.Collector.Timeline.Rows.Counts.{Shows, row_of-Shows}

abbrev midnight : Time
midnight = epoch + 240 * hour

abbrev measure : ℕ → String → HealthPoint
measure h state = record {
  at = midnight + h * hour;
  state = state;
  crit = 0;
  warn = 0;
  summary = state;
}

abbrev before_crit : List HealthPoint
before_crit = measure 1 "ok" ∷ measure 2 "warn" ∷ []

abbrev after_crit : List HealthPoint
after_crit = measure 4 "ok" ∷ measure 5 "crit" ∷ []

abbrev dated : Format
dated t = "01/02 03h04"

row_of-Shows_example :
    Shows midnight
      (2 * hour)
      4
      1
      (before_crit ++ (measure 3 "crit" ∷ after_crit))
      (row_of dated "web" midnight (2 * hour) 4 (before_crit ++ (measure 3 "crit" ∷ after_crit)))
row_of-Shows_example =
    row_of-Shows dated "web" midnight (2 * hour) 4 1
      (before_crit ++ (measure 3 "crit" ∷ after_crit)) (omega arith) (omega arith) (omega arith)
      (omega arith)

-- The interval with a warning and a critical measure is critical; the last one has no measure.
row_of-run :
    (rank_at 1
        (row_of dated "web" midnight
          (2 * hour)
          4
          (before_crit ++ (measure 3 "crit" ∷ after_crit))).cells
      ≡ 3)
    × ((row_of dated "web" midnight
          (2 * hour)
          4
          (before_crit ++ (measure 3 "crit" ∷ after_crit))).coverage
        ≡ 75)
unfolding row_of
row_of-run = (refl, refl)
