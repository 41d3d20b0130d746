-- ===== src/Store/Hourly/Tests.antt =====
-- Three readings of a host in two hours.
use amarre.Base.{ℕ, ◌≡◌, ◌⊎◌, refl, String, some, none, [], ◌∷◌, epoch, unix, of_unix}
use amarre.Store.Tables.{HealthRow, Db, empty_db}
use amarre.Store.History.{series_rows}
use amarre.Store.Hourly.{HourlyState, in_hour, hourly_history}
use amarre.Store.Hourly.Worst.{Shows, hourly_history-Shows}

abbrev reading : ℕ → String → ℕ → String → HealthRow
reading at state crit summary = record {
  host = "web";
  at = at;
  state = state;
  crit = crit;
  warn = 0;
  summary = summary;
}

abbrev three : Db
three = record empty_db {
  history =
      reading 7200 "crit" 2 "disk" ∷ reading 9000 "ok" 0 "" ∷ reading 10800 "warn" 0 "timer" ∷ [];
}

-- Without a bound on the time the hour has the state, the count and the text of its worst reading.
worst_of_two :
    hourly_history three "web" epoch 7200
    ≡ some (record {
      hour = of_unix 7200;
      state = "crit";
      crit = 2;
      warn = 0;
      summary = "disk";
      samples = 2;
    })
unfolding hourly_history
worst_of_two = refl

-- The text of an hour comes from all its readings, also from those before the window.
text_from_before :
    hourly_history three "web" (of_unix 9000) 7200
    ≡ some (record {
      hour = of_unix 7200;
      state = "ok";
      crit = 0;
      warn = 0;
      summary = "disk";
      samples = 1;
    })
unfolding hourly_history
text_from_before = refl

hourly_history-Shows_example :
    ((in_hour 7200 (series_rows "web" (unix epoch) three.history) ≡ [])
      × (hourly_history three "web" epoch 7200 ≡ none))
    ⊎ ((s : HourlyState) × (hourly_history three "web" epoch 7200 ≡ some s)
        × Shows (in_hour 7200 (series_rows "web" (unix epoch) three.history)) s)
hourly_history-Shows_example = hourly_history-Shows three "web" epoch 7200
