-- ===== src/Collector/Timeline/Bars/Tests.antt =====
-- The bars of the sample host, with an exact quotient for the one in floating point.
use amarre.Base.{◌+◌, ◌*◌, ◌/◌, ◌≡◌, refl, arith, [], ◌∷◌, pos, Time, epoch, hour, All, unix}
use amarre.Store.Tables.{Db, empty_db}
use amarre.Collector.Samples.{lone}
use amarre.Collector.Timeline.Bars.{Share, bar_of, bars}
use amarre.Collector.Timeline.Bars.Balance.{Balanced, bars-Balanced}

abbrev exact : Share
exact = record { share = λ a b. a * 100 / b; share_small = λ h m one le few. omega (arith, one) }

abbrev noon : Time
noon = epoch + 20000 * (24 * hour) + 12 * hour

abbrev one_incident : Db
one_incident = record empty_db {
  history =
      record {
        host = "web";
        at = unix (noon + 0);
        state = "crit";
        crit = 1;
        warn = 0;
        summary = "disk";
      }
      ∷ [];
}

three_hours : bar_of exact "web" 4 ("ok" ∷ "" ∷ "crit" ∷ "ok" ∷ []) ≡ record {
  host = "web";
  pct_ok = pos 67;
  pct_warn = 0;
  pct_crit = 33;
  measured = 3;
  total = 4;
  coverage = 75;
  dur_ok = 2 * hour;
  dur_warn = 0;
  dur_crit = hour;
}
unfolding bar_of
three_hours = refl

bars-Balanced_example : All Balanced (bars exact lone one_incident noon 14)
bars-Balanced_example = bars-Balanced exact lone one_incident noon 14 (omega arith)
