-- ===== src/Collector/Probing/Tests.antt =====
-- A run of the probe: the site fails once and then answers.
use amarre.Base.{
  ℕ, zero, suc, ◌≡◌, refl, ◌+◌, ◌*◌, true, false, inl, none, some, pos, Time, hour, epoch,
}
use amarre.Config.{HostConfig}
use amarre.Collector.Sante.{Probe}
use amarre.Collector.Probing.{failed, answered, Try, probe_http}
use amarre.Collector.Probing.Patience.{Judged, probe_http-verdict}

abbrev noon : Time
noon = epoch + 12 * hour

abbrev site : HostConfig
site = record {
  name = "web";
  http_check = "https://example.org/";
  http_expect = pos 0;
  addr = "web";
  user = "root";
  port = pos 22;
  expect = pos (26 * hour);
  disabled = false;
}

abbrev tries : ℕ → Try
tries zero = record { reply = failed (pos 0) "refused"; cancelled = false }
tries (suc zero) = record { reply = failed (pos 0) "refused"; cancelled = false }
tries (suc (suc i)) = record { reply = answered (pos 5) (pos 301) none; cancelled = false }

abbrev recovered : Probe
recovered = record {
  url = "https://example.org/";
  up = true;
  status = pos 301;
  latency = pos 5;
  attempts = 2;
  error = "";
  checked_at = noon;
  cert_expiry = 0;
}

probe_http-recovered : probe_http site noon tries ≡ some recovered
unfolding probe_http
probe_http-recovered = refl

probe_http-verdict_example : Judged (pos 200) tries recovered
probe_http-verdict_example =
    probe_http-verdict site noon tries recovered (pos 200) (inl (refl, refl)) probe_http-recovered
