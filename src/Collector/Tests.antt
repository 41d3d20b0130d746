-- ===== src/Collector/Tests.antt =====
-- Concrete hosts: their views, their reports and the findings on them.
use amarre.Base.{
  ℕ, ◌+◌, ◌*◌, ◌≤◌, ◌<◌, ◌≡◌, ◌≢◌, ◌↔◌, refl, Bool, true, false, not, ◌&&◌, String, Option, none,
  some, List, [], ◌∷◌, ◌++◌, map, arith, if◌then◌else◌, ltb_ℤ, pos, length, Time, Duration, epoch,
  second, minute, hour, find_by, IsSorted, max_duration, str_eq_iff,
}
use amarre.Config.{HostConfig, Config}
use amarre.Fleet.Health.{Health, BackupStatus}
use amarre.Store.Tables.{Db, empty_db}
use amarre.Store.Checks.{Check, record_check, check_host, latest_checks}
use amarre.Collector.View.{HostView, State, ok, overdue, view_of}
use amarre.Collector.View.Silence.{
  host_view, IsFresh, host_view-ok_iff, recorded, host_view-silence,
}
use amarre.Collector.Sante.{Texts}
use amarre.Collector.Sante.Evaluate.{
  evaluate, health_alertes, backup_alertes, check_alertes, deep_alertes, never_checked,
  timer_alertes, disk_alertes, memory_alertes, unit_alertes, error_alertes, reboot_alertes,
  upgrade_alertes, eol_alertes, local_alertes, probe_alertes,
}
use amarre.Collector.Sante.Board.{Decoders, judged, state, watch, critical}
use amarre.Collector.Sante.Findings.{IsSound, not-critical-IsSound}

abbrev noon : Time
noon = epoch + 20000 * (24 * hour)

abbrev host_every : String → Duration → HostConfig
host_every name expect = record {
  name = name;
  http_check = "";
  http_expect = pos 0;
  addr = "";
  user = "";
  port = pos 22;
  expect = expect;
  disabled = false;
}

abbrev web_host : HostConfig
web_host = host_every "web" (pos (26 * hour))

abbrev watched : Config
watched = record {
  listen = "127.0.0.1:8443";
  state_db = "amarre.db";
  fleet_key = "/etc/amarre/key";
  interval = pos (15 * minute);
  allowed_cidrs = [];
  tls = record { cert_file = ""; key_file = "" };
  hosts = web_host ∷ host_every "db" (pos (26 * hour)) ∷ [];
  allowed = [];
}

abbrev noon_check : Check
noon_check = record {
  host = "web";
  collected_at = noon;
  reachable = true;
  error = "";
  snapshot_id = "a1b2c3d4";
  snapshot_at = noon;
  size_bytes = pos 1000;
  repo_size = pos 400;
  repo_raw = pos 900;
}

abbrev one_check : Db
one_check = record_check empty_db noon_check

host_view-ok_iff_example : ((host_view one_check (noon + hour) web_host).state ≡ ok) ↔ (
    (ch : Check) × (find_by check_host "web" (latest_checks one_check) ≡ some ch)
    × IsFresh (noon + hour) web_host ch)
host_view-ok_iff_example = host_view-ok_iff one_check (noon + hour) web_host

abbrev other_check : Check
other_check = record noon_check { host = "db" }

host_view-silence_example :
    (host_view (recorded one_check (other_check ∷ [])) (noon + 27 * hour) web_host).state ≡ overdue
host_view-silence_example =
    host_view-silence empty_db noon_check (other_check ∷ []) web_host (26 * hour) (noon + 27 * hour)
      refl refl (omega arith) refl (omega arith)
      ((λ e. ground (arith, str_eq_iff "db" "web", e)), tt) (omega arith)

abbrev two_views : List HostView
two_views = view_of noon web_host none ∷ view_of noon web_host (some noon_check) ∷ []

abbrev plain : Texts
plain = record {
  duration_text = λ d. "26h0m0s";
  date_text = λ t. "01/01/2026";
  days = λ d. pos 40;
  parse_date = λ s. none;
  lower = λ s. s;
}

abbrev failed_restic : BackupStatus
failed_restic = record {
  backup_at = pos 100;
  backup_ok = true;
  check_at = pos 100;
  check_ok = false;
  check_dur = pos 1;
  check_error = "unable to create lock in backend: repository is already locked";
  check_kind = "";
  deep_at = pos 100;
  deep_ok = false;
  deep_dur = pos 1;
  deep_error = "";
  deep_subset = "5%";
  deep_kind = "corruption";
}

abbrev calm : Health
calm = record {
  collected_at = pos 0;
  uptime_s = pos 0;
  boot_time = pos 0;
  reboot_required = true;
  reboot_packages = [];
  cpus = pos 2;
  load = [];
  mem_total = pos 100;
  mem_available = pos 50;
  swap_total = pos 0;
  swap_used = pos 0;
  filesystems = record { mount = "/"; size = pos 100; avail = pos 60; pct = pos 40 } ∷ [];
  failed_units = [];
  oom_7d = pos 0;
  io_errors_7d = pos 0;
  updates_total = pos 0;
  updates_security = pos 0;
  last_unattended = pos 0;
  last_upgrade = record { at = pos 0; count = pos 0; auto = false; packages = [] };
  os = "Debian";
  os_eol = "";
  local_probe = none;
  backup_status = record failed_restic { check_ok = true; deep_ok = true };
  timers = ("amarre.timer", record { active = true; next = "" }) ∷ [];
}

abbrev web_view : HostView
web_view = view_of (noon + hour) web_host (some noon_check)

is_watched : state (judged plain (noon + hour) web_view (some calm) none) ≡ watch
unfolding state judged evaluate health_alertes backup_alertes check_alertes deep_alertes
    never_checked timer_alertes disk_alertes memory_alertes unit_alertes error_alertes
    reboot_alertes upgrade_alertes eol_alertes local_alertes probe_alertes view_of amarre.Base.mul64
    amarre.Fleet.Health.eol_date
is_watched = refl

not-critical : state (judged plain (noon + hour) web_view (some calm) none) ≢ critical
not-critical e = cc (is_watched, e)

not-critical-IsSound_example : (web_view.state ≡ State.ok) × IsSound (noon + hour) calm
not-critical-IsSound_example =
    not-critical-IsSound plain (noon + hour) web_view (some calm) none not-critical

abbrev no_decoder : Decoders
no_decoder = record { health_of = λ s. some calm; probe_of = λ s. none }
