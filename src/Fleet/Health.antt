-- ===== src/Fleet/Health.antt =====
-- The health report of health.go: `Health` and its parts, `Age` and `EOLDate`. A load,
-- a float of the source that nothing decides on, is kept as its text in the report.
use amarre.Base.{
  suc, ◌-◌, ◌*◌, Bool, String, Option, none, List, if◌then◌else◌, str_eq, ℤ, pos, negsuc, is_zero_ℤ,
  Time, Duration, epoch, second, of_unix, sub_time,
}

pub record LastUpgrade : Type 0 where
  pub at : ℤ
  pub count : ℤ
  pub auto : Bool
  pub packages : List String

pub record Filesystem : Type 0 where
  pub mount : String
  pub size : ℤ
  pub avail : ℤ
  pub pct : ℤ

pub record BackupStatus : Type 0 where
  pub backup_at : ℤ
  pub backup_ok : Bool
  pub check_at : ℤ
  pub check_ok : Bool
  pub check_dur : ℤ
  pub check_error : String
  pub check_kind : String
  pub deep_at : ℤ
  pub deep_ok : Bool
  pub deep_dur : ℤ
  pub deep_error : String
  pub deep_subset : String
  pub deep_kind : String

pub record LocalProbe : Type 0 where
  pub url : String
  pub up : Bool
  pub status : ℤ
  pub attempts : ℤ
  pub latency_ms : ℤ
  pub error : String
  pub checked_at : ℤ
  pub cert_expiry_raw : String

pub record TimerState : Type 0 where
  pub active : Bool
  pub next : String

-- `timers` is the map of the report, in the order in which one `range` visits it.
pub record Health : Type 0 where
  pub collected_at : ℤ
  pub uptime_s : ℤ
  pub boot_time : ℤ
  pub reboot_required : Bool
  pub reboot_packages : List String
  pub cpus : ℤ
  pub load : List String
  pub mem_total : ℤ
  pub mem_available : ℤ
  pub swap_total : ℤ
  pub swap_used : ℤ
  pub filesystems : List Filesystem
  pub failed_units : List String
  pub oom_7d : ℤ
  pub io_errors_7d : ℤ
  pub updates_total : ℤ
  pub updates_security : ℤ
  pub last_unattended : ℤ
  pub last_upgrade : LastUpgrade
  pub os : String
  pub os_eol : String
  pub local_probe : Option LocalProbe
  pub backup_status : BackupStatus
  pub timers : List (String × TimerState)

-- `time.Unix(s, 0)` for an int64 of seconds.
abbrev pub of_unix_ℤ : ℤ → Time
of_unix_ℤ (pos s) = of_unix s
of_unix_ℤ (negsuc s) = epoch - suc s * second

-- `LastUpgrade.Age`
unfoldable pub age : Time → LastUpgrade → Duration
age now u = if is_zero_ℤ u.at then pos 0 else sub_time now (of_unix_ℤ u.at)

-- `Health.EOLDate`: `parse_date` is `time.Parse("2006-01-02", …)`.
unfoldable pub eol_date : (String → Option Time) → Health → Option Time
eol_date parse_date h = if str_eq h.os_eol "" then none else parse_date h.os_eol
