-- ===== src/Collector/Backoff.antt =====
-- The backoff of collector.go: `due`, `noteFailure` and `noteSuccess`. Each of them holds `boMu`
-- throughout, and is one step on the map; the clock that it reads is an argument.
pub mod Waits
use amarre.Base.{
  ℕ, suc, ◌+◌, ◌*◌, Bool, true, false, String, Option, none, some, if◌then◌else◌, ℤ, pos, ltb_ℤ,
  shl64, min, Time, Duration, hour, add_time, after, Dict, lookup, insert, erase,
}

pub record Backoff : Type 0 where
  pub fails : ℕ
  pub next_try : Time

abbrev pub max_backoff : ℕ
max_backoff = 6 * hour

-- `!ok || time.Now().After(b.nextTry)`
abbrev pub is_due : Time → Option Backoff → Bool
is_due now none = true
is_due now (some b) = after now b.next_try

unfoldable pub due : Dict Backoff → String → Time → Bool
due bo host now = is_due now (lookup host bo)

-- `b.fails++` of the entry, or of the new one that the map receives.
abbrev pub fails_of : Option Backoff → ℕ
fails_of none = 1
fails_of (some b) = b.fails + 1

unfoldable pub delay : Duration → ℕ → Duration
unfolding shl64
delay interval fails =
    let d = shl64 interval (min fails 8) in if ltb_ℤ (pos max_backoff) d then pos max_backoff else d

unfoldable pub note_failure : Duration → Dict Backoff → String → Time → Dict Backoff × Duration
note_failure interval bo host now =
    let fails = fails_of (lookup host bo) in
    let d = delay interval fails in
    (insert host (record { fails = fails; next_try = add_time now d }) bo, d)

unfoldable pub note_success : Dict Backoff → String → Dict Backoff
note_success bo host = erase host bo
