-- ===== src/Collector/Sante.antt =====
-- The findings on a host of sante.go: `Alerte`, `checkKind`, `itoa`, `join` and the parts of
-- `Evaluate`, each the list of the alerts that it adds. What the code asks of Go's formatting,
-- parsing and lower-casing enters as the record `Texts`.
pub mod Evaluate
pub mod Board
pub mod Agreement
pub mod Findings
use Prim.Native.String.{◌++◌ as text_append}
use text.Mathlib.Text.{find?}
use amarre.Base.{
  digit, concat, ℕ, zero, suc, ◌+◌, ◌-◌, ◌*◌, ◌/◌, ◌%◌, ◌^◌, Bool, true, false, not, ◌&&◌, ◌||◌,
  String, Option, none, some, List, [], ◌∷◌, ◌++◌, ltb, ◌==◌, if◌then◌else◌, str_eq, ℤ, pos, negsuc,
  ltb_ℤ, mul64, is_zero_ℤ, Time, Duration, hour, is_zero,
}
use amarre.Fleet.Health.{
  Health, BackupStatus, Filesystem, LastUpgrade, LocalProbe, TimerState, age, eol_date,
}
use amarre.Collector.View.{HostView, State}

pub data Level : Type 0 where
  crit warn : Level

pub record Alerte : Type 0 where
  pub niveau : Level
  pub sujet : String
  pub detail : String

abbrev pub alerte : Level → String → String → List Alerte
alerte niveau sujet detail = record { niveau = niveau; sujet = sujet; detail = detail } ∷ []

-- `Probe` of probe.go.
pub record Probe : Type 0 where
  pub url : String
  pub up : Bool
  pub status : ℤ
  pub latency : Duration
  pub attempts : ℕ
  pub error : String
  pub checked_at : Time
  pub cert_expiry : Time

-- `Duration.String`, `Format("02/01/2006")`, `int(d.Hours()/24)`, `time.Parse("2006-01-02", …)`
-- and `strings.ToLower`.
pub record Texts : Type 0 where
  pub duration_text : Duration → String
  pub date_text : Time → String
  pub days : Duration → ℤ
  pub parse_date : String → Option Time
  pub lower : String → String

-- The loop of `itoa`, which fills the buffer from its end: at most twenty digits.
unfoldable pub digits : ℕ → ℕ → String → String
digits zero n tail = tail
digits (suc fuel) n tail =
    let more = digits fuel (n / 10) (text_append (digit (n % 10)) tail) in
    if ltb 0 n then more else tail

-- The least int64 has no opposite: only its sign is written.
unfoldable pub itoa : ℤ → String
unfolding digits
itoa (pos n) = if n == 0 then "0" else digits 20 n ""
itoa (negsuc n) = text_append "-" (if n + 1 == 2 ^ 63 then "" else digits 20 (n + 1) "")

unfoldable pub join : List String → String
join [] = ""
join (s ∷ []) = s
join (s ∷ t ∷ ts) = text_append s (text_append ", " (join (t ∷ ts)))

-- `strings.Contains`
abbrev pub contains_text : String → String → Bool
contains_text s t = elim (find? s t) [ none ↦ false | some _ ↦ true ]

unfoldable pub guess_kind : String → String
guess_kind m =
    if contains_text m "lock" || contains_text m "verrou"
    then "verrou"
    else if contains_text m "does not exist" || contains_text m "unable to open repository"
    then "absent"
    else if contains_text m "wrong password" || contains_text m "mot de passe"
    then "motdepasse"
    else "indetermine"

unfoldable pub check_kind : Texts → String → String → String
unfolding guess_kind
check_kind t kind msg = if str_eq kind "" then guess_kind (t.lower msg) else kind
