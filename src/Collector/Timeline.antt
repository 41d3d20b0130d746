-- ===== src/Collector/Timeline.antt =====
-- `episodes` of internal/collector/timeline.go: the periods out of the normal in the measures of a
-- host. The time at which it is called is an argument.
pub mod Periods
pub mod Gaps
pub mod Rows
pub mod Page
pub mod Bars
mod Tests
use amarre.Base.{
  Bool, true, false, ◌||◌, ◌&&◌, not, String, Option, none, some, List, [], ◌∷◌, ◌++◌,
  if◌then◌else◌, str_eq, Time, Duration, sub_time, pos,
}
use amarre.Store.History.{HealthPoint}

pub record Episode : Type 0 where
  pub host : String
  pub start : Time
  pub end : Time
  pub ongoing : Bool
  pub state : String
  pub cause : String
  pub duration : Duration

abbrev pub is_normal : HealthPoint → Bool
is_normal p = str_eq p.state "ok" || str_eq p.state "unknown"

-- `&Episode{Host: …, Start: …, State: …, Cause: …}`
abbrev pub opened : String → HealthPoint → Episode
opened host p = record {
  host = host;
  start = p.at;
  end = 0;
  ongoing = false;
  state = p.state;
  cause = p.summary;
  duration = pos 0;
}

abbrev pub closed : Episode → Time → Bool → Episode
closed c at ongoing = record c { end = at; duration = sub_time at c.start; ongoing = ongoing }

-- The level of an episode that gets worse, with the cause.
abbrev pub aggravated : Episode → HealthPoint → Episode
aggravated c p =
    if str_eq p.state "crit" && not (str_eq c.state "crit")
    then record c { state = "crit"; cause = p.summary }
    else c

abbrev pub with_cause : Episode → HealthPoint → Episode
with_cause c p = if str_eq c.cause "" then record c { cause = p.summary } else c

-- The body of the loop: `cur` after it, and what it appends to the result.
unfoldable pub turn : String → Option Episode → HealthPoint → Option Episode × List Episode
turn host none p = if is_normal p then (none, []) else (some (opened host p), [])
turn host (some c) p =
    if is_normal p
    then (none, closed c p.at false ∷ [])
    else (some (with_cause (aggravated c p) p), [])

unfoldable pub walk : String → Time → Option Episode → List HealthPoint → List Episode
unfolding turn
walk host now none [] = []
walk host now (some c) [] = closed c now true ∷ []
walk host now cur (p ∷ pts) = let t = turn host cur p in t.1 ++ walk host now t.0 pts

unfoldable pub episodes : String → Time → List HealthPoint → List Episode
unfolding walk
episodes host now pts = walk host now none pts
