-- ===== src/Collector/View.antt =====
-- The view of the hosts of collector.go: `State`, `HostView`, `Fleet`, `Totals` and `Sum`.
pub mod Silence
use amarre.Base.{
  ℕ, ◌+◌, Bool, true, false, String, Option, none, some, List, [], ◌∷◌, map, if◌then◌else◌, ℤ, pos,
  ltb_ℤ, add64, length, Time, Duration, is_zero, sub_time, Dict, lookup, index_from,
}
use amarre.Config.{HostConfig, Config}
use amarre.Store.Tables.{Db}
use amarre.Store.Checks.{Check, check_host, latest_checks}

pub data State : Type 0 where
  ok overdue unknown no_backup : State

pub record HostView : Type 0 where
  pub name : String
  pub state : State
  pub age : Duration
  pub snapshot_id : String
  pub snapshot_at : Time
  pub size_bytes : ℤ
  pub repo_size : ℤ
  pub error : String
  pub collected_at : Time
  pub expect : Duration

-- `HostView{Name: h.Name, Expect: h.Expect}` with the state given.
abbrev pub blank_view : HostConfig → State → HostView
blank_view h s = record {
  name = h.name;
  state = s;
  age = pos 0;
  snapshot_id = "";
  snapshot_at = 0;
  size_bytes = pos 0;
  repo_size = pos 0;
  error = "";
  collected_at = 0;
  expect = h.expect;
}

-- The default case of the switch: a reachable host with a snapshot.
unfoldable pub fresh_view : Time → HostConfig → Check → HostView
fresh_view now h ch =
    let age = sub_time now ch.snapshot_at in
    record {
      name = h.name;
      state = if ltb_ℤ h.expect age then overdue else ok;
      age = age;
      snapshot_id = ch.snapshot_id;
      snapshot_at = ch.snapshot_at;
      size_bytes = ch.size_bytes;
      repo_size = ch.repo_size;
      error = "";
      collected_at = ch.collected_at;
      expect = h.expect;
    }

-- The body of the loop of `Fleet`.
unfoldable pub view_of : Time → HostConfig → Option Check → HostView
unfolding fresh_view
view_of now h none = record (blank_view h unknown) { error = "jamais collecté" }
view_of now h (some ch) =
    if ch.reachable
    then (if is_zero ch.snapshot_at
        then record (blank_view h no_backup) { collected_at = ch.collected_at }
        else fresh_view now h ch)
    else record (blank_view h unknown) { error = ch.error; collected_at = ch.collected_at }

-- The map `byHost`.
unfoldable pub by_host : Db → Dict Check
by_host db = index_from check_host [] (latest_checks db)

unfoldable pub fleet_views : Time → Dict Check → List HostConfig → List HostView
unfolding view_of
fleet_views now m [] = []
fleet_views now m (h ∷ hs) = view_of now h (lookup h.name m) ∷ fleet_views now m hs

unfoldable pub fleet : Config → Db → Time → List HostView
unfolding fleet_views by_host
fleet c db now = fleet_views now (by_host db) c.hosts

-- The ratio of the two sizes is a float of the source; it is kept as the pair of its terms.
pub record Totals : Type 0 where
  pub hosts : ℕ
  pub alerts : ℕ
  pub protected : ℤ
  pub repo_size : ℤ
  pub ratio : Option (ℤ × ℤ)

abbrev pub is_ok : State → Bool
is_ok ok = true
is_ok _ = false

-- The hosts of the alerts page (`getAlerts` in server.go).
unfoldable pub firing : List HostView → List HostView
firing [] = []
firing (v ∷ vs) = let rest = firing vs in if is_ok v.state then rest else v ∷ rest

-- The loop of `Sum`.
unfoldable pub sum_from : Totals → List HostView → Totals
sum_from t [] = t
sum_from t (v ∷ vs) =
    sum_from
      (record t {
        alerts = if is_ok v.state then t.alerts else t.alerts + 1;
        protected = add64 t.protected v.size_bytes;
        repo_size = add64 t.repo_size v.repo_size;
      })
      vs

abbrev pub with_ratio : Totals → Totals
with_ratio t = record t {
  ratio = if ltb_ℤ (pos 0) t.repo_size then some (t.protected, t.repo_size) else none;
}

unfoldable pub sum : List HostView → Totals
unfolding sum_from
sum vs = with_ratio (
    sum_from
      (record { hosts = length vs; alerts = 0; protected = pos 0; repo_size = pos 0; ratio = none })
      vs)
