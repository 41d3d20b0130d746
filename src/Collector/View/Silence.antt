-- ===== src/Collector/View/Silence.antt =====
-- The watch is over the absence of a backup: what it takes to be shown as up to date.
use amarre.Base.{
  ℕ, ◌+◌, ◌≤◌, ◌<◌, ◌≡◌, ◌≢◌, refl, sym, subst, ap, ◌∙◌, ◌↔◌, Bool, true, false, String, Option,
  none, some, List, [], ◌∷◌, map, arith, if◌then◌else◌, Bool-cases, Option-cases, inl, inr, ℤ, pos,
  ltb_ℤ, ◌≤ℤ◌, add64, length, Time, is_zero, sub_time, max_duration, epoch, second, lookup,
  lookup-index_from, find_by, str_eq, str_eq_iff, or_else,
}
use amarre.Config.{HostConfig, Config}
use amarre.Store.Tables.{Db}
use amarre.Store.Checks.{Check, row_of, check_of, record_check, check_host, latest_checks}
use amarre.Store.Checks.Latest.{
  latest_checks-Unique, latest_checks-record_check, check_of-row_of, check_of-reachable,
}
use amarre.Collector.View.{
  ok, overdue, unknown, no_backup, HostView, view_of, by_host, fleet_views, fleet, is_ok, firing,
  Totals, sum_from, sum,
}

or_else-none {ℓ} : {A : Type ℓ} (o : Option A) → or_else o none ≡ o
or_else-none none = refl
or_else-none (some a) = refl

-- The map that `Fleet` builds holds the last collection of each host.
lookup-by_host :
    (k : String) (db : Db) → lookup k (by_host db) ≡ find_by check_host k (latest_checks db)
unfolding by_host
lookup-by_host k db =
    lookup-index_from check_host k [] (latest_checks db) (latest_checks-Unique db)
    ∙ or_else-none (find_by check_host k (latest_checks db))

-- The view of a host as `Fleet` computes it.
abbrev pub host_view : Db → Time → HostConfig → HostView
host_view db now h = view_of now h (find_by check_host h.name (latest_checks db))

fleet_views-lookup :
    (db : Db) (now : Time) (hs : List HostConfig)
    → fleet_views now (by_host db) hs ≡ map (host_view db now) hs
unfolding fleet_views
fleet_views-lookup db now [] = refl
fleet_views-lookup db now (h ∷ hs) = rw (lookup-by_host h.name db, fleet_views-lookup db now hs)

-- `Fleet` shows the configured hosts in their order, each one by its own last collection.
pub fleet-eq-map :
    (c : Config) (db : Db) (now : Time) → fleet c db now ≡ map (host_view db now) c.hosts
unfolding fleet
fleet-eq-map c db now = fleet_views-lookup db now c.hosts

-- What a collection must be for its host to be shown as up to date.
pub record IsFresh (now : Time) (h : HostConfig) (ch : Check) : Type 0 where
  pub answered : ch.reachable ≡ true
  pub has_snapshot : ch.snapshot_at ≢ 0
  pub in_time : sub_time now ch.snapshot_at ≤ℤ h.expect

in_time_iff : (e a : ℤ) → ((if ltb_ℤ e a then overdue else ok) ≡ ok) ↔ (a ≤ℤ e)
in_time_iff e a = elim (Bool-cases (ltb_ℤ e a)) [
  | inl late ↦ rw late (λ h. cc, λ h. absurd (ground arith))
  | inr soon ↦ rw soon (λ h. ground arith, λ h. refl)
]

switch_iff :
    (r z : Bool) (e a : ℤ)
    → ((if r then (if z then no_backup else (if ltb_ℤ e a then overdue else ok)) else unknown) ≡ ok)
      ↔ ((r ≡ true) × (z ≡ false) × (a ≤ℤ e))
switch_iff false z e a = (λ h. cc, λ h. cc (h.0))
switch_iff true true e a = (λ h. cc, λ h. cc (h.1))
switch_iff true false e a = (λ h. (refl, refl, (in_time_iff e a).0 h), λ h. (in_time_iff e a).1 h.2)

view_of-state :
    (now : Time) (h : HostConfig) (ch : Check)
    → (view_of now h (some ch)).state ≡ (
        if ch.reachable
        then (if is_zero ch.snapshot_at
            then no_backup
            else (if ltb_ℤ h.expect (sub_time now ch.snapshot_at) then overdue else ok))
        else unknown)
unfolding view_of
view_of-state now h ch = elim (Bool-cases ch.reachable) [
  | inr refused ↦ rw refused
  | inl answered ↦ rw answered (elim (Bool-cases (is_zero ch.snapshot_at)) [
    | inl none_yet ↦ rw none_yet
    | inr some_yet ↦ rw some_yet
  ])
]

view_of-ok_iff :
    (now : Time) (h : HostConfig) (ch : Check)
    → ((view_of now h (some ch)).state ≡ ok) ↔ IsFresh now h ch
view_of-ok_iff now h ch =
    let sw =
      switch_iff ch.reachable (is_zero ch.snapshot_at) h.expect (sub_time now ch.snapshot_at) in
    (
      λ e.
          let f = sw.0 (sym (view_of-state now h ch) ∙ e) in
          record { answered = f.0; has_snapshot = λ z. ground (arith, f.1); in_time = f.2 },
      λ f. view_of-state now h ch ∙ sw.1 (f.answered, ground (arith, f.has_snapshot), f.in_time),
    )

-- A host is shown as up to date exactly when it was collected, and its last collection reached
-- it, found a snapshot, and the age of the snapshot is at most the expected delay. In every other
-- case, silence included, it is not.
pub host_view-ok_iff :
    (db : Db) (now : Time) (h : HostConfig)
    → ((host_view db now h).state ≡ ok)
      ↔ ((ch : Check) × (find_by check_host h.name (latest_checks db) ≡ some ch) × IsFresh now h ch)
unfolding view_of
host_view-ok_iff db now h = elim (Option-cases (find_by check_host h.name (latest_checks db))) [
  | inl e ↦ rw e (λ p. cc, λ f. cc (f.1))
  | inr (ch, e) ↦ rw e (
    λ p. (ch, refl, (view_of-ok_iff now h ch).0 p),
    λ f. (view_of-ok_iff now h ch).1 (subst (λ c. IsFresh now h c) (ground (arith, f.1)) f.2),
  )
]

late_age : (s now e : ℕ) → s + e < now → e < max_duration → ltb_ℤ (pos e) (sub_time now s) ≡ true
late_age s now e h k = ground arith

last-overdue :
    (db : Db) (c : Check) (h : HostConfig) (e : ℕ) (now : Time)
    → c.host ≡ h.name
    → c.reachable ≡ true
    → epoch + second ≤ c.snapshot_at
    → h.expect ≡ pos e
    → e < max_duration
    → c.snapshot_at + e < now
    → (host_view (record_check db c) now h).state ≡ overdue
last-overdue db c h e now named answered dated expects fits late =
    let read = check_of (row_of c) in
    let found : find_by check_host h.name (latest_checks (record_check db c)) ≡ some read =
      latest_checks-record_check db c h.name ∙ pick in
    ap (λ o. (view_of now h o).state) found ∙ view_of-state now h read ∙ switched
  where
    pick :
        (if str_eq c.host h.name
          then some (check_of (row_of c))
          else find_by check_host h.name (latest_checks db))
        ≡ some (check_of (row_of c))
    pick = rw ((str_eq_iff c.host h.name).1 named)

    kept : (check_of (row_of c)).reachable ≡ true
    kept = check_of-reachable c ∙ answered

    switched :
        (if (check_of (row_of c)).reachable
          then (if is_zero (check_of (row_of c)).snapshot_at
              then no_backup
              else (if ltb_ℤ h.expect (sub_time now (check_of (row_of c)).snapshot_at)
                  then overdue
                  else ok))
          else unknown)
        ≡ overdue
    switched =
        let back = check_of-row_of c dated in
        rw (
          kept,
          back.0,
          expects,
          late_age (check_of (row_of c)).snapshot_at now e (omega (arith, back.1)) fits,
        )

-- The collections that follow, in their order.
abbrev pub recorded : Db → List Check → Db
recorded db [] = db
recorded db (c ∷ cs) = recorded (record_check db c) cs

-- None of these collections is of the host.
abbrev pub Silent : String → List Check → Type 0
Silent k [] = Unit {0}
Silent k (c ∷ cs) = (c.host ≢ k) × Silent k cs

recorded-Silent :
    (db : Db) (k : String) (cs : List Check)
    → Silent k cs
    → find_by check_host k (latest_checks (recorded db cs))
      ≡ find_by check_host k (latest_checks db)
recorded-Silent db k [] h = refl
recorded-Silent db k (c ∷ cs) (other, rest) =
    recorded-Silent (record_check db c) k cs rest ∙ latest_checks-record_check db c k ∙ passed_over
  where
    passed_over :
        (if str_eq c.host k
          then some (check_of (row_of c))
          else find_by check_host k (latest_checks db))
        ≡ find_by check_host k (latest_checks db)
    passed_over =
        let no_match : str_eq c.host k ≡ false = ground (arith, str_eq_iff c.host k, other) in
        rw no_match

-- A host whose last collection reached it and found a snapshot of 1970 or later is overdue as soon
-- as the snapshot is older than the expected delay, and at every later time, as long as it is not
-- collected again, whatever collections of other hosts follow: nothing has to fail.
pub host_view-silence :
    (db : Db) (c : Check) (others : List Check) (h : HostConfig) (e : ℕ) (now : Time)
    → c.host ≡ h.name
    → c.reachable ≡ true
    → epoch + second ≤ c.snapshot_at
    → h.expect ≡ pos e
    → e < max_duration
    → Silent h.name others
    → c.snapshot_at + e < now
    → (host_view (recorded (record_check db c) others) now h).state ≡ overdue
host_view-silence db c others h e now named answered dated expects fits silent late =
    ap (λ o. (view_of now h o).state) (recorded-Silent (record_check db c) h.name others silent)
    ∙ last-overdue db c h e now named answered dated expects fits late

sum_from-alerts :
    (t : Totals) (vs : List HostView) → (sum_from t vs).alerts ≡ t.alerts + length (firing vs)
unfolding sum_from firing
sum_from-alerts t [] = omega arith
sum_from-alerts t (v ∷ vs) = ground (
  arith,
  sum_from-alerts
      (record t {
        alerts = if is_ok v.state then t.alerts else t.alerts + 1;
        protected = add64 t.protected v.size_bytes;
        repo_size = add64 t.repo_size v.repo_size;
      })
      vs,
)

-- The count of alerts on the front page is the number of rows of the alerts page.
pub sum-alerts : (vs : List HostView) → (sum vs).alerts ≡ length (firing vs)
unfolding sum
sum-alerts vs = sum_from-alerts _ vs ∙ omega arith
