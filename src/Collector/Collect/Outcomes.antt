-- ===== src/Collector/Collect/Outcomes.antt =====
-- What a collection leaves behind, whatever the host answered.
use amarre.Base.{
  ◌≡◌, refl, ap, ◌∙◌, String, Option, none, some, map, sort_by, by_key, arith, if◌then◌else◌,
  str_eq, str_eq_iff, Time, Result, ok, err, find_by, unix, of_unix,
}
use amarre.Config.{HostConfig, Config}
use amarre.Store.Tables.{Db, no_meta}
use amarre.Store.Checks.{
  check_of, row_of, check_host, record_check, row_host, latest_rows, latest_checks,
}
use amarre.Store.Checks.Latest.{latest_checks-record_check}
use amarre.Store.Meta.{get_meta, put_meta, delete_meta}
use amarre.Store.Meta.Laws.{get_meta-put_meta, get_meta-delete_meta}
use amarre.Collector.View.{State, view_of}
use amarre.Collector.View.Silence.{host_view}
use amarre.Fleet.Calls.{Status, RepoStats}
use amarre.Collector.Collect.{
  Console, Answers, stats_of, save, save_answers, save_status, save_probe, check_for, check_from,
  with_stats, collect_one,
}

save-checks :
    (host kind : String) (o : Option String) (now : Time) (db : Db)
    → (save host kind o now db).checks ≡ db.checks
unfolding save put_meta
save-checks host kind none now db = refl
save-checks host kind (some p) now db = refl

save_answers-checks :
    (h : HostConfig) (now : Time) (a : Answers) (db : Db)
    → (save_answers h now a db).checks ≡ db.checks
unfolding save_answers
save_answers-checks h now a db = simp save-checks refl

save_probe-checks :
    (h : HostConfig) (now : Time) (o : Option String) (db : Db)
    → (save_probe h now o db).checks ≡ db.checks
unfolding save_probe put_meta delete_meta
save_probe-checks h now none db = refl
save_probe-checks h now (some p) db = refl

save_status-checks :
    (h : HostConfig) (now : Time) (a : Answers) (r : Result String Status) (db : Db)
    → (save_status h now a r db).checks ≡ db.checks
unfolding save_status
save_status-checks h now a (ok st) db = save_answers-checks h now a db
save_status-checks h now a (err x) db = refl

latest_checks-eq : (db db' : Db) → db'.checks ≡ db.checks → latest_checks db' ≡ latest_checks db
unfolding latest_checks
latest_checks-eq db db' e = ap (λ rs. map check_of (sort_by (by_key row_host) (latest_rows rs))) e

check_from-host :
    (h : HostConfig) (now : Time) (stats : Option RepoStats) (r : Result String Status)
    → (check_from h now stats r).host ≡ h.name
unfolding check_from with_stats
check_from-host h now none (ok st) = refl
check_from-host h now (some rs) (ok st) = refl
check_from-host h now stats (err e) = refl

-- Whatever a host answers, its collection becomes its last one, and that of no other host
-- changes.
pub collect_one-latest :
    {V : Type 0} (c : Config) (h : HostConfig) (now later : Time) (a : Answers) (con : Console V)
    (k : String)
    → find_by check_host k (latest_checks (collect_one c h now later a con).db) ≡ (
        if str_eq h.name k
        then some (check_of (row_of (check_for h now a)))
        else find_by check_host k (latest_checks con.db))
unfolding collect_one
collect_one-latest c h now later a con k =
    let saved = save_status h later a a.status con.db in
    let probed = save_probe h later a.probe saved in
    latest_checks-record_check probed (check_for h now a) k
    ∙ ap
        (λ n.
          if str_eq n k
          then some (check_of (row_of (check_for h now a)))
          else find_by check_host k (latest_checks probed))
        (check_from-host h now (stats_of a.stats) a.status)
    ∙ ap
        (λ cs.
          if str_eq h.name k
          then some (check_of (row_of (check_for h now a)))
          else find_by check_host k cs)
        (latest_checks-eq con.db probed
          (save_probe-checks h later a.probe saved ∙ save_status-checks h later a a.status con.db))

host_view-collect_one :
    {V : Type 0} (c : Config) (h : HostConfig) (now later t : Time) (a : Answers) (con : Console V)
    → host_view (collect_one c h now later a con).db t h
      ≡ view_of t h (some (check_of (row_of (check_for h now a))))
host_view-collect_one c h now later t a con =
    ap (view_of t h)
      (collect_one-latest c h now later a con h.name ∙ ground (arith, str_eq_iff h.name h.name))

-- A host that does not answer is shown as unreachable with the error of its collection, at
-- whatever time, and whatever was known of it before.
pub collect_one-unreachable :
    {V : Type 0} (c : Config) (h : HostConfig) (now later t : Time) (a : Answers) (con : Console V)
    (e : String)
    → a.status ≡ err e
    → ((host_view (collect_one c h now later a con).db t h).state ≡ State.unknown)
      × ((host_view (collect_one c h now later a con).db t h).error ≡ e)
unfolding view_of check_from check_of row_of
collect_one-unreachable c h now later t a con e failed =
    let view =
      host_view-collect_one c h now later t a con
      ∙ ap (λ r. view_of t h (some (check_of (row_of (check_from h now (stats_of a.stats) r)))))
          failed in
    (ap (λ v. v.state) view, ap (λ v. v.error) view)

probed-meta :
    (h : HostConfig) (later : Time) (o : Option String) (db : Db)
    → get_meta (save_probe h later o db) h.name "probe"
      ≡ elim o [ none ↦ err no_meta | some p ↦ ok (p, of_unix (unix later)) ]
unfolding save_probe
probed-meta h later none db =
    get_meta-delete_meta db h.name "probe" h.name "probe" ∙ ground (arith, str_eq_iff h.name h.name)
probed-meta h later (some p) db =
    get_meta-put_meta db h.name "probe" p h.name "probe" later
    ∙ ground (arith, str_eq_iff h.name h.name)

-- The result of the probe is kept even when the host does not answer; and where a host has no
-- probe, no result is kept.
pub collect_one-probe :
    {V : Type 0} (c : Config) (h : HostConfig) (now later : Time) (a : Answers) (con : Console V)
    → get_meta (collect_one c h now later a con).db h.name "probe"
      ≡ elim a.probe [ none ↦ err no_meta | some p ↦ ok (p, of_unix (unix later)) ]
unfolding collect_one record_check get_meta
collect_one-probe c h now later a con =
    probed-meta h later a.probe (save_status h later a a.status con.db)
