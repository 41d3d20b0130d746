-- ===== src/Collector/Collect.antt =====
-- The collection of collector.go: `collectOne`, the loops of `CollectAll` and of
-- `RecordHealthSnapshot`, and `HostDetail`'s search of a host. The answers of a host and of its
-- probe are arguments, each payload as `saveMeta` serialises it.
pub mod Outcomes
use amarre.Base.{
  ℕ, Bool, true, false, not, ◌&&◌, String, Option, none, some, List, [], ◌∷◌, if◌then◌else◌, ℤ, pos,
  ltb_ℤ, is_zero_ℤ, Time, Dict, Result, ok, err, find_by,
}
use amarre.Config.{HostConfig, Config}
use amarre.Store.Tables.{Db}
use amarre.Store.Checks.{Check, record_check}
use amarre.Store.Meta.{put_meta, delete_meta}
use amarre.Store.History.{record_health}
use amarre.Collector.Backoff.{Backoff, due, note_failure, note_success}
use amarre.Fleet.Calls.{Status, RepoStats}
use amarre.Collector.Cache.{Entry}
use amarre.Collector.Cache
use amarre.Collector.Trees.{TreeStore}
use amarre.Collector.Sante.Board.{Sante, state, overall_text, summary}

-- The state of the `Collector`: its database, its backoffs, its cache of values of type `V`, its
-- trees and the operations that run.
pub record Console (V : Type 0) : Type 0 where
  pub db : Db
  pub bo : Dict Backoff
  pub cache : Dict (Entry V)
  pub trees : TreeStore
  pub running : Dict String

-- The answers of one collection: `none` for a call that failed. `probe` is none where the host
-- has no probe.
pub record Answers : Type 0 where
  pub status : Result String Status
  pub stats : Option (RepoStats × String)
  pub snapshots : Option String
  pub policy : Option String
  pub excludes : Option String
  pub health : Option String
  pub probe : Option String

unfoldable pub save : String → String → Option String → Time → Db → Db
unfolding put_meta
save host kind none now db = db
save host kind (some payload) now db = put_meta db host kind payload now

-- The sizes of the repository; the size of the snapshot where it has none of its own.
unfoldable pub with_stats : Check → Option RepoStats → Check
with_stats chk none = chk
with_stats chk (some rs) = record chk {
  repo_size = rs.total_size;
  repo_raw = rs.uncompressed_size;
  size_bytes =
      if is_zero_ℤ chk.size_bytes && ltb_ℤ (pos 0) rs.source_size
      then rs.source_size
      else chk.size_bytes;
}

abbrev pub stats_of : Option (RepoStats × String) → Option RepoStats
stats_of none = none
stats_of (some (rs, payload)) = some rs

abbrev pub payload_of : Option (RepoStats × String) → Option String
payload_of none = none
payload_of (some (rs, payload)) = some payload

abbrev pub new_check : HostConfig → Time → Check
new_check h now = record {
  host = h.name;
  collected_at = now;
  reachable = false;
  error = "";
  snapshot_id = "";
  snapshot_at = 0;
  size_bytes = pos 0;
  repo_size = pos 0;
  repo_raw = pos 0;
}

-- The check by the answer to "status".
unfoldable pub check_from : HostConfig → Time → Option RepoStats → Result String Status → Check
unfolding with_stats
check_from h now stats (err e) = record (new_check h now) { error = e }
check_from h now stats (ok st) =
    with_stats
      (record (new_check h now) {
        reachable = true;
        snapshot_id = st.snapshot_id;
        snapshot_at = st.time;
        size_bytes = st.size_bytes;
      })
      stats

-- The check that the collection records.
abbrev pub check_for : HostConfig → Time → Answers → Check
check_for h now a = check_from h now (stats_of a.stats) a.status

-- The data of a host that answered.
unfoldable pub save_answers : HostConfig → Time → Answers → Db → Db
unfolding save
save_answers h now a db = save h.name "health" a.health now (
    save h.name "excludes" a.excludes now (
      save h.name "policy" a.policy now (
        save h.name "snapshots" a.snapshots now (save h.name "stats" (payload_of a.stats) now db))))

-- The two branches on the status: the backoff, and the data.
unfoldable pub note_status :
    Config → HostConfig → Time → Result String Status → Dict Backoff → Dict Backoff
unfolding note_failure note_success
note_status c h now (err e) bo = (note_failure c.interval bo h.name now).0
note_status c h now (ok st) bo = note_success bo h.name

unfoldable pub save_status : HostConfig → Time → Answers → Result String Status → Db → Db
unfolding save_answers
save_status h now a (err e) db = db
save_status h now a (ok st) db = save_answers h now a db

-- The result of the probe; without a probe an old result is deleted.
unfoldable pub save_probe : HostConfig → Time → Option String → Db → Db
unfolding put_meta delete_meta
save_probe h now none db = delete_meta db h.name "probe"
save_probe h now (some payload) db = put_meta db h.name "probe" payload now

-- `now` is the time of the check, `later` that of the backoff and of the data.
unfoldable pub collect_one :
    {V : Type 0} → Config → HostConfig → Time → Time → Answers → Console V → Console V
unfolding check_from note_status save_status save_probe record_check
collect_one c h now later a con = record con {
  bo = note_status c h later a.status con.bo;
  cache = Cache.invalidate con.cache h.name;
  db =
      record_check (save_probe h later a.probe (save_status h later a a.status con.db))
        (check_for h now a);
}

-- `CollectAll` chooses its hosts before the first answer.
unfoldable pub chosen : List HostConfig → Dict Backoff → Time → List HostConfig
unfolding due
chosen [] bo now = []
chosen (h ∷ hs) bo now =
    let rest = chosen hs bo now in
    if h.disabled then rest else if due bo h.name now then h ∷ rest else rest

-- The loop of `RecordHealthSnapshot`.
unfoldable pub record_snapshot : List Sante → Time → Db → Db
unfolding record_health
record_snapshot [] now db = db
record_snapshot (s ∷ ss) now db =
    record_snapshot ss now
      (record_health db s.name now (overall_text (state s)) s.crits s.warns (summary s))

-- The search of a host of the configuration, in `HostDetail`, `Tree`, `Browse` and `Action`.
abbrev pub find_host : Config → String → Option HostConfig
find_host c name = find_by (λ h. h.name) name c.hosts
