-- ===== src/Store/Checks.antt =====
-- The collections of store.go: `Check`, `RecordCheck`, `LatestChecks` and `History`. The rows of
-- `checks` stand in the order of their identifiers.
pub mod Latest
use amarre.Base.{
  ℕ, ◌+◌, ◌*◌, Bool, true, false, String, Option, none, some, List, [], ◌∷◌, ◌++◌, map, ltb,
  if◌then◌else◌, str_eq, ℤ, pos, Time, is_zero, unix, of_unix, take, sort_by, by_key, find_by,
}
use mathlib.Core.List.{reverse}
use amarre.Store.Tables.{CheckRow, Db}

pub record Check : Type 0 where
  pub host : String
  pub collected_at : Time
  pub reachable : Bool
  pub error : String
  pub snapshot_id : String
  pub snapshot_at : Time
  pub size_bytes : ℤ
  pub repo_size : ℤ
  pub repo_raw : ℤ

-- The values that `RecordCheck` inserts.
unfoldable pub row_of : Check → CheckRow
row_of c = record {
  host = c.host;
  collected_at = unix c.collected_at;
  reachable = c.reachable;
  error = c.error;
  snapshot_id = c.snapshot_id;
  snapshot_at = if is_zero c.snapshot_at then 0 else unix c.snapshot_at;
  size_bytes = c.size_bytes;
  repo_size = c.repo_size;
  repo_raw = c.repo_raw;
}

unfoldable pub record_check : Db → Check → Db
unfolding row_of
record_check db c = record db { checks = db.checks ++ row_of c ∷ [] }

-- What `LatestChecks` scans out of a row.
unfoldable pub check_of : CheckRow → Check
check_of r = record {
  host = r.host;
  collected_at = of_unix r.collected_at;
  reachable = r.reachable;
  error = r.error;
  snapshot_id = r.snapshot_id;
  snapshot_at = if ltb 0 r.snapshot_at then of_unix r.snapshot_at else 0;
  size_bytes = r.size_bytes;
  repo_size = r.repo_size;
  repo_raw = r.repo_raw;
}

abbrev pub row_host : CheckRow → String
row_host r = r.host

abbrev pub check_host : Check → String
check_host c = c.host

-- `id IN (SELECT MAX(id) … GROUP BY host)`: the rows with no later row of their host.
unfoldable pub latest_rows : List CheckRow → List CheckRow
unfolding find_by
latest_rows [] = []
latest_rows (r ∷ rs) =
    let rest = latest_rows rs in
    elim (find_by row_host r.host rs) [ some later ↦ rest | none ↦ r ∷ rest ]

-- `ORDER BY host`
unfoldable pub latest_checks : Db → List Check
unfolding latest_rows check_of sort_by
latest_checks db = map check_of (sort_by (by_key row_host) (latest_rows db.checks))

unfoldable pub host_rows : String → List CheckRow → List CheckRow
host_rows host [] = []
host_rows host (r ∷ rs) =
    let rest = host_rows host rs in if str_eq r.host host then r ∷ rest else rest

-- The columns that `History` reads: the rest of the `Check` keeps its zero value.
unfoldable pub history_check : String → CheckRow → Check
history_check host r = record {
  host = host;
  collected_at = of_unix r.collected_at;
  reachable = r.reachable;
  error = "";
  snapshot_id = "";
  snapshot_at = 0;
  size_bytes = r.size_bytes;
  repo_size = r.repo_size;
  repo_raw = pos 0;
}

-- `ORDER BY id DESC LIMIT n`, and the loop that swaps the ends.
unfoldable pub history : Db → String → ℕ → List Check
unfolding host_rows history_check
history db host n = reverse (map (history_check host) (take n (reverse (host_rows host db.checks))))
