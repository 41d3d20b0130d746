-- ===== src/Store/Checks/Latest.antt =====
-- The last collection of each host, and what the database keeps of it.
use amarre.Base.{
  ◌+◌, ◌≤◌, ◌≡◌, refl, ◌∙◌, ap, false, String, none, some, List, [], ◌∷◌, ◌++◌, arith,
  if◌then◌else◌, Option-cases, inl, inr, str_eq, str_eq_iff, is_zero, epoch, second, sort_by,
  by_key, find_by, find_by-append, find_by-sort_by, sort_by-Unique, find_by-map, map-Unique, Unique,
}
use mathlib.Core.Option
use amarre.Store.Tables.{CheckRow, Db}
use amarre.Store.Checks.{
  Check, row_of, record_check, check_of, row_host, check_host, latest_rows, latest_checks,
}

find_by-latest_rows-append :
    (k : String) (rs : List CheckRow) (r : CheckRow)
    → find_by row_host k (latest_rows (rs ++ r ∷ []))
      ≡ (if str_eq r.host k then some r else find_by row_host k (latest_rows rs))
unfolding find_by latest_rows
find_by-latest_rows-append k [] r = refl
find_by-latest_rows-append k (s ∷ rs) r = ground (
  arith,
  find_by-append row_host s.host rs (r ∷ []),
  find_by-latest_rows-append k rs r,
  str_eq_iff r.host s.host,
  str_eq_iff s.host k,
  str_eq_iff r.host k,
)

find_by-latest_rows-none :
    (k : String) (rs : List CheckRow)
    → find_by row_host k rs ≡ none
    → find_by row_host k (latest_rows rs) ≡ none
unfolding find_by latest_rows
find_by-latest_rows-none k [] e = refl
find_by-latest_rows-none k (r ∷ rs) e = ground (arith, find_by-latest_rows-none k rs)

latest_rows-Unique : (rs : List CheckRow) → Unique row_host (latest_rows rs)
unfolding latest_rows
latest_rows-Unique [] = tt
latest_rows-Unique (r ∷ rs) = elim (Option-cases (find_by row_host r.host rs)) [
  | inl e ↦ rw (e, Unique) (find_by-latest_rows-none r.host rs e, latest_rows-Unique rs)
  | inr (s, e) ↦ rw (e, Unique) (latest_rows-Unique rs)
]

-- Each host stands once in `LatestChecks`.
pub latest_checks-Unique : (db : Db) → Unique check_host (latest_checks db)
unfolding latest_checks
latest_checks-Unique db =
    map-Unique row_host check_host check_of (λ r. refl) _
      (sort_by-Unique row_host (latest_rows db.checks) (latest_rows-Unique db.checks))

find_by-latest_checks :
    (k : String) (db : Db)
    → find_by check_host k (latest_checks db)
      ≡ Option.map check_of (find_by row_host k (latest_rows db.checks))
unfolding latest_checks
find_by-latest_checks k db =
    find_by-map row_host check_host check_of (λ r. refl) k
      (sort_by (by_key row_host) (latest_rows db.checks))
    ∙ ap (Option.map check_of) (find_by-sort_by row_host k (latest_rows db.checks))

-- After a collection is recorded, `LatestChecks` gives it for its host, as the database keeps it,
-- and for every other host what it gave before.
pub latest_checks-record_check :
    (db : Db) (c : Check) (k : String)
    → find_by check_host k (latest_checks (record_check db c)) ≡ (
        if str_eq c.host k
        then some (check_of (row_of c))
        else find_by check_host k (latest_checks db))
unfolding record_check row_of
latest_checks-record_check db c k =
    rw
      (
        find_by-latest_checks k (record_check db c),
        find_by-latest_checks k db,
        find_by-latest_rows-append k db.checks (row_of c),
      )
      (ground arith)

-- A collection that is read back keeps all but the fractions of a second, and a snapshot of 1970
-- or later stays one: only the missing snapshot reads as missing.
pub check_of-row_of :
    (c : Check)
    → (epoch + second ≤ c.snapshot_at)
    → (is_zero (check_of (row_of c)).snapshot_at ≡ false)
      × ((check_of (row_of c)).snapshot_at ≤ c.snapshot_at)
      × (c.snapshot_at ≤ (check_of (row_of c)).snapshot_at + second)
unfolding check_of row_of
check_of-row_of c h = ground arith

pub check_of-reachable : (c : Check) → (check_of (row_of c)).reachable ≡ c.reachable
unfolding check_of row_of
check_of-reachable c = refl
