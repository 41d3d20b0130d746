-- ===== src/Collector/Browse.antt =====
-- What the pages ask of a host: the cached calls of collector.go, and `Tree` and `Browse` as whole
-- calls. The answers of the host are arguments; so is the store of trees at the end of a wait, as
-- the goroutine that fetches leaves it.
pub mod Memory
mod Tests
use Prim.Native.String.{◌++◌ as text_append}
use amarre.Base.{
  ℕ, ◌*◌, Bool, String, Option, none, some, List, [], ◌∷◌, if◌then◌else◌, ℤ, pos, Time, Duration,
  Dict, lookup, Result, ok, err, concat, second,
}
use amarre.Config.{HostConfig, Config}
use amarre.Fleet.Tree.{Node, Tree, Paths, children}
use amarre.Fleet.Calls.{Snapshot, RepoStats, PolicyEntry}
use amarre.Collector.Cache.{Entry}
use amarre.Collector.Cache
use amarre.Collector.Trees.{
  TreeStore, Demand, served, waits, fetches, key, demand, keep, give_up, leave,
}
use amarre.Collector.Collect.{find_host}
use amarre.Collector.Detail.{unknown_host}

-- What the cache holds, by the types that the callers assert.
pub data Value : Type 0 where
  snapshots_value : List Snapshot → Value
  stats_value : RepoStats → Value
  excludes_value : List String → Value
  policy_value : List PolicyEntry → Value

-- A value, an error, or the panic of a failed type assertion.
pub data Fetched {ℓ} (A : Type ℓ) : Type ℓ where
  value : A → Fetched A
  failed : String → Fetched A
  panic : Fetched A

-- A kind of value: its suffix in the keys, and how it goes in and out of the cache.
pub record Kind (A : Type 0) : Type 0 where
  pub suffix : String
  pub wrap : A → Value
  pub unwrap : Value → Option A

abbrev pub as_snapshots : Value → Option (List Snapshot)
as_snapshots (snapshots_value v) = some v
as_snapshots _ = none

abbrev pub as_stats : Value → Option RepoStats
as_stats (stats_value v) = some v
as_stats _ = none

abbrev pub as_excludes : Value → Option (List String)
as_excludes (excludes_value v) = some v
as_excludes _ = none

abbrev pub as_policy : Value → Option (List PolicyEntry)
as_policy (policy_value v) = some v
as_policy _ = none

abbrev pub snapshots_kind : Kind (List Snapshot)
snapshots_kind = record { suffix = "|snapshots"; wrap = snapshots_value; unwrap = as_snapshots }

abbrev pub stats_kind : Kind RepoStats
stats_kind = record { suffix = "|stats"; wrap = stats_value; unwrap = as_stats }

abbrev pub excludes_kind : Kind (List String)
excludes_kind = record { suffix = "|excludes"; wrap = excludes_value; unwrap = as_excludes }

abbrev pub policy_kind : Kind (List PolicyEntry)
policy_kind = record { suffix = "|policy"; wrap = policy_value; unwrap = as_policy }

-- The ttl of `New`.
abbrev pub cache_ttl : Duration
cache_ttl = pos (90 * second)

module _ {A : Type 0} (kind : Kind A) where
  -- The type assertion.
  abbrev pub asserted : Option A → Fetched A
  asserted none = panic
  asserted (some a) = value a

  abbrev pub from_host :
      Dict (Entry Value) → String → Time → Result String A → Dict (Entry Value) × Fetched A
  from_host m k now (err e) = (m, failed e)
  from_host m k now (ok a) = (Cache.put m k (kind.wrap a) now, value a)

  abbrev pub from_cache :
      Dict (Entry Value)
      → String
      → Time
      → Result String A
      → Option Value
      → Dict (Entry Value) × Fetched A
  from_cache m k now answer none = from_host m k now answer
  from_cache m k now answer (some v) = (m, asserted (kind.unwrap v))

  -- `snapshotsCached`, `statsCached`, `excludesCached` and `policyCached`; `later` is the time at
  -- which the answer is put.
  unfoldable pub cached :
      Dict (Entry Value) → String → Time → Time → Result String A → Dict (Entry Value) × Fetched A
  unfolding Cache.get Cache.put
  cached m host now later answer =
      let k = text_append host kind.suffix in
      from_cache m k later answer (Cache.get cache_ttl m k now)

  -- `SnapshotsOf` and `PolicyOf`.
  abbrev pub of_known :
      Dict (Entry Value)
      → String
      → Time
      → Time
      → Result String A
      → Option HostConfig
      → Dict (Entry Value) × Fetched A
  of_known m name now later answer none = (m, failed (unknown_host name))
  of_known m name now later answer (some h) = cached m h.name now later answer

  unfoldable pub asked :
      Config
      → Dict (Entry Value)
      → String
      → Time
      → Time
      → Result String A
      → Dict (Entry Value) × Fetched A
  unfolding cached
  asked c m name now later answer = of_known m name now later answer (find_host c name)

-- What happens outside the store during `Tree`: the store at the end of a wait, the answer of the
-- host, and the two later times.
pub record Course : Type 0 where
  pub waited : TreeStore
  pub answer : Result String Tree
  pub kept_at : Time

abbrev pub tree_failed : String → String
tree_failed host = concat ("récupération de l'arborescence de " ∷ host ∷ " en échec" ∷ [])

abbrev pub after_wait : String → Option Tree → Result String Tree
after_wait host none = err (tree_failed host)
after_wait host (some t) = ok t

-- The fetch and the sections after it, the deferred one last.
abbrev pub after_fetch :
    TreeStore → String → Time → Result String Tree → TreeStore × Result String Tree
after_fetch ts k at (err e) = (leave (give_up ts k) k, err e)
after_fetch ts k at (ok t) = (leave (keep ts k t at) k, ok t)

unfoldable pub follow :
    String → String → Course → TreeStore × Demand → TreeStore × Result String Tree
unfolding keep give_up leave
follow host k w (ts, served t) = (ts, ok t)
follow host k w (ts, waits) = (w.waited, after_wait host (lookup k w.waited.trees))
follow host k w (ts, fetches) = after_fetch ts k w.kept_at w.answer

-- `Tree` for a host of the configuration.
unfoldable pub tree_of_host :
    TreeStore → String → String → Time → Course → TreeStore × Result String Tree
unfolding follow demand
tree_of_host ts host snap now w = let k = key host snap in follow host k w (demand ts k now)

-- The nodes of the page: of the tree, or of the listing of one level where the tree failed.
abbrev pub shown :
    Paths → String → Result String (List Node) → Result String Tree → Result String (List Node)
shown p path listing (err e) = listing
shown p path listing (ok t) = ok (children p t path)

abbrev pub browse_known :
    Paths
    → TreeStore
    → String
    → String
    → String
    → Time
    → Course
    → Result String (List Node)
    → Option HostConfig
    → TreeStore × Result String (List Node)
browse_known p ts host snap path now w listing none = (ts, err (unknown_host host))
browse_known p ts host snap path now w listing (some h) =
    let r = tree_of_host ts host snap now w in (r.0, shown p path listing r.1)

unfoldable pub browse :
    Paths
    → Config
    → TreeStore
    → String
    → String
    → String
    → Time
    → Course
    → Result String (List Node)
    → TreeStore × Result String (List Node)
unfolding tree_of_host
browse p c ts host snap path now w listing =
    browse_known p ts host snap path now w listing (find_host c host)
