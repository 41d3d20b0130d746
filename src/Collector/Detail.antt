-- ===== src/Collector/Detail.antt =====
-- `HostDetail` of collector.go: the page of a host, from the database. `json.Unmarshal` into each
-- type is the record `Payloads`; where it fails, the target is read as empty.
use amarre.Base.{
  String, Option, none, some, List, [], ◌∷◌, if◌then◌else◌, str_eq, Time, Result, ok, err, concat,
}
use amarre.Config.{HostConfig, Config}
use amarre.Fleet.Calls.{Snapshot, RepoStats, PolicyEntry}
use amarre.Fleet.Health.{Health}
use amarre.Store.Tables.{Db, StoreError}
use amarre.Store.Checks.{Check, history}
use amarre.Store.Meta.{get_meta}
use amarre.Collector.View.{HostView, fleet}
use amarre.Collector.Sante.{Probe}
use amarre.Collector.Sante.Board.{Decoders, load_health, load_probe}
use amarre.Collector.Collect.{find_host}

pub record Payloads : Type 0 where
  pub snapshots_of : String → Option (List Snapshot)
  pub stats_of : String → Option RepoStats
  pub policy_of : String → Option (List PolicyEntry)
  pub excludes_of : String → Option (List String)

pub record Detail : Type 0 where
  pub host : HostConfig
  pub view : Option HostView
  pub snapshots : List Snapshot
  pub stats : Option RepoStats
  pub policy : List PolicyEntry
  pub excludes : List String
  pub health : Option Health
  pub probe : Option Probe
  pub history : List Check
  pub error : String
  pub meta_at : Time

-- `loadMeta`: `none` for its error.
abbrev pub decoded {ℓ} :
    {A : Type ℓ} → (String → Option A) → Result StoreError (String × Time) → Option A
decoded f (err e) = none
decoded f (ok (payload, at)) = f payload

unfoldable pub load_meta {ℓ} : {A : Type ℓ} → (String → Option A) → Db → String → String → Option A
unfolding get_meta
load_meta f db host kind = decoded f (get_meta db host kind)

abbrev pub or_empty {ℓ} : {A : Type ℓ} → Option (List A) → List A
or_empty none = []
or_empty (some l) = l

-- The last view of the name.
unfoldable pub view_named : String → Option HostView → List HostView → Option HostView
view_named name found [] = found
view_named name found (v ∷ vs) = view_named name (if str_eq v.name name then some v else found) vs

abbrev pub error_of {ℓ} : {A : Type ℓ} → Option A → String
error_of none = "aucune collecte encore aboutie pour cet hôte"
error_of (some a) = ""

abbrev pub time_of : Result StoreError (String × Time) → Time
time_of (err e) = 0
time_of (ok (payload, at)) = at

unfoldable pub detail_of : Payloads → Decoders → Config → Db → Time → HostConfig → String → Detail
unfolding load_meta view_named
detail_of p d c db now h name =
    let snaps = load_meta p.snapshots_of db name "snapshots" in
    record {
      host = h;
      view = view_named name none (fleet c db now);
      snapshots = or_empty snaps;
      stats = load_meta p.stats_of db name "stats";
      policy = or_empty (load_meta p.policy_of db name "policy");
      excludes = or_empty (load_meta p.excludes_of db name "excludes");
      health = load_health d db name;
      probe = load_probe d db name;
      history = history db name 30;
      error = error_of snaps;
      meta_at = time_of (get_meta db name "snapshots");
    }

abbrev pub unknown_host : String → String
unknown_host name = concat ("hôte inconnu : " ∷ name ∷ [])

abbrev pub detail_for :
    Payloads → Decoders → Config → Db → Time → String → Option HostConfig → Result String Detail
detail_for p d c db now name none = err (unknown_host name)
detail_for p d c db now name (some h) = ok (detail_of p d c db now h name)

unfoldable pub host_detail :
    Payloads → Decoders → Config → Db → Time → String → Result String Detail
unfolding detail_of
host_detail p d c db now name = detail_for p d c db now name (find_host c name)
