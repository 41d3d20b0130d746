-- ===== src/Web/Pages.antt =====
-- The pages of server.go: `page` and the handlers that show something. What a page shows is a
-- value of `Page`; the templates that write it are not modelled. The session is looked up again by
-- `page`, after `requireAuth` did; `now` is the time of this second look-up.
pub mod Tokens
pub mod Reads
use amarre.Base.{
  ℕ, ◌+◌, Bool, true, false, String, Option, none, some, List, [], ◌∷◌, map, if◌then◌else◌, str_eq,
  length, ℤ, Time, Dict, lookup, insert, Result, ok, err,
}
use amarre.Config.{Config}
use amarre.Fleet.Tree.{Node, Paths}
use amarre.Fleet.Calls.{Snapshot, PolicyEntry}
use amarre.Store.Tables.{User, Db, StoreError}
use amarre.Store.Sessions.{session_csrf, set_session_csrf}
use amarre.Store.Checks.{Check, history}
use amarre.Store.Audit.{AuditEntry, recent_audit, actions_for, audit_for}
use amarre.Collector.View.{HostView, Totals, firing, fleet, sum}
use amarre.Collector.Sante.{Alerte, Texts}
use amarre.Collector.Sante.Board.{Sante, Decoders, sante_fleet, count_crits, count_warns}
use amarre.Collector.Trees.{TreeStore}
use amarre.Collector.Collect.{Console}
use amarre.Collector.Detail.{Payloads, Detail, host_detail}
use amarre.Collector.Browse.{Value, Course, browse}
use amarre.Collector.Timeline.Page.{Layouts, TimelineData, timeline}
use amarre.Web.Request.{Request, Environment, current_user}
use amarre.Web.Crumbs.{Crumb, crumbs}

-- What the server is made of, besides its state.
pub record Site : Type 0 where
  pub env : Environment
  pub config : Config
  pub texts : Texts
  pub decoders : Decoders
  pub payloads : Payloads
  pub layouts : Layouts
  pub paths : Paths

-- The data that `page` makes for every screen.
pub record Rail : Type 0 where
  pub page : String
  pub user : Option User
  pub csrf : String
  pub hosts : ℕ
  pub alerts : ℕ
  pub crits : ℕ
  pub warns : ℕ

pub record HostPage : Type 0 where
  pub detail : Detail
  pub snap : String
  pub path : String
  pub crumbs : List Crumb
  pub can_restore : Option Bool
  pub can_stream : Option Bool
  pub actions : List AuditEntry
  pub journal : List AuditEntry
  pub done : String

pub data Page : Type 0 where
  login_page : String → String → Page
  fleet_page : Rail → List HostView → Dict Sante → Totals → Dict (List ℤ) → Page
  host_page : Rail → HostPage → Page
  alerts_page : Rail → List HostView → List HostView → Page
  sante_page : Rail → List Sante → ℕ → ℕ → Page
  historique_page : Rail → TimelineData → Page
  audit_page : Rail → List AuditEntry → Page
  tree_page : String → String → String → List Crumb → List Node → String → Page

-- The session of a second look-up: its user and its token, or no user and the empty token.
abbrev pub user_part : Option (User × String) → Option User
user_part none = none
user_part (some (u, token)) = some u

abbrev pub token_part : Option (User × String) → String
token_part none = ""
token_part (some (u, token)) = token

abbrev pub csrf_part : Result StoreError String → String
csrf_part (err e) = ""
csrf_part (ok csrf) = csrf

abbrev pub token_or_empty : Option String → String
token_or_empty none = ""
token_or_empty (some t) = t

-- The token of the session; one is made where it has none.
abbrev pub ensure_csrf : Db → String → Option String → String → Db × String
ensure_csrf db token fresh csrf =
    if str_eq csrf ""
    then (set_session_csrf db token (token_or_empty fresh), token_or_empty fresh)
    else (db, csrf)

-- The two loops over the findings of all hosts.
unfoldable pub crits_of : List Sante → ℕ
unfolding count_crits
crits_of [] = 0
crits_of (s ∷ ss) = count_crits s.alertes + crits_of ss

unfoldable pub warns_of : List Sante → ℕ
unfolding count_warns
warns_of [] = 0
warns_of (s ∷ ss) = count_warns s.alertes + warns_of ss

abbrev pub rail_with : Site → String → Option User → Time → Db × String → Db × Rail
rail_with site name u now (db, csrf) =
    let hosts = fleet site.config db now in
    let sante = sante_fleet site.texts site.decoders site.config db now in
    (
      db,
      record {
        page = name;
        user = u;
        csrf = csrf;
        hosts = length hosts;
        alerts = length (firing hosts);
        crits = crits_of sante;
        warns = warns_of sante;
      },
    )

abbrev pub rail_for : Site → String → Db → Time → Option String → Option (User × String) → Db × Rail
rail_for site name db now fresh who =
    rail_with site name (user_part who) now
      (ensure_csrf db (token_part who) fresh (csrf_part (session_csrf db (token_part who))))

-- `page`; `fresh` is what `NewToken` gives, if it is called.
unfoldable pub rail : Site → String → Db → Request → Time → Option String → Db × Rail
unfolding current_user session_csrf crits_of warns_of
rail site name db r now fresh = rail_for site name db now fresh (current_user site.env db r now)

-- `sante[h.Name] = h`
unfoldable pub by_name : Dict Sante → List Sante → Dict Sante
by_name m [] = m
by_name m (s ∷ ss) = by_name (insert s.name s m) ss

-- `spark[h.Name] = vals`
unfoldable pub sparks : Db → Dict (List ℤ) → List HostView → Dict (List ℤ)
sparks db m [] = m
sparks db m (v ∷ vs) =
    sparks db (insert v.name (map (λ c. c.size_bytes) (history db v.name 20)) m) vs

-- `getFleet`, from the moment its data are read on.
unfoldable pub get_fleet : Site → Db → Request → Time → Option String → Db × Page
unfolding rail by_name sparks
get_fleet site db r now fresh =
    let hosts = fleet site.config db now in
    let sante = sante_fleet site.texts site.decoders site.config db now in
    let (db', top) = rail site "parc" db r now fresh in
    (db', fleet_page top hosts (by_name [] sante) (sum hosts) (sparks db' [] hosts))

-- The value of a key of the policy: the last one of the name.
unfoldable pub allows : String → Option Bool → List PolicyEntry → Option Bool
allows key found [] = found
allows key found (e ∷ es) = allows key (if str_eq e.key key then some e.allowed else found) es

abbrev pub newest : List Snapshot → String
newest [] = ""
newest (s ∷ ss) = s.id

-- What a request asks for: the host of the path, and the parameters of the query.
pub record Query : Type 0 where
  pub snap : String
  pub path : String
  pub window : String
  pub done : String
  pub host : String

abbrev pub path_asked : Query → String
path_asked q = if str_eq q.path "" then "/" else q.path

abbrev pub host_page_of : Db → String → Query → Rail → Detail → Page
host_page_of db name q top det = host_page top (record {
  detail = det;
  snap = if str_eq q.snap "" then newest det.snapshots else q.snap;
  path = path_asked q;
  crumbs = crumbs (path_asked q);
  can_restore = allows "SHIM_ALLOW_RESTORE" none det.policy;
  can_stream = allows "SHIM_STREAM_TO_CONSOLE" none det.policy;
  actions = actions_for db name 6;
  journal = audit_for db name 25;
  done = q.done;
})

abbrev pub host_answer : Db → String → Query → Rail → Result String Detail → Db × Option Page
host_answer db name q top (err e) = (db, none)
host_answer db name q top (ok det) = (db, some (host_page_of db name q top det))

-- `getHost`: `none` is the answer "not found". The page is made before the host is looked up.
unfoldable pub get_host :
    Site → Db → Request → String → Query → Time → Option String → Db × Option Page
unfolding rail allows host_detail
get_host site db r name q now fresh =
    let (db', top) = rail site "parc" db r now fresh in
    host_answer db' name q top (host_detail site.payloads site.decoders site.config db' now name)

-- The listing, or the error and no nodes.
abbrev pub tree_page_of : String → Query → Result String (List Node) → Page
tree_page_of name q (err e) = tree_page name q.snap (path_asked q) (crumbs (path_asked q)) [] e
tree_page_of name q (ok nodes) =
    tree_page name q.snap (path_asked q) (crumbs (path_asked q)) nodes ""

-- `getTreeFragment`
unfoldable pub get_tree_fragment :
    Site → TreeStore → String → Query → Time → Course → Result String (List Node) → TreeStore × Page
unfolding browse
get_tree_fragment site ts name q now w listing =
    let (ts', nodes) = browse site.paths site.config ts name q.snap (path_asked q) now w listing in
    (ts', tree_page_of name q nodes)

-- `getAlerts`
unfoldable pub get_alerts : Site → Db → Request → Time → Option String → Db × Page
unfolding rail
get_alerts site db r now fresh =
    let hosts = fleet site.config db now in
    let (db', top) = rail site "alertes" db r now fresh in
    (db', alerts_page top (firing hosts) hosts)

-- `getSante`
unfoldable pub get_sante : Site → Db → Request → Time → Option String → Db × Page
unfolding rail crits_of warns_of
get_sante site db r now fresh =
    let hosts = sante_fleet site.texts site.decoders site.config db now in
    let (db', top) = rail site "sante" db r now fresh in
    (db', sante_page top hosts (crits_of hosts) (warns_of hosts))

-- `getHistorique`
unfoldable pub get_historique : Site → Db → Request → Query → Time → Option String → Db × Page
unfolding rail timeline
get_historique site db r q now fresh =
    let td = timeline site.layouts site.config db now q.window in
    let (db', top) = rail site "historique" db r now fresh in (db', historique_page top td)

-- `getAudit`
unfoldable pub get_audit : Site → Db → Request → Time → Option String → Db × Page
unfolding rail
get_audit site db r now fresh =
    let entries = recent_audit db 200 in
    let (db', top) = rail site "journal" db r now fresh in (db', audit_page top entries)
