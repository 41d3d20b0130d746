-- ===== src/Web/Pages/Reads.antt =====
-- What the making of a page changes: at most the token of a session.
use amarre.Base.{
  ◌≡◌, refl, ap, String, Option, List, [], ◌∷◌, map, Bool-cases, inl, inr, str_eq, Time, Result, ok,
  err,
}
use amarre.Store.Tables.{Session, Db}
use amarre.Store.Sessions.{session_csrf, set_csrf_rows, set_session_csrf}
use amarre.Web.Request.{Request, current_user}
use amarre.Collector.Detail.{Detail, host_detail}
use amarre.Web.Pages.{
  Site, Query, Rail, token_part, csrf_part, ensure_csrf, rail, get_fleet, get_host, host_answer,
  get_alerts, get_sante, get_historique, get_audit,
}

abbrev without_csrf : Session → Session
without_csrf s = record s { csrf = "" }

-- The tables are the same, but for the tokens of the forms in the sessions.
pub record Reads (db db' : Db) : Type 0 where
  pub users : db'.users ≡ db.users
  pub checks : db'.checks ≡ db.checks
  pub meta : db'.meta ≡ db.meta
  pub history : db'.history ≡ db.history
  pub audit : db'.audit ≡ db.audit
  pub sessions : map without_csrf db'.sessions ≡ map without_csrf db.sessions

pub Reads-refl : (db : Db) → Reads db db
Reads-refl db = record {
  users = refl;
  checks = refl;
  meta = refl;
  history = refl;
  audit = refl;
  sessions = refl;
}

set_csrf_rows-without :
    (token csrf : String) (ss : List Session)
    → map without_csrf (set_csrf_rows token csrf ss) ≡ map without_csrf ss
unfolding set_csrf_rows
set_csrf_rows-without token csrf [] = refl
set_csrf_rows-without token csrf (s ∷ ss) = elim (Bool-cases (str_eq s.token token)) [
  | inl hit ↦ rw hit (ap (λ l. without_csrf s ∷ l) (set_csrf_rows-without token csrf ss))
  | inr miss ↦ rw miss (ap (λ l. without_csrf s ∷ l) (set_csrf_rows-without token csrf ss))
]

set_session_csrf-Reads : (db : Db) (token csrf : String) → Reads db (set_session_csrf db token csrf)
set_session_csrf-Reads db token csrf = record {
  users = refl;
  checks = refl;
  meta = refl;
  history = refl;
  audit = refl;
  sessions = set_csrf_rows-without token csrf db.sessions;
}

ensure_csrf-Reads :
    (db : Db) (token csrf : String) (fresh : Option String)
    → Reads db (ensure_csrf db token fresh csrf).0
ensure_csrf-Reads db token csrf fresh = elim (Bool-cases (str_eq csrf "")) [
  | inl bare ↦ rw bare (set_session_csrf-Reads db token _)
  | inr has ↦ rw has (Reads-refl db)
]

pub rail-Reads :
    (site : Site) (name : String) (db : Db) (r : Request) (now : Time) (fresh : Option String)
    → Reads db (rail site name db r now fresh).0
unfolding rail
rail-Reads site name db r now fresh =
    let token = token_part (current_user site.env db r now) in
    ensure_csrf-Reads db token (csrf_part (session_csrf db token)) fresh

module _ (site : Site) (db : Db) (r : Request) (now : Time) (fresh : Option String) where
  pub get_fleet-Reads : Reads db (get_fleet site db r now fresh).0
  unfolding get_fleet
  get_fleet-Reads = rail-Reads site "parc" db r now fresh

  pub get_alerts-Reads : Reads db (get_alerts site db r now fresh).0
  unfolding get_alerts
  get_alerts-Reads = rail-Reads site "alertes" db r now fresh

  pub get_sante-Reads : Reads db (get_sante site db r now fresh).0
  unfolding get_sante
  get_sante-Reads = rail-Reads site "sante" db r now fresh

  pub get_historique-Reads : (q : Query) → Reads db (get_historique site db r q now fresh).0
  unfolding get_historique
  get_historique-Reads q = rail-Reads site "historique" db r now fresh

  pub get_audit-Reads : Reads db (get_audit site db r now fresh).0
  unfolding get_audit
  get_audit-Reads = rail-Reads site "journal" db r now fresh

  pub get_host-Reads :
      (name : String) (q : Query) → Reads db (get_host site db r name q now fresh).0
  unfolding get_host
  get_host-Reads name q = go (host_detail site.payloads site.decoders site.config d.0 now name)
    where
      d : Db × Rail
      d = rail site "parc" db r now fresh

      go : (o : Result String Detail) → Reads db (host_answer d.0 name q d.1 o).0
      go (err e) = rail-Reads site "parc" db r now fresh
      go (ok det) = rail-Reads site "parc" db r now fresh
