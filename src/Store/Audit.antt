-- ===== src/Store/Audit.antt =====
-- The audit log of store.go: `Audit`, `RecentAudit`, `ActionsFor` and `AuditFor`.
use Prim.Native.Char.{code}
use Prim.Native.String.{String}
use amarre.Base.{
  false, leb, ◌+◌, ◌==◌, ◌<>◌, ℕ, Bool, ◌&&◌, ◌||◌, List, [], ◌∷◌, ◌++◌, map, ltb, if◌then◌else◌,
  str_eq, Time, unix, of_unix, take, sort_by,
}
use amarre.Store.Tables.{AuditRow, Db}

unfoldable pub audit : Db → Time → String → String → String → String → String → Db
audit db now actor ip action target outcome = record db {
  audit =
      db.audit
      ++ record {
        at = unix now;
        actor = actor;
        remote_ip = ip;
        action = action;
        target = target;
        outcome = outcome;
      }
        ∷ [];
}

-- `AuditEntry`
pub record AuditEntry : Type 0 where
  pub at : Time
  pub actor : String
  pub remote_ip : String
  pub action : String
  pub target : String
  pub outcome : String

abbrev pub entry_of : AuditRow → AuditEntry
entry_of r = record {
  at = of_unix r.at;
  actor = r.actor;
  remote_ip = r.remote_ip;
  action = r.action;
  target = r.target;
  outcome = r.outcome;
}

-- `ORDER BY at DESC`
abbrev pub newer : AuditRow → AuditRow → Bool
newer r s = ltb s.at r.at

unfoldable pub recent_audit : Db → ℕ → List AuditEntry
recent_audit db limit = map entry_of (take limit (sort_by newer db.audit))

abbrev pub is_action_on : String → AuditRow → Bool
is_action_on host r =
    str_eq r.target host
    && (str_eq r.action "check" || (str_eq r.action "backup" || str_eq r.action "unlock"))

unfoldable pub action_rows : String → List AuditRow → List AuditRow
action_rows host [] = []
action_rows host (r ∷ rs) =
    let rest = action_rows host rs in if is_action_on host r then r ∷ rest else rest

unfoldable pub actions_for : Db → String → ℕ → List AuditEntry
unfolding action_rows
actions_for db host limit = map entry_of (take limit (sort_by newer (action_rows host db.audit)))

-- `LIKE` of SQLite: `%` stands for any text, `_` for any character, and letters of ASCII are
-- compared without their case.
abbrev pub folded : ℕ → ℕ
folded c = if leb 65 c && leb c 90 then c + 32 else c

abbrev pub any_tail : (String → Bool) → String → Bool
any_tail f String.[] = f ""
any_tail f (String.◌∷◌ c t) = f (String.◌∷◌ c t) || any_tail f t

abbrev pub one_more : ℕ → (String → Bool) → String → Bool
one_more c f String.[] = false
one_more c f (String.◌∷◌ d t) = (c == b'_' || folded c == folded (code d)) && f t

unfoldable pub like : String → String → Bool
like String.[] t = str_eq t ""
like (String.◌∷◌ c p) t =
    let rest = like p in if code c == b'%' then any_tail rest t else one_more (code c) rest t

abbrev pub is_about : String → AuditRow → Bool
is_about host r = str_eq r.target host || like (host <> ":%") r.target

unfoldable pub about_rows : String → List AuditRow → List AuditRow
unfolding like
about_rows host [] = []
about_rows host (r ∷ rs) =
    let rest = about_rows host rs in if is_about host r then r ∷ rest else rest

unfoldable pub audit_for : Db → String → ℕ → List AuditEntry
unfolding about_rows
audit_for db host limit = map entry_of (take limit (sort_by newer (about_rows host db.audit)))
