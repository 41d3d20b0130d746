-- ===== src/Web/Operation.antt =====
-- `postAction` of server.go behind `ipAllowlist` and `requireAuth`, on the state of the collector.
-- The user is looked up twice, by `requireAuth` and by the handler; `later` is the second time.
pub mod Guarded
use amarre.Base.{
  concat, Bool, true, false, String, Option, none, some, List, [], ◌∷◌, ◌&&◌, if◌then◌else◌, Time,
  Result, ok, err,
}
use amarre.Config.{Config}
use amarre.Store.Tables.{User}
use amarre.Store.Audit.{audit}
use amarre.Collector.Collect.{Console}
use amarre.Collector.Action.{ActionError, unknown_host, not_offered, busy, action}
use amarre.Web.Request.{
  Request, Environment, ip_of, remote_addr, from_allowed, current_user, check_csrf,
}

pub data Answer : Type 0 where
  not_found : Answer
  to_login : Answer
  bad_token : Answer
  refused : ActionError → Answer
  started : String → Answer
  panic : Answer

-- `err.Error()`
abbrev pub error_text : ActionError → String
error_text (unknown_host host) = concat ("hôte inconnu : " ∷ host ∷ [])
error_text (not_offered verb) = concat ("opération non proposée : " ∷ verb ∷ [])
error_text (busy host verb) = concat (
    "une opération « " ∷ verb ∷ " » est déjà en cours sur " ∷ host
    ∷ " — attendre qu'elle se termine" ∷ [])

module _ {V : Type 0} where
  -- By the result of `Action`, for the user of the session.
  unfoldable pub answer :
      Console V
      → String
      → String
      → String
      → String
      → Time
      → Result ActionError (Console V)
      → Console V × Answer
  unfolding audit
  answer con name verb user ip now (ok con') = (con', started verb)
  answer con name verb user ip now (err x) = (
    record con {
      db = audit con.db now user ip verb name (concat ("refusé : " ∷ error_text x ∷ []));
    },
    refused x,
  )

  -- The user of the second look-up; its absence is a nil pointer that the handler follows.
  unfoldable pub act :
      Environment
      → Config
      → Console V
      → Request
      → String
      → String
      → Time
      → Option (User × String)
      → Console V × Answer
  unfolding answer action
  act e c con r name verb now none = (con, panic)
  act e c con r name verb now (some (u, token)) =
      answer con name verb u.username (ip_of e r) now
        (action c con name verb u.username (ip_of e r) now)

  unfoldable pub post_action :
      Environment → Config → Console V → Request → String → String → Time → Console V × Answer
  unfolding act check_csrf current_user
  post_action e c con r name verb now =
      if r.form_ok && check_csrf con.db r
      then act e c con r name verb now (current_user e con.db r now)
      else (con, bad_token)

  -- `requireAuth` around the handler.
  unfoldable pub authorised :
      Environment
      → Config
      → Console V
      → Request
      → String
      → String
      → Time
      → Option (User × String)
      → Console V × Answer
  unfolding post_action
  authorised e c con r name verb later none = (con, to_login)
  authorised e c con r name verb later (some u) = post_action e c con r name verb later

  -- The whole way of a request to the handler.
  unfoldable pub serve_action :
      Environment
      → Config
      → Console V
      → Request
      → String
      → String
      → Time
      → Time
      → Console V × Answer
  unfolding authorised remote_addr
  serve_action e c con r name verb now later =
      if from_allowed c (remote_addr r)
      then authorised e c con r name verb later (current_user e con.db r now)
      else (con, not_found)
