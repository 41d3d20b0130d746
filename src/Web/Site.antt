-- ===== src/Web/Site.antt =====
-- The console as a whole: `routes` and `Handler` of server.go, with every handler behind the
-- filter of addresses, the headers and, but for the sign-in and the files, the session. The mux of
-- net/http is read on the segments of a cleaned path.
pub mod Guarded
pub mod Reads
mod Tests
use amarre.Base.{
  ℕ, ◌*◌, Bool, true, false, not, ◌&&◌, ◌||◌, String, Option, none, some, List, [], ◌∷◌,
  if◌then◌else◌, str_eq, ℤ, pos, negsuc, Time, hour, Result, ok, err, concat,
}
use amarre.Auth.Limiter.{Limiter}
use amarre.Config.{Config}
use amarre.Fleet.Tree.{Node}
use amarre.Store.Tables.{User, Db}
use amarre.Collector.Collect.{Console}
use amarre.Collector.Browse.{Value, Course}
use amarre.Web.Request.{Request, remote_addr, from_allowed, current_user}
use amarre.Web.Login.{
  Gate, Outcome, bad_form, bad_token, too_many, bad_credentials, bad_code, internal_error,
  signed_in, post_login, post_logout,
}
use amarre.Web.Operation.{Answer, post_action, error_text}
use amarre.Web.Operation
use amarre.Web.Pages.{
  Site, Query, Page, login_page, token_or_empty, get_fleet, get_host, get_tree_fragment, get_alerts,
  get_sante, get_historique, get_audit,
}

pub data Route : Type 0 where
  login_form login_post logout fleet alerts sante historique explorer audit asset_root : Route
  host tree action : String → Route
  asset : List String → Route

-- A request: what the handlers read of it, its method and its path, whether it came by TLS, the
-- parameters of its query, the verb of an operation.
pub record Visit : Type 0 where
  pub request : Request
  pub method : String
  pub path : List String
  pub tls : Bool
  pub query : Query
  pub verb : String

-- What the clock, `NewToken` and the host give while the request is served.
pub record Moment : Type 0 where
  pub now : Time
  pub later : Time
  pub token : Option String
  pub csrf : Option String
  pub course : Course
  pub listing : Result String (List Node)

-- The state of the server.
pub record Served : Type 0 where
  pub con : Console Value
  pub lim : Limiter

-- `setCookie`: the age in seconds; `HttpOnly` and `SameSite` are the same for all.
pub record Cookie : Type 0 where
  pub name : String
  pub value : String
  pub max_age : ℤ
  pub secure : Bool

pub data Body : Type 0 where
  page : ℕ → Page → Body
  see_other : String → Body
  moved : String → Body
  failure : ℕ → Body
  file : List String → Body
  panic : Body

pub record Reply : Type 0 where
  pub headers : List (String × String)
  pub cookies : List Cookie
  pub body : Body

abbrev pub is_get : String → Bool
is_get m = str_eq m "GET" || str_eq m "HEAD"

-- The patterns of one method, and `GET /` for every other path: `none` where the method has none.
abbrev pub getting : String → Route → Option Route
getting m route = if is_get m then some route else none

abbrev pub both : String → Route → Route → Option Route
both m get post = if str_eq m "POST" then some post else getting m get

abbrev pub under_host : String → String → String → Option Route
under_host m name last =
    if str_eq last "tree"
    then getting m (tree name)
    else if str_eq last "action"
    then both m fleet (action name)
    else getting m fleet

abbrev pub top_route : String → String → Option Route
top_route m s =
    if str_eq s "login"
    then both m login_form login_post
    else if str_eq s "logout"
    then both m fleet logout
    else if str_eq s "alerts"
    then getting m alerts
    else if str_eq s "sante"
    then getting m sante
    else if str_eq s "historique"
    then getting m historique
    else if str_eq s "explorer"
    then getting m explorer
    else if str_eq s "audit"
    then getting m audit
    else if str_eq s "static"
    then getting m asset_root
    else getting m fleet

unfoldable pub route_of : String → List String → Option Route
route_of m [] = getting m fleet
route_of m (s ∷ []) = top_route m s
route_of m (s ∷ t ∷ []) =
    if str_eq s "static"
    then getting m (asset (t ∷ []))
    else if str_eq s "host" && not (str_eq t "")
    then getting m (host t)
    else getting m fleet
route_of m (s ∷ t ∷ u ∷ []) =
    if str_eq s "static"
    then getting m (asset (t ∷ u ∷ []))
    else if str_eq s "host"
    then under_host m t u
    else getting m fleet
route_of m (s ∷ t ∷ u ∷ v ∷ rest) =
    if str_eq s "static" then getting m (asset (t ∷ u ∷ v ∷ rest)) else getting m fleet

-- `securityHeaders`
abbrev pub fixed_headers : List (String × String)
fixed_headers =
    (
      "Content-Security-Policy",
      concat (
          "default-src 'none'; script-src 'self'; connect-src 'self'; "
          ∷ "style-src 'unsafe-inline'; img-src data:; form-action 'self'; "
          ∷ "frame-ancestors 'none'; base-uri 'none'" ∷ []),
    )
    ∷ ("X-Content-Type-Options", "nosniff")
    ∷ ("Referrer-Policy", "no-referrer")
    ∷ ("X-Frame-Options", "DENY")
    ∷ ("Permissions-Policy", "geolocation=(), microphone=(), camera=()")
    ∷ []

abbrev pub security_headers : Bool → List (String × String)
security_headers tls =
    if tls
    then ("Strict-Transport-Security", "max-age=63072000; includeSubDomains") ∷ fixed_headers
    else fixed_headers

abbrev pub form_cookie : Visit → String → Cookie
form_cookie v token = record {
  name = "amarre_csrf";
  value = token;
  max_age = pos 1800;
  secure = v.tls;
}

abbrev pub session_cookie : Visit → String → ℤ → Cookie
session_cookie v token age = record {
  name = "amarre_session";
  value = token;
  max_age = age;
  secure = v.tls;
}

-- What a handler gives: the state, its cookies and its body.
abbrev pub Handled : Type 0
Handled = Served × List Cookie × Body

-- `getLogin`
abbrev pub login_for : Served → Visit → Option String → Option (User × String) → Handled
login_for st v token (some u) = (st, [], see_other "/")
login_for st v none none = (st, [], failure 500)
login_for st v (some t) none = (st, form_cookie v t ∷ [], page 200 (login_page t ""))

-- `renderLoginError`: an error of `NewToken` is ignored.
abbrev pub login_error : Served → Visit → Option String → String → Handled
login_error st v token message =
    let t = token_or_empty token in (st, form_cookie v t ∷ [], page 401 (login_page t message))

-- How `postLogin` answers.
abbrev pub login_answer : Served → Visit → Option String → Outcome → Handled
login_answer st v token bad_form = (st, [], failure 400)
login_answer st v token bad_token = (st, [], failure 403)
login_answer st v token too_many =
    login_error st v token "Trop de tentatives. Réessaie dans quinze minutes."
login_answer st v token bad_credentials = login_error st v token "Identifiants invalides."
login_answer st v token bad_code = login_error st v token "Code à usage unique invalide."
login_answer st v token internal_error = (st, [], failure 500)
login_answer st v token (signed_in t) = (st, session_cookie v t (pos 28800) ∷ [], see_other "/")

abbrev pub with_gate : Served → Gate → Served
with_gate st g = record st { con = record st.con { db = g.db }; lim = g.lim }

unfoldable pub sign_in : Site → Served → Visit → Moment → Handled
unfolding post_login
sign_in site st v m =
    let (g, outcome) =
      post_login site.env (record { db = st.con.db; lim = st.lim }) v.request m.now m.token
        m.csrf in
    login_answer (with_gate st g) v m.token outcome

-- How `postLogout` answers; the cookie of the session is ended.
abbrev pub with_db : Served → Db → Served
with_db st db = record st { con = record st.con { db = db } }

abbrev pub logout_answer : Served → Visit → Bool → Handled
logout_answer st v false = (st, [], failure 403)
logout_answer st v true = (st, session_cookie v "" (negsuc 3599) ∷ [], see_other "/login")

unfoldable pub sign_out : Site → Served → Visit → Moment → Handled
unfolding post_logout
sign_out site st v m =
    let (db, done) = post_logout site.env st.con.db v.request m.later in
    logout_answer (with_db st db) v done

-- How `postAction` answers; the escaping of the query is left out of the address.
abbrev pub action_answer : Served → String → Answer → Handled
action_answer st name Operation.not_found = (st, [], failure 404)
action_answer st name Operation.to_login = (st, [], see_other "/login")
action_answer st name Operation.bad_token = (st, [], failure 403)
action_answer st name (Operation.refused x) =
    (st, [], see_other (concat ("/host/" ∷ name ∷ "?busy=" ∷ error_text x ∷ [])))
action_answer st name (Operation.started verb) =
    (st, [], see_other (concat ("/host/" ∷ name ∷ "?done=" ∷ verb ∷ [])))
action_answer st name Operation.panic = (st, [], panic)

unfoldable pub act_on : Site → Served → Visit → Moment → String → Handled
unfolding post_action
act_on site st v m name =
    let (con, answer) = post_action site.env site.config st.con v.request name v.verb m.later in
    action_answer (record st { con = con }) name answer

-- A page of the database, or "not found".
abbrev pub shown : Served → Db × Page → Handled
shown st (db, p) = (with_db st db, [], page 200 p)

abbrev pub shown_or_missing : Served → Db × Option Page → Handled
shown_or_missing st (db, none) = (with_db st db, [], failure 404)
shown_or_missing st (db, some p) = (with_db st db, [], page 200 p)

unfoldable pub show_tree : Site → Served → Visit → Moment → String → Handled
unfolding get_tree_fragment
show_tree site st v m name =
    let (ts, p) = get_tree_fragment site st.con.trees name v.query m.later m.course m.listing in
    (record st { con = record st.con { trees = ts } }, [], page 200 p)

-- The redirection of `/explorer`.
abbrev pub explored : String → String
explored name = if str_eq name "" then "/" else concat ("/host/" ∷ name ∷ [])

-- The handlers behind `requireAuth`; the other routes do not come here.
unfoldable pub inside : Site → Served → Visit → Moment → Route → Handled
unfolding sign_out act_on show_tree
inside site st v m login_form = (st, [], panic)
inside site st v m login_post = (st, [], panic)
inside site st v m (asset p) = (st, [], panic)
inside site st v m asset_root = (st, [], panic)
inside site st v m logout = sign_out site st v m
inside site st v m fleet = shown st (get_fleet site st.con.db v.request m.later m.csrf)
inside site st v m alerts = shown st (get_alerts site st.con.db v.request m.later m.csrf)
inside site st v m sante = shown st (get_sante site st.con.db v.request m.later m.csrf)
inside site st v m historique =
    shown st (get_historique site st.con.db v.request v.query m.later m.csrf)
inside site st v m explorer = (st, [], see_other (explored v.query.host))
inside site st v m audit = shown st (get_audit site st.con.db v.request m.later m.csrf)
inside site st v m (host name) =
    shown_or_missing st (get_host site st.con.db v.request name v.query m.later m.csrf)
inside site st v m (tree name) = show_tree site st v m name
inside site st v m (action name) = act_on site st v m name

-- `requireAuth`
abbrev pub require_auth : Site → Served → Visit → Moment → Route → Option (User × String) → Handled
require_auth site st v m route none = (st, [], see_other "/login")
require_auth site st v m route (some u) = inside site st v m route

unfoldable pub dispatch : Site → Served → Visit → Moment → Route → Handled
unfolding inside sign_in current_user
dispatch site st v m login_form =
    login_for st v m.token (current_user site.env st.con.db v.request m.now)
dispatch site st v m login_post = sign_in site st v m
dispatch site st v m (asset p) = (st, [], file p)
dispatch site st v m asset_root = (st, [], moved "/static/")
dispatch site st v m route =
    require_auth site st v m route (current_user site.env st.con.db v.request m.now)

abbrev pub routed : Site → Served → Visit → Moment → Option Route → Handled
routed site st v m none = (st, [], failure 405)
routed site st v m (some route) = dispatch site st v m route

abbrev pub reply_of : List (String × String) → Handled → Served × Reply
reply_of headers (st, cookies, body) =
    (st, record { headers = headers; cookies = cookies; body = body })

-- `Handler`: `ipAllowlist`, `securityHeaders`, the mux.
unfoldable pub serve : Site → Served → Visit → Moment → Served × Reply
unfolding dispatch route_of remote_addr
serve site st v m =
    if from_allowed site.config (remote_addr v.request)
    then reply_of (security_headers v.tls) (routed site st v m (route_of v.method v.path))
    else reply_of [] (st, [], failure 404)
