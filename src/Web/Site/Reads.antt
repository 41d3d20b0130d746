-- ===== src/Web/Site/Reads.antt =====
-- What a request that only reads can change.
use amarre.Base.{
  ◌≡◌, refl, subst, Bool, true, false, ◌&&◌, not, String, Option, none, some, List, [], ◌∷◌,
  if◌then◌else◌, Bool-cases, inl, inr, str_eq, str_eq_iff,
}
use amarre.Store.Tables.{User, Db}
use amarre.Web.Request.{remote_addr, from_allowed, current_user}
use amarre.Web.Pages.{Site, Page, get_host}
use amarre.Web.Pages.Reads.{
  Reads, Reads-refl, get_fleet-Reads, get_alerts-Reads, get_sante-Reads, get_historique-Reads,
  get_audit-Reads, get_host-Reads,
}
use amarre.Web.Site.{
  Route, login_form, login_post, logout, fleet, alerts, sante, historique, explorer, audit,
  asset_root, host, tree, action, asset, Visit, Moment, Served, is_get, getting, both, under_host,
  top_route, route_of, login_for, shown_or_missing, inside, require_auth, dispatch, routed,
  reply_of, security_headers, failure, serve,
}

-- The routes that post.
abbrev posts : Route → Bool
posts login_post = true
posts logout = true
posts (action name) = true
posts _ = false

abbrev Reading : Option Route → Type 0
Reading none = Unit
Reading (some route) = posts route ≡ false

if-Reading : (b : Bool) (x y : Option Route) → Reading x → Reading y → Reading (if b then x else y)
if-Reading true x y hx hy = hx
if-Reading false x y hx hy = hy

getting-Reading : (m : String) (route : Route) → posts route ≡ false → Reading (getting m route)
getting-Reading m route h = if-Reading (is_get m) (some route) none h tt

get-ne-post : (m : String) → is_get m ≡ true → str_eq m "POST" ≡ false
get-ne-post m h = elim (Bool-cases (str_eq m "POST")) [
  | inl post ↦ absurd (posting ((str_eq_iff m "POST").0 post))
  | inr other ↦ other
]
  where
    posting : m ≡ "POST" → ⊥
    posting e = let k : is_get "POST" ≡ true = subst (λ s. is_get s ≡ true) e h in cc k

both-Reading :
    (m : String) (get post : Route)
    → is_get m ≡ true
    → posts get ≡ false
    → Reading (both m get post)
both-Reading m get post g h = rw (get-ne-post m g) (getting-Reading m get h)

module _ (m : String) (g : is_get m ≡ true) where
  top_route-Reading : (s : String) → Reading (top_route m s)
  top_route-Reading s =
      if-Reading (str_eq s "login") _ _ (both-Reading m login_form login_post g refl) (
        if-Reading (str_eq s "logout") _ _ (both-Reading m fleet logout g refl) (
          if-Reading (str_eq s "alerts") _ _ (getting-Reading m alerts refl) (
            if-Reading (str_eq s "sante") _ _ (getting-Reading m sante refl) (
              if-Reading (str_eq s "historique") _ _ (getting-Reading m historique refl) (
                if-Reading (str_eq s "explorer") _ _ (getting-Reading m explorer refl) (
                  if-Reading (str_eq s "audit") _ _ (getting-Reading m audit refl) (
                    if-Reading (str_eq s "static") _ _ (getting-Reading m asset_root refl)
                      (getting-Reading m fleet refl))))))))

  under_host-Reading : (name last : String) → Reading (under_host m name last)
  under_host-Reading name last =
      if-Reading (str_eq last "tree") _ _ (getting-Reading m (tree name) refl) (
        if-Reading (str_eq last "action") _ _ (both-Reading m fleet (action name) g refl)
          (getting-Reading m fleet refl))

  -- A method that reads leads to no handler that posts.
  route_of-Reading : (path : List String) → Reading (route_of m path)
  unfolding route_of
  route_of-Reading [] = getting-Reading m fleet refl
  route_of-Reading (s ∷ []) = top_route-Reading s
  route_of-Reading (s ∷ t ∷ []) =
      if-Reading (str_eq s "static") _ _ (getting-Reading m (asset (t ∷ [])) refl) (
        if-Reading (str_eq s "host" && not (str_eq t "")) _ _ (getting-Reading m (host t) refl)
          (getting-Reading m fleet refl))
  route_of-Reading (s ∷ t ∷ u ∷ []) =
      if-Reading (str_eq s "static") _ _ (getting-Reading m (asset (t ∷ u ∷ [])) refl)
        (if-Reading (str_eq s "host") _ _ (under_host-Reading t u) (getting-Reading m fleet refl))
  route_of-Reading (s ∷ t ∷ u ∷ v ∷ rest) =
      if-Reading (str_eq s "static") _ _ (getting-Reading m (asset (t ∷ u ∷ v ∷ rest)) refl)
        (getting-Reading m fleet refl)

-- Nothing but the trees in memory and the tokens of the forms.
pub record Untouched (st st' : Served) : Type 0 where
  pub db : Reads st.con.db st'.con.db
  pub lim : st'.lim ≡ st.lim
  pub running : st'.con.running ≡ st.con.running
  pub bo : st'.con.bo ≡ st.con.bo
  pub cache : st'.con.cache ≡ st.con.cache

Untouched-refl : (st : Served) → Untouched st st
Untouched-refl st = record {
  db = Reads-refl st.con.db;
  lim = refl;
  running = refl;
  bo = refl;
  cache = refl;
}

page-Untouched :
    (st : Served) (db : Db)
    → Reads st.con.db db
    → Untouched st (record st { con = record st.con { db = db } })
page-Untouched st db h = record { db = h; lim = refl; running = refl; bo = refl; cache = refl }

missing-Untouched :
    (st : Served) (o : Db × Option Page)
    → Reads st.con.db o.0
    → Untouched st (shown_or_missing st o).0
missing-Untouched st (db, none) h = page-Untouched st db h
missing-Untouched st (db, some p) h = page-Untouched st db h

inside-Untouched :
    (site : Site) (st : Served) (v : Visit) (m : Moment) (route : Route)
    → posts route ≡ false
    → Untouched st (inside site st v m route).0
unfolding inside
inside-Untouched site st v m login_form h = Untouched-refl st
inside-Untouched site st v m login_post h = absurd (cc h)
inside-Untouched site st v m (asset p) h = Untouched-refl st
inside-Untouched site st v m asset_root h = Untouched-refl st
inside-Untouched site st v m logout h = absurd (cc h)
inside-Untouched site st v m fleet h =
    page-Untouched st _ (get_fleet-Reads site st.con.db v.request m.later m.csrf)
inside-Untouched site st v m alerts h =
    page-Untouched st _ (get_alerts-Reads site st.con.db v.request m.later m.csrf)
inside-Untouched site st v m sante h =
    page-Untouched st _ (get_sante-Reads site st.con.db v.request m.later m.csrf)
inside-Untouched site st v m historique h =
    page-Untouched st _ (get_historique-Reads site st.con.db v.request m.later m.csrf v.query)
inside-Untouched site st v m explorer h = Untouched-refl st
inside-Untouched site st v m audit h =
    page-Untouched st _ (get_audit-Reads site st.con.db v.request m.later m.csrf)
inside-Untouched site st v m (host name) h =
    missing-Untouched st (get_host site st.con.db v.request name v.query m.later m.csrf)
      (get_host-Reads site st.con.db v.request m.later m.csrf name v.query)
inside-Untouched site st v m (tree name) h = record {
  db = Reads-refl st.con.db;
  lim = refl;
  running = refl;
  bo = refl;
  cache = refl;
}
inside-Untouched site st v m (action name) h = absurd (cc h)

auth-Untouched :
    (site : Site) (st : Served) (v : Visit) (m : Moment) (route : Route)
    (who : Option (User × String))
    → posts route ≡ false
    → Untouched st (require_auth site st v m route who).0
auth-Untouched site st v m route none h = Untouched-refl st
auth-Untouched site st v m route (some u) h = inside-Untouched site st v m route h

login-Untouched :
    (st : Served) (v : Visit) (token : Option String) (who : Option (User × String))
    → Untouched st (login_for st v token who).0
login-Untouched st v token (some u) = Untouched-refl st
login-Untouched st v none none = Untouched-refl st
login-Untouched st v (some t) none = Untouched-refl st

dispatch-Untouched :
    (site : Site) (st : Served) (v : Visit) (m : Moment) (route : Route)
    → posts route ≡ false
    → Untouched st (dispatch site st v m route).0
unfolding dispatch
dispatch-Untouched site st v m login_form h =
    login-Untouched st v m.token (current_user site.env st.con.db v.request m.now)
dispatch-Untouched site st v m login_post h = absurd (cc h)
dispatch-Untouched site st v m (asset p) h = Untouched-refl st
dispatch-Untouched site st v m asset_root h = Untouched-refl st
dispatch-Untouched site st v m logout h = absurd (cc h)
dispatch-Untouched site st v m fleet h = auth-Untouched site st v m fleet _ h
dispatch-Untouched site st v m alerts h = auth-Untouched site st v m alerts _ h
dispatch-Untouched site st v m sante h = auth-Untouched site st v m sante _ h
dispatch-Untouched site st v m historique h = auth-Untouched site st v m historique _ h
dispatch-Untouched site st v m explorer h = auth-Untouched site st v m explorer _ h
dispatch-Untouched site st v m audit h = auth-Untouched site st v m audit _ h
dispatch-Untouched site st v m (host name) h = auth-Untouched site st v m (host name) _ h
dispatch-Untouched site st v m (tree name) h = auth-Untouched site st v m (tree name) _ h
dispatch-Untouched site st v m (action name) h = absurd (cc h)

-- A request by GET or HEAD, for any path and by anyone, leaves the accounts, the checks, the data,
-- the history and the audit log as they were, the sessions too but for the tokens of their forms,
-- and the limit of attempts, the operations that run, the backoff and the cache: what it can
-- change besides is the trees in memory.
pub serve-reads :
    (site : Site) (st : Served) (v : Visit) (m : Moment)
    → is_get v.method ≡ true
    → Untouched st (serve site st v m).0
unfolding serve
serve-reads site st v m g =
    choose (from_allowed site.config (remote_addr v.request)) (route_of v.method v.path)
      (route_of-Reading v.method g v.path)
  where
    follow : (q : Option Route) → Reading q → Untouched st (routed site st v m q).0
    follow none k = Untouched-refl st
    follow (some route) k = dispatch-Untouched site st v m route k

    choose :
        (b : Bool) (q : Option Route)
        → Reading q
        → Untouched st
            (if b
              then reply_of (security_headers v.tls) (routed site st v m q)
              else reply_of [] (st, [], failure 404)).0
    choose true q k = follow q k
    choose false q k = Untouched-refl st
