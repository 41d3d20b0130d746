-- ===== src/Web/Site/Tests.antt =====
-- Visits of the console, with and without a session.
use amarre.Base.{
  ◌+◌, ◌≡◌, ◌≢◌, refl, true, String, none, some, [], ◌∷◌, arith, hour, pos, str_eq_iff, map, err,
  minute, ◌*◌,
}
use amarre.Auth.Limiter.{new_limiter}
use amarre.Config.{Config, Parsers}
use amarre.Config.Net.{v4}
use amarre.Collector.Trees.{new_tree_store}
use amarre.Web.Request.{check_csrf, current_user}
use amarre.Web.Samples.{ten_am, office, bob, login_form, one_host, bob_inside, action_form}
use amarre.Web.Pages.{Site, Query, login_page, rail}
use amarre.Web.Pages.Tokens.{rail-check_csrf}
use amarre.Web.Crumbs.{root, crumbs}
use amarre.Web.Crumbs.Trail.{path_of, beginnings, crumb_to, crumbs-path_of}
use amarre.Web.Site.{Visit, Moment, Served, page, serve}
use amarre.Web.Site.Reads.{Untouched, serve-reads}

abbrev console : Site
console = record {
  env = office;
  config = one_host;
  texts = record {
    duration_text = λ d. "1h";
    date_text = λ t. "01/01/2026";
    days = λ d. pos 1;
    parse_date = λ s. none;
    lower = λ s. s;
  };
  decoders = record { health_of = λ s. none; probe_of = λ s. none };
  payloads = record {
    snapshots_of = λ s. none;
    stats_of = λ s. none;
    policy_of = λ s. none;
    excludes_of = λ s. none;
  };
  layouts = λ layout t. layout;
  paths = record { trim = λ s. s; decode = λ s. none; dir = λ s. "/"; clean = λ s. s };
}

abbrev served : Served
served = record { con = bob_inside; lim = new_limiter 5 (15 * minute) }

abbrev no_query : Query
no_query = record { snap = ""; path = ""; window = ""; done = ""; host = "" }

abbrev audit_visit : Visit
audit_visit = record {
  request = action_form;
  method = "GET";
  path = "audit" ∷ [];
  tls = true;
  query = no_query;
  verb = "";
}

abbrev moment : Moment
moment = record {
  now = ten_am + hour;
  later = ten_am + hour;
  token = some "n";
  csrf = some "x";
  course = record { waited = new_tree_store; answer = err "timeout"; kept_at = ten_am + hour };
  listing = err "timeout";
}

abbrev stranger : Visit
stranger = record audit_visit { request = login_form }

abbrev outsider : Visit
outsider = record audit_visit { request = record action_form { remote = some (v4 0x0b010203) } }

-- The network of the office, as a declared source.
abbrev office_net : Parsers
office_net = record {
  parse_prefix = λ s. some (record { addr = v4 0x0a000000; bits = 8 });
  parse_addr = λ s. none;
}

abbrev written : Config
written = record one_host { allowed_cidrs = "10.0.0.0/8" ∷ []; allowed = [] }

abbrev read_config : Config
read_config = record written { allowed = record { addr = v4 0x0a000000; bits = 8 } ∷ [] }

abbrev office_console : Site
office_console = record console { config = read_config }

serve-reads_example : Untouched served (serve console served audit_visit moment).0
serve-reads_example = serve-reads console served audit_visit moment refl

full : ◌≢◌ {A = String} "x" ""
full = ground (arith, str_eq_iff "x" "")

rail-check_csrf_example :
    check_csrf
      (rail console "parc" served.con.db action_form (ten_am + hour) (some "x")).0
      (record action_form {
        csrf = (rail console "parc" served.con.db action_form (ten_am + hour) (some "x")).1.csrf;
      })
    ≡ true
unfolding current_user
rail-check_csrf_example =
    rail-check_csrf console "parc" served.con.db action_form (ten_am + hour) "x" bob "t" refl full

-- The form of the sign-in is shown to a stranger.
stranger_signs_in :
    (serve console served (record stranger { path = "login" ∷ [] }) moment).1.body
    ≡ page 200 (login_page "n" "")
unfolding serve amarre.Config.ip_allowed amarre.Config.Net.contains_addr
stranger_signs_in = refl

srv_ne : ◌≢◌ {A = String} "srv" ""
srv_ne = ground (arith, str_eq_iff "srv" "")

www_ne : ◌≢◌ {A = String} "www" ""
www_ne = ground (arith, str_eq_iff "www" "")

crumbs-path_of_example :
    crumbs (path_of ("srv" ∷ "www" ∷ [])) ≡ root ∷ map crumb_to (beginnings [] ("srv" ∷ "www" ∷ []))
crumbs-path_of_example = crumbs-path_of ("srv" ∷ "www" ∷ []) ((srv_ne, refl), ((www_ne, refl), tt))
