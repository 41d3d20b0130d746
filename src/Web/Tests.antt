-- ===== src/Web/Tests.antt =====
-- A concrete account, its sign-in, and an operation that it starts.
use amarre.Base.{
  ◌+◌, ◌*◌, ltb, ◌≡◌, refl, ◌⊎◌, inl, inr, Bool, true, false, ◌&&◌, String, Option, none, some, [],
  ◌∷◌, arith, if◌then◌else◌, str_eq, hour, minute, pos, Time, epoch, unix, Result, ok, err,
}
use amarre.Auth.Limiter.{Limiter, new_limiter, allow}
use amarre.Config.{HostConfig, Config}
use amarre.Config.Net.{v4}
use amarre.Store.Tables.{User, no_user}
use amarre.Store.Users.{find_id}
use amarre.Store.Sessions.{session_user}
use amarre.Web.Login.Admits.{post_login-admits}
use amarre.Web.Request.{Request, ip_of, remote_addr, from_allowed, check_csrf}
use amarre.Web.Login.{signed_in, session_ttl, post_login}
use amarre.Web.Login.Guards.{Entitled, Opened, post_login-signed_in, post_login-sessions}
use amarre.Web.Operation.{started, serve_action}
use amarre.Web.Operation.Guarded.{Cleared, serve_action-started, serve_action-else}
use amarre.Web.Samples.{ten_am, office, bob, door, login_form, one_host, bob_inside, action_form}

bob_signs_in : (post_login office door login_form ten_am (some "t") (some "c")).1 ≡ signed_in "t"
unfolding post_login new_limiter amarre.Auth.Limiter.kept_attempts
bob_signs_in = refl

post_login-signed_in_example :
    (check_csrf door.db login_form ≡ true)
    × ((allow door.lim (ip_of office login_form) ten_am).0 ≡ true)
    × ((u : User) × Entitled office
          (record door { lim = (allow door.lim (ip_of office login_form) ten_am).1 })
          login_form
          ten_am
          u
        × Opened
            (record door { lim = (allow door.lim (ip_of office login_form) ten_am).1 })
            ten_am
            (ip_of office login_form)
            "t"
            u
            (some "t")
            (some "c")
            (post_login office door login_form ten_am (some "t") (some "c")).0)
post_login-signed_in_example =
    post_login-signed_in office door login_form ten_am (some "t") (some "c") "t" bob_signs_in

post_login-sessions_example :
    ((post_login office door login_form ten_am none none).0.db.sessions ≡ door.db.sessions)
    ⊎ ((t : String) × ((post_login office door login_form ten_am none none).1 ≡ signed_in t))
post_login-sessions_example = post_login-sessions office door login_form ten_am none none

bob_checks :
    (serve_action office one_host bob_inside action_form "web" "check"
      (ten_am + hour)
      (ten_am + hour)).1
    ≡ started "check"
unfolding serve_action amarre.Config.ip_allowed amarre.Config.Net.contains_addr amarre.Base.find_by
bob_checks = refl

serve_action-started_example :
    (from_allowed one_host (remote_addr action_form) ≡ true)
    × Cleared office one_host bob_inside
        (serve_action office one_host bob_inside action_form "web" "check"
          (ten_am + hour)
          (ten_am + hour)).0
        action_form
        "web"
        "check"
        (ten_am + hour)
serve_action-started_example =
    serve_action-started office one_host bob_inside action_form "web" "check" "check"
      (ten_am + hour) (ten_am + hour) bob_checks

-- A form of another site: the cookie of the session comes with it, and its token does not.
abbrev forged : Request
forged = record action_form { csrf = "guess" }

serve_action-else_example :
    (serve_action office one_host bob_inside forged "web" "check" (ten_am + hour) (ten_am + hour)).0
    ≡ bob_inside
unfolding check_csrf
serve_action-else_example =
    serve_action-else office one_host bob_inside forged "web" "check" (ten_am + hour)
      (ten_am + hour) (inr (inr refl))

post_login-admits_example :
    ((post_login office door login_form ten_am (some "t") (some "c")).1 ≡ signed_in "t")
    × (session_user
          (post_login office door login_form ten_am (some "t") (some "c")).0.db
          "t"
          "10.9.9.9"
          (ten_am + hour)
        ≡ (if ltb (unix (ten_am + hour)) (unix (ten_am + session_ttl))
              && str_eq "10.1.2.3" "10.9.9.9"
            then ok bob
            else err no_user))
unfolding post_login new_limiter amarre.Auth.Limiter.kept_attempts find_id
post_login-admits_example =
    post_login-admits office door login_form ten_am (ten_am + hour) "t" "c" "10.9.9.9" bob
      bob_inside.db refl refl refl refl refl refl refl refl
