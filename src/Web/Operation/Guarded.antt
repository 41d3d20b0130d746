-- ===== src/Web/Operation/Guarded.antt =====
-- What it takes to start an operation from the page of a host.
use amarre.Base.{
  ◌⊎◌, ◌≡◌, refl, ap, ◌∙◌, Bool, true, false, ◌&&◌, String, Option, none, some, if◌then◌else◌, inl,
  inr, Time, Result, ok, err,
}
use amarre.Config.{Config}
use amarre.Store.Tables.{User}
use amarre.Collector.Collect.{Console}
use amarre.Collector.Action.{ActionError, action}
use amarre.Web.Request.{
  Request, Environment, ip_of, remote_addr, from_allowed, current_user, check_csrf,
}
use amarre.Web.Operation.{
  not_found, bad_token, started, answer, act, post_action, authorised, serve_action,
}

module _ {V : Type 0} where
  answer-started :
      (con : Console V) (name verb user ip v : String) (now : Time)
      (o : Result ActionError (Console V))
      → (answer con name verb user ip now o).1 ≡ started v
      → o ≡ ok (answer con name verb user ip now o).0
  unfolding answer
  answer-started con name verb user ip v now (ok con') h = refl
  answer-started con name verb user ip v now (err x) h = absurd (cc h)

  act-started :
      (e : Environment) (c : Config) (con : Console V) (r : Request) (name verb v : String)
      (now : Time) (o : Option (User × String))
      → (act e c con r name verb now o).1 ≡ started v
      → (u : User) × (token : String) × (o ≡ some (u, token))
        × (action c con name verb u.username (ip_of e r) now ≡ ok (act e c con r name verb now o).0)
  unfolding act
  act-started e c con r name verb v now none h = absurd (cc h)
  act-started e c con r name verb v now (some (u, token)) h = (
    u,
    token,
    refl,
    answer-started con name verb u.username (ip_of e r) v now
        (action c con name verb u.username (ip_of e r) now) h,
  )

  -- What starts an operation: the address, a form with the right token, and a session.
  pub record Cleared (e : Environment) (c : Config) (con con' : Console V) (r : Request)
      (name verb : String) (later : Time) : Type 0 where
    pub checked : (r.form_ok && check_csrf con.db r) ≡ true
    pub user : User
    pub token : String
    pub session : current_user e con.db r later ≡ some (user, token)
    pub accepted : action c con name verb user.username (ip_of e r) later ≡ ok con'

  post_action-started :
      (e : Environment) (c : Config) (con : Console V) (r : Request) (name verb v : String)
      (later : Time)
      → (post_action e c con r name verb later).1 ≡ started v
      → Cleared e c con (post_action e c con r name verb later).0 r name verb later
  unfolding post_action
  post_action-started e c con r name verb v later h = go (r.form_ok && check_csrf con.db r) refl h
    where
      go :
          (k : Bool)
          → (r.form_ok && check_csrf con.db r) ≡ k
          → (if k
              then act e c con r name verb later (current_user e con.db r later)
              else (con, bad_token)).1
            ≡ started v
          → Cleared e c con
              (if k
                then act e c con r name verb later (current_user e con.db r later)
                else (con, bad_token)).0
              r
              name
              verb
              later
      go false eq m = absurd (cc m)
      go true eq m =
          let (u, token, session, accepted) =
            act-started e c con r name verb v later (current_user e con.db r later) m in
          record { checked = eq; user = u; token = token; session = session; accepted = accepted }

  authorised-started :
      (e : Environment) (c : Config) (con : Console V) (r : Request) (name verb v : String)
      (later : Time) (o : Option (User × String))
      → (authorised e c con r name verb later o).1 ≡ started v
      → Cleared e c con (authorised e c con r name verb later o).0 r name verb later
  unfolding authorised
  authorised-started e c con r name verb v later none h = absurd (cc h)
  authorised-started e c con r name verb v later (some u) h =
      post_action-started e c con r name verb v later h

  -- An operation starts only for a request from an allowed address, with the token of its
  -- session or of its form cookie in its form, and with a session that lives for that address;
  -- and what it changes is what `Action` changes for the user of that session.
  pub serve_action-started :
      (e : Environment) (c : Config) (con : Console V) (r : Request) (name verb v : String)
      (now later : Time)
      → (serve_action e c con r name verb now later).1 ≡ started v
      → (from_allowed c (remote_addr r) ≡ true)
        × Cleared e c con (serve_action e c con r name verb now later).0 r name verb later
  unfolding serve_action
  serve_action-started e c con r name verb v now later h =
      go (from_allowed c (remote_addr r)) refl h
    where
      go :
          (a : Bool)
          → from_allowed c (remote_addr r) ≡ a
          → (if a
              then authorised e c con r name verb later (current_user e con.db r now)
              else (con, not_found)).1
            ≡ started v
          → (from_allowed c (remote_addr r) ≡ true)
            × Cleared e c con
                (if a
                  then authorised e c con r name verb later (current_user e con.db r now)
                  else (con, not_found)).0
                r
                name
                verb
                later
      go false eq m = absurd (cc m)
      go true eq m =
          (eq, authorised-started e c con r name verb v later (current_user e con.db r now) m)

  -- A request that is not let in, that has no session, or whose form has not the right token
  -- leaves the whole state of the collector as it was.
  pub serve_action-else :
      (e : Environment) (c : Config) (con : Console V) (r : Request) (name verb : String)
      (now later : Time)
      → (from_allowed c (remote_addr r) ≡ false)
        ⊎ (current_user e con.db r now ≡ none)
        ⊎ (check_csrf con.db r ≡ false)
      → (serve_action e c con r name verb now later).0 ≡ con
  unfolding serve_action authorised post_action
  serve_action-else e c con r name verb now later h =
      go (from_allowed c (remote_addr r)) (current_user e con.db r now) h
    where
      unchecked :
          (form : Bool)
          → (if form && false
              then act e c con r name verb later (current_user e con.db r later)
              else (con, bad_token)).0
            ≡ con
      unchecked true = refl
      unchecked false = refl

      go :
          (a : Bool) (o : Option (User × String))
          → (a ≡ false) ⊎ (o ≡ none) ⊎ (check_csrf con.db r ≡ false)
          → (if a then authorised e c con r name verb later o else (con, not_found)).0 ≡ con
      go false o k = refl
      go true none k = refl
      go true (some u) (inl k) = absurd (cc k)
      go true (some u) (inr (inl k)) = absurd (cc k)
      go true (some u) (inr (inr k)) =
          ap
            (λ b.
              (if r.form_ok && b
                then act e c con r name verb later (current_user e con.db r later)
                else (con, bad_token)).0)
            k
          ∙ unchecked r.form_ok
