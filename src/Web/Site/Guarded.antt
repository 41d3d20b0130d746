-- ===== src/Web/Site/Guarded.antt =====
-- What a stranger gets from the console.
use amarre.Base.{◌≡◌, Bool, true, false, String, Option, none, some, List, []}
use amarre.Config.{Config, Parsers}
use amarre.Config.Net.{Addr, unmap}
use amarre.Config.Sources.{Admits}
use amarre.Web.Pages.{Site}
use amarre.Web.Site.{Route, login_form, login_post, asset_root, asset, Served, Body, Reply}

-- The routes that are open: the sign-in and the files.
abbrev pub is_open : Route → Bool
is_open login_form = true
is_open login_post = true
is_open (asset p) = true
is_open asset_root = true
is_open _ = false

abbrev pub open_route : Option Route → Bool
open_route none = true
open_route (some route) = is_open route

-- The state is as it was, and the answer is bare: no cookie, and this body.
pub record Refused (hs : List (String × String)) (answer : Body) (st : Served) (o : Served × Reply)
    : Type 0 where
  pub same : o.0 ≡ st
  pub headers : o.1.headers ≡ hs
  pub cookies : o.1.cookies ≡ []
  pub body : o.1.body ≡ answer

-- The connection has an address, and some declared source holds it, unmapped.
abbrev pub Declared : Parsers → List String → Option Addr → Type 0
Declared net sources none = ⊥
Declared net sources (some a) = Admits net (unmap a) sources
