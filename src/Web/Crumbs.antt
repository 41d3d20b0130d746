-- ===== src/Web/Crumbs.antt =====
-- The trail of server.go above the listing of a directory: `Crumb` and `crumbs`.
pub mod Trail
use Prim.Native.String.{String}
use amarre.Base.{List, [], ◌∷◌, ◌<>◌, if◌then◌else◌, str_eq, trim_by, is_code, split_at}

pub record Crumb : Type 0 where
  pub name : String
  pub path : String

-- The loop over the segments, from `cur` on.
unfoldable pub walk : String → List String → List Crumb
walk cur [] = []
walk cur (seg ∷ segs) =
    let here = cur <> ("/" <> seg) in
    let rest = walk here segs in
    let skipped = walk cur segs in
    if str_eq seg "" then skipped else record { name = seg; path = here } ∷ rest

abbrev pub root : Crumb
root = record { name = "/"; path = "/" }

unfoldable pub crumbs : String → List Crumb
unfolding walk
crumbs p = root ∷ walk "" (split_at b'/' (trim_by (is_code b'/') p))
