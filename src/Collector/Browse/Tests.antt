-- ===== src/Collector/Browse/Tests.antt =====
-- A small tree that is fetched once, and a cached answer.
use amarre.Base.{◌+◌, ◌≡◌, refl, none, [], ◌∷◌, find_by, Time, second, hour, epoch, ok, err, pos}
use amarre.Fleet.Tree.{Node, Tree, Paths, children}
use amarre.Collector.Trees.{new_tree_store}
use amarre.Collector.Samples.{lone, lone_host}
use amarre.Collector.Browse.{Course, browse}
use amarre.Collector.Browse.Memory.{browse-again}

abbrev eight : Time
eight = epoch + hour

abbrev etc : Node
etc = record {
  name = "etc";
  kind = "dir";
  path = "/etc";
  size = pos 0;
  permissions = "";
  mtime = 0;
  struct_type = "node";
}

abbrev small : Tree
small = record { snapshot = "a1"; built = 0; dirs = ("/", etc ∷ []) ∷ []; count = 1 }

abbrev plain : Paths
plain = record { trim = λ s. s; decode = λ s. none; dir = λ s. "/"; clean = λ s. s }

abbrev answers : Course
answers = record { waited = new_tree_store; answer = ok small; kept_at = eight + second }

abbrev silent : Course
silent = record { waited = new_tree_store; answer = err "timeout"; kept_at = eight + hour }

browse-again_example :
    (browse plain lone
      (browse plain lone new_tree_store "web" "a1" "/etc" eight answers (err "timeout")).0
      "web"
      "a1"
      "/"
      (eight + hour)
      silent
      (err "timeout")).1
    ≡ ok (children plain small "/")
unfolding find_by
browse-again_example =
    browse-again plain lone new_tree_store "web" "a1" "/etc" "/" eight (eight + hour) answers silent
      (err "timeout") (err "timeout") lone_host small refl refl refl refl
