-- ===== src/Fleet/Tree/Tests.antt =====
-- A concrete answer of three lines.
use amarre.Base.{◌≡◌, refl, String, none, some, [], ◌∷◌, List, if◌then◌else◌, str_eq, pos, length}
use amarre.Fleet.Tree.{Node, Paths, children, node_before, tree_of}
use amarre.Base.{sort_by, Adjacent, All}
use amarre.Fleet.Tree.Listing.{nodes, within, Listed, IsNode, children-tree_of}

abbrev file : String → String → String → Node
file name kind path = record {
  name = name;
  kind = kind;
  path = path;
  size = pos 1;
  permissions = "";
  mtime = 0;
  struct_type = "node";
}

abbrev two_files : Paths
two_files = record {
  trim = λ s. s;
  decode = λ s.
      if str_eq s "a"
      then some (file "a" "file" "/a")
      else if str_eq s "d"
      then some (file "d" "dir" "/d")
      else none;
  dir = λ s. "/";
  clean = λ s. s;
}

abbrev answer : List String
answer = "a" ∷ "" ∷ "d" ∷ []

children-tree_of_example :
    (children two_files (tree_of two_files "" 0 answer) "/"
      ≡ sort_by node_before (within two_files "/" (nodes two_files answer)))
    × Adjacent Listed (children two_files (tree_of two_files "" 0 answer) "/")
    × All IsNode (children two_files (tree_of two_files "" 0 answer) "/")
    × ((tree_of two_files "" 0 answer).count ≡ length (nodes two_files answer))
children-tree_of_example = children-tree_of two_files "" 0 answer "/" refl

-- The directory stands first.
directory_first :
    children two_files (tree_of two_files "" 0 answer) "/"
    ≡ file "d" "dir" "/d" ∷ file "a" "file" "/a" ∷ []
unfolding children tree_of sort_by
directory_first = refl
