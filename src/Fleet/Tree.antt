-- ===== src/Fleet/Tree.antt =====
-- The tree of a snapshot of tree.go: `Tree`, `Children` and `FetchTree` from the answer of the
-- host on; and `Node` of fleet.go. The scanner and the JSON decoder give the lines and their
-- nodes, `path.Dir` and `path.Clean` the directories.
pub mod Listing
mod Tests
use amarre.Base.{
  ℕ, ◌+◌, Bool, true, false, not, ◌&&◌, String, Option, none, some, List, [], ◌∷◌, ◌++◌,
  if◌then◌else◌, str_eq, str_lt, ℤ, Time, sort_by, Dict, lookup, insert,
}

pub record Node : Type 0 where
  pub name : String
  pub kind : String
  pub path : String
  pub size : ℤ
  pub permissions : String
  pub mtime : Time
  pub struct_type : String

pub record Tree : Type 0 where
  pub snapshot : String
  pub built : Time
  pub dirs : Dict (List Node)
  pub count : ℕ

-- `bytes.TrimSpace`, `json.Unmarshal` into a `Node`, `path.Dir` and `path.Clean`.
pub record Paths : Type 0 where
  pub trim : String → String
  pub decode : String → Option Node
  pub dir : String → String
  pub clean : String → String

abbrev pub is_dir : Node → Bool
is_dir n = str_eq n.kind "dir"

abbrev pub kids_of : Option (List Node) → List Node
kids_of none = []
kids_of (some ns) = ns

-- `Children`; a missing key of the map reads as the empty slice.
unfoldable pub children : Paths → Tree → String → List Node
children p t d = kids_of (lookup (if str_eq d "/" then d else p.clean d) t.dirs)

-- `t.Dirs[parent] = append(t.Dirs[parent], n)`
unfoldable pub add_node : Paths → Tree → Node → Tree
add_node p t n =
    let parent = p.dir n.path in
    record t {
      dirs = insert parent (kids_of (lookup parent t.dirs) ++ n ∷ []) t.dirs;
      count = t.count + 1;
    }

-- A line that is blank, that is not JSON or that is no node is passed over.
unfoldable pub node_of : Paths → String → Option Node
node_of p line = if str_eq (p.trim line) "" then none else elim (p.decode (p.trim line)) [
  | none ↦ none
  | some n ↦ if str_eq n.struct_type "node" then some n else none
]

-- The rest of the body of the loop.
unfoldable pub add_line : Paths → Tree → Option Node → Tree
unfolding add_node
add_line p t none = t
add_line p t (some n) = add_node p t n

unfoldable pub scan : Paths → Tree → List String → Tree
unfolding node_of add_line
scan p t [] = t
scan p t (line ∷ lines) = scan p (add_line p t (node_of p line)) lines

-- Directories first, then by name.
unfoldable pub node_before : Node → Node → Bool
node_before a b =
    if is_dir a && not (is_dir b)
    then true
    else if is_dir b && not (is_dir a)
    then false
    else str_lt a.name b.name

unfoldable pub sort_dirs : Dict (List Node) → Dict (List Node)
unfolding node_before
sort_dirs [] = []
sort_dirs ((d, ns) ∷ ds) = (d, sort_by node_before ns) ∷ sort_dirs ds

abbrev pub or_latest : String → String
or_latest snapshot = if str_eq snapshot "" then "latest" else snapshot

abbrev pub new_tree : String → Time → Tree
new_tree snapshot now = record { snapshot = or_latest snapshot; built = now; dirs = []; count = 0 }

unfoldable pub tree_of : Paths → String → Time → List String → Tree
unfolding scan sort_dirs
tree_of p snapshot now lines =
    let t = scan p (new_tree snapshot now) lines in record t { dirs = sort_dirs t.dirs }
