-- ===== src/Fleet/Tree/Listing.antt =====
-- What the tree of a snapshot gives for a directory.
use mathlib.Core.List.{append-nil, append_assoc}
use amarre.Base.{
  ◌+◌, ◌≡◌, refl, sym, subst, ap, ◌∙◌, Bool, true, false, String, Option, none, some, List, [], ◌∷◌,
  ◌++◌, arith, if◌then◌else◌, str_eq, str_eq_iff, Bool-cases, inl, inr, Time, length, length-append,
  sort_by, sort_by-IsSorted, sort_by-All, Adjacent, Adjacent-IsSorted, All, ◌⊎◌, not, ◌&&◌, str_lt,
  str_lt_asymm, Dict, lookup, insert, lookup-insert_self, lookup-insert_ne,
}
use amarre.Fleet.Tree.{
  Node, Tree, Paths, kids_of, children, add_line, node_of, scan, node_before, sort_dirs, new_tree,
  tree_of,
}

abbrev listed : Option Node → List Node
listed none = []
listed (some n) = n ∷ []

-- The nodes of an answer, in the order of its lines.
unfoldable pub nodes : Paths → List String → List Node
nodes p [] = []
nodes p (line ∷ lines) = listed (node_of p line) ++ nodes p lines

-- The nodes that stand directly in a directory.
unfoldable pub within : Paths → String → List Node → List Node
within p d [] = []
within p d (n ∷ ns) = let rest = within p d ns in if str_eq d (p.dir n.path) then n ∷ rest else rest

kids-insert :
    (parent d : String) (n : Node) (ds : Dict (List Node))
    → kids_of (lookup d (insert parent (kids_of (lookup parent ds) ++ n ∷ []) ds))
      ≡ kids_of (lookup d ds) ++ (if str_eq d parent then n ∷ [] else [])
kids-insert parent d n ds = elim (Bool-cases (str_eq d parent)) [
  | inr other ↦ rw other (
      ap kids_of (lookup-insert_ne d parent _ ds (λ e. cc (other, (str_eq_iff d parent).1 e)))
      ∙ sym (append-nil (kids_of (lookup d ds))))
  | inl same ↦ rw same (at_parent ((str_eq_iff d parent).0 same))
]
  where
    at_parent :
        d ≡ parent
        → kids_of (lookup d (insert parent (kids_of (lookup parent ds) ++ n ∷ []) ds))
          ≡ kids_of (lookup d ds) ++ n ∷ []
    at_parent e =
        subst
          (λ k.
            kids_of (lookup k (insert parent (kids_of (lookup parent ds) ++ n ∷ []) ds))
            ≡ kids_of (lookup k ds) ++ n ∷ [])
          (sym e) (ap kids_of (lookup-insert_self parent _ ds))

within-append :
    (p : Paths) (d : String) (ns ms : List Node)
    → within p d (ns ++ ms) ≡ within p d ns ++ within p d ms
unfolding within
within-append p d [] ms = refl
within-append p d (n ∷ ns) ms = ground (arith, within-append p d ns ms)

kids-add_line :
    (p : Paths) (t : Tree) (o : Option Node) (d : String)
    → kids_of (lookup d (add_line p t o).dirs) ≡ kids_of (lookup d t.dirs) ++ within p d (listed o)
unfolding add_line within
kids-add_line p t none d = sym (append-nil (kids_of (lookup d t.dirs)))
kids-add_line p t (some n) d = kids-insert (p.dir n.path) d n t.dirs

kids-scan :
    (p : Paths) (t : Tree) (lines : List String) (d : String)
    → kids_of (lookup d (scan p t lines).dirs)
      ≡ kids_of (lookup d t.dirs) ++ within p d (nodes p lines)
unfolding scan nodes within
kids-scan p t [] d = sym (append-nil (kids_of (lookup d t.dirs)))
kids-scan p t (line ∷ lines) d =
    kids-scan p (add_line p t (node_of p line)) lines d
    ∙ ap (λ ks. ks ++ within p d (nodes p lines)) (kids-add_line p t (node_of p line) d)
    ∙ append_assoc (kids_of (lookup d t.dirs)) _ _
    ∙ ap (λ ks. kids_of (lookup d t.dirs) ++ ks)
        (sym (within-append p d (listed (node_of p line)) (nodes p lines)))

count-add_line :
    (p : Paths) (t : Tree) (o : Option Node) → (add_line p t o).count ≡ t.count + length (listed o)
unfolding add_line
count-add_line p t none = omega arith
count-add_line p t (some n) = omega arith

count-scan :
    (p : Paths) (t : Tree) (lines : List String)
    → (scan p t lines).count ≡ t.count + length (nodes p lines)
unfolding scan nodes
count-scan p t [] = omega arith
count-scan p t (line ∷ lines) =
    count-scan p (add_line p t (node_of p line)) lines
    ∙ omega (
      arith,
      count-add_line p t (node_of p line),
      length-append (listed (node_of p line)) (nodes p lines),
    )

kids-sort_dirs :
    (ds : Dict (List Node)) (d : String)
    → kids_of (lookup d (sort_dirs ds)) ≡ sort_by node_before (kids_of (lookup d ds))
unfolding sort_dirs sort_by
kids-sort_dirs [] d = refl
kids-sort_dirs ((e, ns) ∷ ds) d = ground (arith, kids-sort_dirs ds d)

-- A directory is not below a file; and of two of a kind, the lower one's name is not smaller.
abbrev pub Listed : Node → Node → Type 0
Listed a b =
    ((str_eq a.kind "dir" ≡ true) × (str_eq b.kind "dir" ≡ false))
    ⊎ ((str_eq a.kind "dir" ≡ str_eq b.kind "dir") × (str_lt b.name a.name ≡ false))

node_before-Listed : (a b : Node) → node_before b a ≡ false → Listed a b
unfolding node_before
node_before-Listed a b h = go (str_eq a.kind "dir") (str_eq b.kind "dir") refl refl h
  where
    go :
        (d e : Bool)
        → str_eq a.kind "dir" ≡ d
        → str_eq b.kind "dir" ≡ e
        → (if e && not d then true else if d && not e then false else str_lt b.name a.name) ≡ false
        → Listed a b
    go true true p q k = inr (p ∙ sym q, k)
    go true false p q k = inl (p, q)
    go false true p q k = cc
    go false false p q k = inr (p ∙ sym q, k)

node_before_asymm : (a b : Node) → node_before a b ≡ true → node_before b a ≡ false
unfolding node_before
node_before_asymm a b h = ground (arith, h, str_lt_asymm a.name b.name)

-- An entry of the answer of the type "node".
abbrev pub IsNode : Node → Type 0
IsNode n = str_eq n.struct_type "node" ≡ true

listed-IsNode : (p : Paths) (line : String) → All IsNode (listed (node_of p line))
unfolding node_of
listed-IsNode p line = elim (Bool-cases (str_eq (p.trim line) "")) [
  | inl blank ↦ rw blank tt
  | inr full ↦ rw full (decoded (p.decode (p.trim line)))
]
  where
    decoded :
        (o : Option Node)
        → All IsNode (
            listed (elim o [
              | none ↦ none
              | some n ↦ if str_eq n.struct_type "node" then some n else none
            ]))
    decoded none = tt
    decoded (some n) = elim (Bool-cases (str_eq n.struct_type "node")) [
      | inl is_node ↦ rw is_node (is_node, tt)
      | inr other ↦ rw other tt
    ]

within-IsNode :
    (p : Paths) (d : String) (ns : List Node) → All IsNode ns → All IsNode (within p d ns)
unfolding within
within-IsNode p d [] h = tt
within-IsNode p d (n ∷ ns) (h, hs) = elim (Bool-cases (str_eq d (p.dir n.path))) [
  | inl here ↦ rw here (h, within-IsNode p d ns hs)
  | inr there ↦ rw there (within-IsNode p d ns hs)
]

nodes-IsNode : (p : Paths) (lines : List String) → All IsNode (nodes p lines)
unfolding nodes
nodes-IsNode p [] = tt
nodes-IsNode p (line ∷ lines) = both (node_of p line) (listed-IsNode p line) (nodes-IsNode p lines)
  where
    both :
        (o : Option Node)
        → All IsNode (listed o)
        → All IsNode (nodes p lines)
        → All IsNode (listed o ++ nodes p lines)
    both none h k = k
    both (some n) h k = (h.0, k)

children-eq :
    (p : Paths) (snapshot : String) (now : Time) (lines : List String) (d : String)
    → p.clean d ≡ d
    → children p (tree_of p snapshot now lines) d ≡ sort_by node_before (within p d (nodes p lines))
unfolding children tree_of
children-eq p snapshot now lines d e =
    ap (λ k. kids_of (lookup k (sort_dirs (scan p (new_tree snapshot now) lines).dirs)))
      (at_dir (str_eq d "/"))
    ∙ kids-sort_dirs (scan p (new_tree snapshot now) lines).dirs d
    ∙ ap (sort_by node_before) (kids-scan p (new_tree snapshot now) lines d)
  where
    at_dir : (b : Bool) → (if b then d else p.clean d) ≡ d
    at_dir true = refl
    at_dir false = e

-- A directory that is given without superfluous parts shows the nodes of the answer that stand
-- directly in it, each once, sorted; all are of the type "node", no directory stands directly below a
-- file, and of two neighbours of a kind the lower one's name is not smaller; and the count of the tree
-- is the number of the nodes of the answer.
pub children-tree_of :
    (p : Paths) (snapshot : String) (now : Time) (lines : List String) (d : String)
    → p.clean d ≡ d
    → (children p (tree_of p snapshot now lines) d
        ≡ sort_by node_before (within p d (nodes p lines)))
      × Adjacent Listed (children p (tree_of p snapshot now lines) d)
      × All IsNode (children p (tree_of p snapshot now lines) d)
      × ((tree_of p snapshot now lines).count ≡ length (nodes p lines))
unfolding tree_of
children-tree_of p snapshot now lines d e =
    let shown = children-eq p snapshot now lines d e in
    let found = within p d (nodes p lines) in
    (
      shown,
      subst (λ l. Adjacent Listed l) (sym shown)
          (Adjacent-IsSorted node_before Listed node_before-Listed (sort_by node_before found)
            (sort_by-IsSorted node_before node_before_asymm found)),
      subst (λ l. All IsNode l) (sym shown)
          (sort_by-All node_before IsNode found
            (within-IsNode p d (nodes p lines) (nodes-IsNode p lines))),
      count-scan p (new_tree snapshot now) lines ∙ omega arith,
    )
