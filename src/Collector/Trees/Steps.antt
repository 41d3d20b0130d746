-- ===== src/Collector/Trees/Steps.antt =====
-- The store of trees at every order in which goroutines reach their critical sections.
use amarre.Base.{
  ℕ, ◌+◌, ◌-◌, ◌≤◌, ◌≡◌, ◌≢◌, refl, sym, subst, ap, ◌∙◌, ◌⊎◌, inl, inr, String, Option, none, some,
  [], ◌∷◌, arith, str_eq, str_eq_iff, Bool-cases, Time, length, Dict, lookup, insert, erase, IsMap,
  insert-IsMap, erase-IsMap, lookup-insert_self, lookup-insert_ne, lookup-erase_ne,
  lookup-erase_self,
}
use text.Mathlib.Text.{starts_with}
use Prim.Native.String.{◌++◌ as text_append}
use amarre.Fleet.Tree.{Tree}
use amarre.Collector.Trees.{
  Phase, fetching, leaving, TreeStore, count_of, new_tree_store, max_nodes, demand_absent,
  demand_of, demand, evict, evict_locked, keep, give_up, leave, forget, invalidate_trees,
}
use amarre.Collector.Trees.Keys.{
  Within, Within-refl, Within-erase, length-erase_le, total-erase, total-insert, erase-SameKeys,
  insert-SameKeys, touch-SameKeys,
}
use amarre.Collector.Trees.Evict.{
  IsTidy, evict-IsTidy, evict_locked-Fits, evict-lookup, evict-loading, erase-none,
}

-- One critical section: a demand of a tree, the end of a fetch that succeeded or failed, the
-- deferred section, and the invalidation of a host.
pub data Step : TreeStore → TreeStore → Type 0 where
  asks : (ts : TreeStore) (k : String) (now : Time) → k ≢ "" → Step ts (demand ts k now).0
  keeps :
      (ts : TreeStore) (k : String) (t : Tree) (now : Time)
      → k ≢ ""
      → lookup k ts.loading ≡ some fetching
      → Step ts (keep ts k t now)
  gives_up :
      (ts : TreeStore) (k : String) → lookup k ts.loading ≡ some fetching → Step ts (give_up ts k)
  leaves : (ts : TreeStore) (k : String) → lookup k ts.loading ≡ some leaving → Step ts (leave ts k)
  invalidates : (ts : TreeStore) (host : String) → Step ts (invalidate_trees ts host)

pub data Reachable : TreeStore → Type 0 where
  starts : Reachable new_tree_store
  goes_on : {ts ts' : TreeStore} → Reachable ts → Step ts ts' → Reachable ts'

-- The maps agree; a tree that is being fetched is not there yet; and the nodes are within the
-- bound, or there is one tree at most.
pub record IsSound (ts : TreeStore) : Type 0 where
  pub tidy : IsTidy ts
  pub absent : (k : String) → lookup k ts.loading ≡ some fetching → lookup k ts.trees ≡ none
  pub loads : IsMap ts.loading
  pub small : (ts.nodes ≤ max_nodes) ⊎ (length ts.trees ≤ 1)

new-IsSound : IsSound new_tree_store
new-IsSound = record {
  tidy = record { same = tt; is_map = tt; sum = refl };
  absent = λ k e. refl;
  loads = tt;
  small = inl (omega arith);
}

-- A key that starts to be marked as `p` is one that is fetched only if `p` says so.
absent-insert :
    (d : Dict Tree) (loading : Dict Phase) (k : String) (p : Phase)
    → ((j : String) → lookup j loading ≡ some fetching → lookup j d ≡ none)
    → (p ≡ leaving) ⊎ (lookup k d ≡ none)
    → (j : String) → lookup j (insert k p loading) ≡ some fetching
    → lookup j d ≡ none
absent-insert d loading k p absent allowed j g = elim (Bool-cases (str_eq j k)) [
  | inr other ↦
      absent j (sym (lookup-insert_ne j k p loading (λ e. cc (other, (str_eq_iff j k).1 e))) ∙ g)
  | inl same ↦
      let e = (str_eq_iff j k).0 same in
      let marked : some p ≡ some fetching =
        sym (lookup-insert_self k p loading)
        ∙ ap (λ i. lookup i (insert k p loading)) (sym e)
        ∙ g in
      elim allowed [
        | inl gone ↦ absurd (cc (marked, gone))
        | inr free ↦ subst (λ i. lookup i d ≡ none) (sym e) free
      ]
]

demand_absent-IsSound :
    (ts : TreeStore) (k : String) (o : Option Phase)
    → lookup k ts.trees ≡ none
    → IsSound ts
    → IsSound (demand_absent ts k o).0
unfolding demand_absent
demand_absent-IsSound ts k (some p) free s = s
demand_absent-IsSound ts k none free s = record {
  tidy = record { same = s.tidy.same; is_map = s.tidy.is_map; sum = s.tidy.sum };
  absent = absent-insert ts.trees ts.loading k fetching s.absent (inr free);
  loads = insert-IsMap k fetching ts.loading s.loads;
  small = s.small;
}

demand_of-IsSound :
    (ts : TreeStore) (k : String) (now : Time) (o : Option Tree)
    → lookup k ts.trees ≡ o
    → IsSound ts
    → IsSound (demand_of ts k now o).0
unfolding demand_of
demand_of-IsSound ts k now none e s = demand_absent-IsSound ts k (lookup k ts.loading) e s
demand_of-IsSound ts k now (some t) e s = record {
  tidy = record {
    same = touch-SameKeys k t now ts.trees ts.used e s.tidy.same;
    is_map = s.tidy.is_map;
    sum = s.tidy.sum;
  };
  absent = s.absent;
  loads = s.loads;
  small = s.small;
}

-- The bound after the tree is kept.
small-keep :
    (d : Dict Tree) (n : ℕ) (k : String) (t : Tree)
    → (n ≤ max_nodes) ⊎ (d ≡ [])
    → (n ≤ max_nodes) ⊎ (length (insert k t d) ≤ 1)
small-keep d n k t (inl fits) = inl fits
small-keep d n k t (inr bare) =
    inr (subst (λ e. length (insert k t e) ≤ 1) (sym bare) (omega arith))

still-absent :
    (before_d d : Dict Tree) (before_l l : Dict Phase) (k : String) (t : Tree)
    → ((j : String) → lookup j before_l ≡ some fetching → lookup j before_d ≡ none)
    → l ≡ before_l
    → ((j : String) → lookup j before_d ≡ none → lookup j d ≡ none)
    → (j : String) → lookup j (insert k leaving l) ≡ some fetching
    → lookup j (insert k t d) ≡ none
still-absent before_d d before_l l k t absent same less j g = elim (Bool-cases (str_eq j k)) [
  | inl here ↦ absurd (marked ((str_eq_iff j k).0 here))
  | inr other ↦
      let ne : j ≢ k = λ e. cc (other, (str_eq_iff j k).1 e) in
      lookup-insert_ne j k t d ne
      ∙ less j (absent j (ap (lookup j) (sym same) ∙ sym (lookup-insert_ne j k leaving l ne) ∙ g))
]
  where
    marked : j ≡ k → ⊥
    marked e =
        let p : some leaving ≡ some fetching =
          sym (lookup-insert_self k leaving l)
          ∙ ap (λ i. lookup i (insert k leaving l)) (sym e)
          ∙ g in
        cc p

keep-IsSound :
    (ts : TreeStore) (k : String) (t : Tree) (now : Time)
    → k ≢ ""
    → lookup k ts.loading ≡ some fetching
    → IsSound ts
    → IsSound (keep ts k t now)
unfolding keep evict_locked
keep-IsSound ts k t now ne e s =
    let tidy = evict-IsTidy (length ts.trees) ts t.count s.tidy in
    let room = evict (length ts.trees) ts t.count in
    let fresh = evict-lookup (length ts.trees) ts t.count k (s.absent k e) in
    let fetched : (j : String)
        → lookup j (insert k leaving room.loading) ≡ some fetching
        → lookup j (insert k t room.trees) ≡ none =
      still-absent ts.trees room.trees ts.loading room.loading k t s.absent
        (evict-loading (length ts.trees) ts t.count) (evict-lookup (length ts.trees) ts t.count) in
    record {
      tidy = record {
        same = insert-SameKeys k t now room.trees room.used ne tidy.same;
        is_map = insert-IsMap k t room.trees tidy.is_map;
        sum = omega (arith, tidy.sum, total-insert k t room.trees fresh);
      };
      absent = fetched;
      loads =
          insert-IsMap k leaving room.loading
            (subst IsMap (sym (evict-loading (length ts.trees) ts t.count)) s.loads);
      small =
          small-keep room.trees (room.nodes + t.count) k t (evict_locked-Fits ts t.count s.tidy);
    }

give_up-IsSound : (ts : TreeStore) (k : String) → IsSound ts → IsSound (give_up ts k)
unfolding give_up
give_up-IsSound ts k s = record {
  tidy = record { same = s.tidy.same; is_map = s.tidy.is_map; sum = s.tidy.sum };
  absent = absent-insert ts.trees ts.loading k leaving s.absent (inl refl);
  loads = insert-IsMap k leaving ts.loading s.loads;
  small = s.small;
}

lookup-erase-some :
    (j k : String) (p : Phase) (l : Dict Phase)
    → IsMap l
    → lookup j (erase k l) ≡ some p
    → lookup j l ≡ some p
lookup-erase-some j k p l m h = elim (Bool-cases (str_eq j k)) [
  | inr other ↦ sym (lookup-erase_ne j k l (λ e. cc (other, (str_eq_iff j k).1 e))) ∙ h
  | inl same ↦
      let e : lookup j (erase k l) ≡ none =
        ap (λ i. lookup i (erase k l)) ((str_eq_iff j k).0 same) ∙ lookup-erase_self k l m in
      absurd (cc (e, h))
]

leave-IsSound : (ts : TreeStore) (k : String) → IsSound ts → IsSound (leave ts k)
unfolding leave
leave-IsSound ts k s = record {
  tidy = record { same = s.tidy.same; is_map = s.tidy.is_map; sum = s.tidy.sum };
  absent = λ j g. s.absent j (lookup-erase-some j k fetching ts.loading s.loads g);
  loads = erase-IsMap k ts.loading s.loads;
  small = s.small;
}

drop : TreeStore → String → Tree → TreeStore
drop ts k t = record ts {
  trees = erase k ts.trees;
  used = erase k ts.used;
  nodes = ts.nodes - t.count;
}

drop-IsSound :
    (ts : TreeStore) (k : String) (t : Tree)
    → lookup k ts.trees ≡ some t
    → IsSound ts
    → IsSound (drop ts k t)
unfolding drop
drop-IsSound ts k t e s = record {
  tidy = record {
    same = erase-SameKeys k ts.trees ts.used s.tidy.same;
    is_map = erase-IsMap k ts.trees s.tidy.is_map;
    sum = omega (arith, s.tidy.sum, total-erase k ts.trees, ap count_of e);
  };
  absent = λ j g. erase-none j k ts.trees (s.absent j g);
  loads = s.loads;
  small = elim s.small [
    | inl fits ↦ inl (omega arith)
    | inr few ↦ inr (omega (arith, length-erase_le k ts.trees))
  ];
}

forget-IsSound :
    (ts : TreeStore) (host : String) (d : Dict Tree)
    → Within d ts.trees
    → IsMap d
    → IsSound ts
    → IsSound (forget ts host d)
unfolding forget drop
forget-IsSound ts host [] w m s = s
forget-IsSound ts host ((k, t) ∷ d) w m s =
    elim (Bool-cases (starts_with k (text_append host "|"))) [
      | inl hit ↦ rw hit (
          forget-IsSound (drop ts k t) host d (Within-erase k d ts.trees m.0 w.1) m.1
            (drop-IsSound ts k t w.0 s))
      | inr miss ↦ rw miss (forget-IsSound ts host d w.1 m.1 s)
    ]

Step-IsSound : {ts ts' : TreeStore} → Step ts ts' → IsSound ts → IsSound ts'
unfolding demand invalidate_trees
Step-IsSound (asks ts k now ne) s = demand_of-IsSound ts k now (lookup k ts.trees) refl s
Step-IsSound (keeps ts k t now ne e) s = keep-IsSound ts k t now ne e s
Step-IsSound (gives_up ts k e) s = give_up-IsSound ts k s
Step-IsSound (leaves ts k e) s = leave-IsSound ts k s
Step-IsSound (invalidates ts host) s =
    forget-IsSound ts host ts.trees (Within-refl ts.trees s.tidy.is_map) s.tidy.is_map s

-- In every state that the critical sections reach, in whatever order: the two maps have the same
-- keys, the count of the nodes is that of the trees, no tree is there while it is being fetched,
-- and the count is within the bound unless a single tree stands in the store.
pub Reachable-IsSound : (ts : TreeStore) → Reachable ts → IsSound ts
Reachable-IsSound ts starts = new-IsSound
Reachable-IsSound ts (goes_on r step) = Step-IsSound step (Reachable-IsSound _ r)
