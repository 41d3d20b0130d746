-- ===== src/Collector/Trees.antt =====
-- The trees of trees.go: the critical sections of `Tree`, `evictLocked` and `InvalidateTrees`,
-- each of them one function of the store; `Steps` has the order in which goroutines reach them.
-- The entry of `loading` for a key holds, for the wait group of the source, how far the goroutine
-- that fetches it has come.
pub mod Keys
pub mod Evict
pub mod Steps
mod Tests
use Prim.Native.String.{◌++◌ as text_append}
use text.Mathlib.Text.{starts_with}
use amarre.Base.{
  ℕ, zero, suc, ◌+◌, ◌-◌, Bool, true, false, not, ◌&&◌, ◌||◌, String, Option, none, some, List, [],
  ◌∷◌, ltb, if◌then◌else◌, str_eq, Time, before, length, Dict, lookup, insert, erase,
}
use amarre.Config.{HostConfig}
use amarre.Fleet.Tree.{Tree}

-- `fetching` until the section that keeps the tree, or the error; `leaving` until the deferred
-- section that deletes the entry.
pub data Phase : Type 0 where
  fetching leaving : Phase

-- `nodes` is an int of the source; here its subtractions stop at 0.
pub record TreeStore : Type 0 where
  pub trees : Dict Tree
  pub used : Dict Time
  pub loading : Dict Phase
  pub nodes : ℕ

abbrev pub new_tree_store : TreeStore
new_tree_store = record { trees = []; used = []; loading = []; nodes = 0 }

abbrev pub max_nodes : ℕ
max_nodes = 800000

abbrev pub key : String → String → String
key host snap = text_append host (text_append "|" snap)

-- The loop over `used` that looks for the oldest entry: the key "" stands for none yet.
unfoldable pub oldest_from : String → Time → Dict Time → String
oldest_from oldest oldest_at [] = oldest
oldest_from oldest oldest_at ((k, at) ∷ d) =
    if str_eq oldest "" || before at oldest_at
    then oldest_from k at d
    else oldest_from oldest oldest_at d

abbrev pub count_of : Option Tree → ℕ
count_of none = 0
count_of (some t) = t.count

-- The body of the loop of `evictLocked`.
unfoldable pub evict_oldest : TreeStore → TreeStore
unfolding oldest_from
evict_oldest ts =
    let oldest = oldest_from "" 0 ts.used in
    record ts {
      trees = erase oldest ts.trees;
      used = erase oldest ts.used;
      nodes = ts.nodes - count_of (lookup oldest ts.trees);
    }

abbrev pub is_empty {ℓ} : {A : Type ℓ} → List A → Bool
is_empty [] = true
is_empty (x ∷ xs) = false

-- The loop, with fuel.
unfoldable pub evict : ℕ → TreeStore → ℕ → TreeStore
unfolding evict_oldest
evict zero ts incoming = ts
evict (suc fuel) ts incoming =
    let rest = evict fuel (evict_oldest ts) incoming in
    if ltb max_nodes (ts.nodes + incoming) && not (is_empty ts.trees) then rest else ts

unfoldable pub evict_locked : TreeStore → ℕ → TreeStore
unfolding evict
evict_locked ts incoming = evict (length ts.trees) ts incoming

-- What the first section of `Tree` decides.
pub data Demand : Type 0 where
  served : Tree → Demand
  waits : Demand
  fetches : Demand

-- With no tree: a fetch under way is waited for, and otherwise this goroutine fetches.
unfoldable pub demand_absent : TreeStore → String → Option Phase → TreeStore × Demand
demand_absent ts k (some p) = (ts, waits)
demand_absent ts k none = (record ts { loading = insert k fetching ts.loading }, fetches)

unfoldable pub demand_of : TreeStore → String → Time → Option Tree → TreeStore × Demand
unfolding demand_absent
demand_of ts k now (some t) = (record ts { used = insert k now ts.used }, served t)
demand_of ts k now none = demand_absent ts k (lookup k ts.loading)

unfoldable pub demand : TreeStore → String → Time → TreeStore × Demand
unfolding demand_of
demand ts k now = demand_of ts k now (lookup k ts.trees)

-- The section after a fetch that succeeded.
unfoldable pub keep : TreeStore → String → Tree → Time → TreeStore
unfolding evict_locked
keep ts k t now =
    let room = evict_locked ts t.count in
    record room {
      trees = insert k t room.trees;
      used = insert k now room.used;
      nodes = room.nodes + t.count;
      loading = insert k leaving room.loading;
    }

-- A fetch that failed leaves the function: only the deferred section is left.
unfoldable pub give_up : TreeStore → String → TreeStore
give_up ts k = record ts { loading = insert k leaving ts.loading }

-- The deferred section.
unfoldable pub leave : TreeStore → String → TreeStore
leave ts k = record ts { loading = erase k ts.loading }

-- The loop of `InvalidateTrees` over the trees.
unfoldable pub forget : TreeStore → String → Dict Tree → TreeStore
forget ts host [] = ts
forget ts host ((k, t) ∷ d) =
    let ts' = record ts {
      trees = erase k ts.trees;
      used = erase k ts.used;
      nodes = ts.nodes - t.count;
    } in
    if starts_with k (text_append host "|") then forget ts' host d else forget ts host d

unfoldable pub invalidate_trees : TreeStore → String → TreeStore
unfolding forget
invalidate_trees ts host = forget ts host ts.trees
