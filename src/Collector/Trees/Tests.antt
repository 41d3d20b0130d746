-- ===== src/Collector/Trees/Tests.antt =====
-- Concrete stores of trees, the map of backoffs and the cache.
use amarre.Base.{ℕ, ◌*◌, ◌≡◌, refl, [], ◌∷◌, arith, str_eq_iff, minute, hour, Dict}
use amarre.Fleet.Tree.{Tree}
use amarre.Collector.Trees.{TreeStore, new_tree_store, evict_locked, demand, keep, fetching}
use amarre.Collector.Trees.Evict.{IsTidy, Fits, evict_locked-Fits}
use amarre.Collector.Trees.Steps.{
  Reachable, starts, goes_on, asks, keeps, IsSound, Reachable-IsSound,
}
use amarre.Collector.Backoff.{Backoff}
use amarre.Collector.Backoff.Waits.{wait}
use amarre.Collector.Cache.{Entry}

abbrev big : Tree
big = record { snapshot = "a1"; built = 0; dirs = []; count = 500000 }

abbrev one_tree : TreeStore
one_tree = record {
  trees = ("web|a1", big) ∷ [];
  used = ("web|a1", 7) ∷ [];
  loading = [];
  nodes = 500000;
}

one_tree-IsTidy : IsTidy one_tree
one_tree-IsTidy = record {
  same = (refl, (λ e. ground (arith, str_eq_iff "web|a1" "")), tt);
  is_map = (refl, tt);
  sum = refl;
}

evict_locked-Fits_example : Fits (evict_locked one_tree 400000) 400000
evict_locked-Fits_example = evict_locked-Fits one_tree 400000 one_tree-IsTidy

abbrev asked : TreeStore
asked = record new_tree_store { loading = ("web|a1", fetching) ∷ [] }

asked-Reachable : Reachable asked
unfolding demand
asked-Reachable =
    goes_on starts (asks new_tree_store "web|a1" 7 (λ e. ground (arith, str_eq_iff "web|a1" "")))

Reachable-IsSound_example : IsSound (keep asked "web|a1" big 8)
Reachable-IsSound_example = Reachable-IsSound (keep asked "web|a1" big 8) (
    goes_on asked-Reachable
      (keeps asked "web|a1" big 8 (λ e. ground (arith, str_eq_iff "web|a1" "")) refl))

-- Two hours, at the third failure.
third_wait : wait (15 * minute) 3 ≡ 2 * hour
third_wait = refl

abbrev failing : Dict Backoff
failing = ("web", record { fails = 1; next_try = 9 * hour }) ∷ []

abbrev kept : Dict (Entry ℕ)
kept = ("web|stats", (3, hour)) ∷ ("web2|stats", (4, hour)) ∷ []
