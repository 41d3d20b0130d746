-- ===== src/Collector/Browse/Memory.antt =====
-- What is asked of a host once, and then served from memory.
use Prim.Native.String.{◌++◌ as text_append}
use amarre.Base.{
  ◌≡◌, refl, ap, ◌∙◌, false, String, none, some, List, ltb_ℤ, Time, sub_time, Dict, lookup, insert,
  lookup-insert_self, Result, ok,
}
use amarre.Config.{HostConfig, Config}
use amarre.Fleet.Tree.{Node, Tree, Paths, children}
use amarre.Collector.Cache.{Entry}
use amarre.Collector.Cache
use amarre.Collector.Trees.{
  TreeStore, fetching, fetches, demand_absent, served, key, demand, demand_of, keep, leave,
}
use amarre.Collector.Collect.{find_host}
use amarre.Collector.Browse.{
  Value, value, Kind, cache_ttl, cached, from_cache, asserted, Course, after_fetch, follow,
  tree_of_host, browse_known, browse, shown,
}

-- A tree that the store has is served.
demand-served :
    (ts : TreeStore) (k : String) (now : Time) (t : Tree)
    → lookup k ts.trees ≡ some t
    → (demand ts k now).1 ≡ served t
unfolding demand
demand-served ts k now t h = ap (λ o. (demand_of ts k now o).1) h

follow-served :
    (host k : String) (w : Course) (ts : TreeStore) (now : Time) (t : Tree)
    → lookup k ts.trees ≡ some t
    → (follow host k w (demand ts k now)).1 ≡ ok t
unfolding follow demand
follow-served host k w ts now t h = ap (λ o. (follow host k w (demand_of ts k now o)).1) h

-- The store after a fetch has the tree.
fetched-lookup :
    (ts : TreeStore) (k : String) (at : Time) (t : Tree)
    → lookup k (after_fetch ts k at (ok t)).0.trees ≡ some t
unfolding keep leave
fetched-lookup ts k at t = lookup-insert_self k t _

demand-fetches :
    (ts : TreeStore) (k : String) (now : Time)
    → lookup k ts.trees ≡ none
    → lookup k ts.loading ≡ none
    → demand ts k now ≡ (record ts { loading = insert k fetching ts.loading }, fetches)
unfolding demand demand_of demand_absent
demand-fetches ts k now h l = ap (λ o. demand_of ts k now o) h ∙ ap (λ o. demand_absent ts k o) l

tree_of_host-fetched :
    (ts : TreeStore) (host snap : String) (now : Time) (w : Course) (t : Tree)
    → w.answer ≡ ok t
    → lookup (key host snap) ts.trees ≡ none
    → lookup (key host snap) ts.loading ≡ none
    → lookup (key host snap) (tree_of_host ts host snap now w).0.trees ≡ some t
unfolding tree_of_host follow
tree_of_host-fetched ts host snap now w t a h l =
    let k = key host snap in
    let ts' = record ts { loading = insert k fetching ts.loading } in
    ap (λ d. lookup k (follow host k w d).0.trees) (demand-fetches ts k now h l)
    ∙ ap (λ r. lookup k (after_fetch ts' k w.kept_at r).0.trees) a
    ∙ fetched-lookup ts' k w.kept_at t

-- Once the tree of a snapshot is there, every directory of it is listed from memory: whatever the
-- host would answer, and whatever other goroutines do.
browse-served :
    (p : Paths) (c : Config) (ts : TreeStore) (host snap path : String) (now : Time) (w : Course)
    (listing : Result String (List Node)) (h : HostConfig) (t : Tree)
    → find_host c host ≡ some h
    → lookup (key host snap) ts.trees ≡ some t
    → (browse p c ts host snap path now w listing).1 ≡ ok (children p t path)
unfolding browse tree_of_host
browse-served p c ts host snap path now w listing h t known there =
    ap (λ o. (browse_known p ts host snap path now w listing o).1) known
    ∙ ap (λ r. shown p path listing r) (follow-served host (key host snap) w ts now t there)

browse-keeps :
    (p : Paths) (c : Config) (ts : TreeStore) (host snap path : String) (now : Time) (w : Course)
    (listing : Result String (List Node)) (h : HostConfig)
    → find_host c host ≡ some h
    → (browse p c ts host snap path now w listing).0 ≡ (tree_of_host ts host snap now w).0
unfolding browse
browse-keeps p c ts host snap path now w listing h known =
    ap (λ o. (browse_known p ts host snap path now w listing o).0) known

-- When a first view of a snapshot has fetched its tree, the next view of any directory of that
-- snapshot lists it from this tree, whatever the host would answer by then to the request of the
-- tree or of one level.
pub browse-again :
    (p : Paths) (c : Config) (ts : TreeStore) (host snap path path' : String) (now later : Time)
    (w w' : Course) (listing listing' : Result String (List Node)) (h : HostConfig) (t : Tree)
    → find_host c host ≡ some h
    → lookup (key host snap) ts.trees ≡ none
    → lookup (key host snap) ts.loading ≡ none
    → w.answer ≡ ok t
    → (browse p c
        (browse p c ts host snap path now w listing).0
        host
        snap
        path'
        later
        w'
        listing').1
      ≡ ok (children p t path')
browse-again p c ts host snap path path' now later w w' listing listing' h t known absent free
      fetched =
    browse-served p c (browse p c ts host snap path now w listing).0 host snap path' later w'
      listing' h t known
      (ap (λ s. lookup (key host snap) s.trees)
          (browse-keeps p c ts host snap path now w listing h known)
        ∙ tree_of_host-fetched ts host snap now w t fetched absent free)

module _ {V : Type 0} where
  get-put :
      (m : Dict (Entry V)) (k : String) (v : V) (put_at now : Time)
      → ltb_ℤ cache_ttl (sub_time now put_at) ≡ false
      → Cache.get cache_ttl (Cache.put m k v put_at) k now ≡ some v
  unfolding Cache.get Cache.put
  get-put m k v put_at now fresh =
      ap (λ o. Cache.fresh cache_ttl now o) (lookup-insert_self k (v, put_at) m) ∙ rw fresh refl

module _ {A : Type 0} (kind : Kind A) where
  -- An answer of a host that went into the cache is served again for as long as it is fresh,
  -- whatever the host would answer by then; an error is not kept.
  pub cached-again :
      (m : Dict (Entry Value)) (host : String) (now later then' : Time) (a : A)
      (answer : Result String A)
      → kind.unwrap (kind.wrap a) ≡ some a
      → Cache.get cache_ttl m (text_append host kind.suffix) now ≡ none
      → ltb_ℤ cache_ttl (sub_time then' later) ≡ false
      → (cached kind (cached kind m host now later (ok a)).0 host then' then' answer).1 ≡ value a
  unfolding cached
  cached-again m host now later then' a answer law miss fresh =
      let k = text_append host kind.suffix in
      ap (λ o. (cached kind (from_cache kind m k later (ok a) o).0 host then' then' answer).1) miss
      ∙ ap (λ o. (from_cache kind (Cache.put m k (kind.wrap a) later) k then' answer o).1)
          (get-put m k (kind.wrap a) later then' fresh)
      ∙ ap (asserted kind) law
