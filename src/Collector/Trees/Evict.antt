-- ===== src/Collector/Trees/Evict.antt =====
-- What `evictLocked` removes: the entry that was used least recently, as long as room is missing.
use amarre.Base.{
  ℕ, zero, suc, ◌+◌, ◌≤◌, ◌≡◌, ◌≢◌, refl, sym, subst, ◌⊎◌, inl, inr, Bool, true, false, not, ◌&&◌,
  String, none, some, [], ◌∷◌, arith, ltb, str_eq, str_eq_iff, Bool-cases, Time, length, Dict,
  lookup, erase, IsMap, erase-IsMap,
}
use amarre.Fleet.Tree.{Tree}
use amarre.Collector.Trees.{
  TreeStore, max_nodes, oldest_from, evict_oldest, is_empty, evict, evict_locked,
}
use amarre.Collector.Trees.Keys.{total, SameKeys, total-erase, erase-SameKeys}

-- The sum of the nodes is the one that is kept, and the two maps agree.
pub record IsTidy (ts : TreeStore) : Type 0 where
  pub same : SameKeys ts.trees ts.used
  pub is_map : IsMap ts.trees
  pub sum : ts.nodes ≡ total ts.trees

-- Every use is at `t` or later.
abbrev pub AllFrom : Time → Dict Time → Type 0
AllFrom t [] = Unit {0}
AllFrom t ((k, at) ∷ u) = (t ≤ at) × AllFrom t u

-- No key is empty.
abbrev pub Named : Dict Time → Type 0
Named [] = Unit {0}
Named ((k, at) ∷ u) = (k ≢ "") × Named u

SameKeys-Named : (d : Dict Tree) (u : Dict Time) → SameKeys d u → Named u
SameKeys-Named [] [] h = tt
SameKeys-Named [] (y ∷ u) h = absurd h
SameKeys-Named (x ∷ d) [] h = absurd h
SameKeys-Named ((j, t) ∷ d) ((k, at) ∷ u) h = (subst (λ i. i ≢ "") h.0 h.1, SameKeys-Named d u h.2)

lookup-SameKeys :
    (k : String) (d : Dict Tree) (u : Dict Time)
    → SameKeys d u
    → lookup k d ≡ none
    → lookup k u ≡ none
lookup-SameKeys k [] [] h e = refl
lookup-SameKeys k [] (y ∷ u) h e = absurd h
lookup-SameKeys k (x ∷ d) [] h e = absurd h
lookup-SameKeys k ((j, t) ∷ d) ((i, at) ∷ u) h e =
    ground (arith, str_eq_iff k j, str_eq_iff k i, lookup-SameKeys k d u)

SameKeys-IsMap : (d : Dict Tree) (u : Dict Time) → SameKeys d u → IsMap d → IsMap u
SameKeys-IsMap [] [] h m = tt
SameKeys-IsMap [] (y ∷ u) h m = absurd h
SameKeys-IsMap (x ∷ d) [] h m = absurd h
SameKeys-IsMap ((j, t) ∷ d) ((k, at) ∷ u) h m =
    (lookup-SameKeys k d u h.2 (subst (λ i. lookup i d ≡ none) h.0 m.0), SameKeys-IsMap d u h.2 m.1)

length-erase : (k : String) (d : Dict Tree) → lookup k d ≢ none → length (erase k d) + 1 ≡ length d
length-erase k [] h = absurd (h refl)
length-erase k ((j, t) ∷ d) h = ground (arith, length-erase k d)

-- The key that the loop ends with stands in the map with a time `t`, and no time is before `t`.
abbrev pub Least : String → Time → Dict Time → Type 0
Least k t u = (lookup k u ≡ some t) × AllFrom t u

AllFrom-le : (s t : Time) (u : Dict Time) → s ≤ t → AllFrom t u → AllFrom s u
AllFrom-le s t [] h a = tt
AllFrom-le s t ((k, at) ∷ u) h a = (omega (arith, a.0), AllFrom-le s t u h a.1)

-- An older entry before the others, or a younger one behind the first, changes nothing.
Least-before :
    (r o : String) (t at : Time) (u : Dict Time)
    → lookup o u ≡ none
    → t ≤ at
    → Least r t u
    → Least r t ((o, at) ∷ u)
Least-before r o t at u fresh le (found, least) = elim (Bool-cases (str_eq r o)) [
  | inr other ↦ (rw other found, (le, least))
  | inl same ↦
      let e : lookup r u ≡ none =
        subst (λ k. lookup k u ≡ none) (sym ((str_eq_iff r o).0 same)) fresh in
      absurd (cc (e, found))
]

Least-behind :
    (r o k : String) (t at w : Time) (u : Dict Time)
    → lookup k ((o, at) ∷ u) ≡ none
    → t ≤ w
    → Least r t ((o, at) ∷ u)
    → Least r t ((o, at) ∷ (k, w) ∷ u)
Least-behind r o k t at w u fresh le (found, (l, least)) =
    (passes (str_eq r k) refl, (l, (le, least)))
  where
    passes : (b : Bool) → str_eq r k ≡ b → lookup r ((o, at) ∷ (k, w) ∷ u) ≡ some t
    passes false other = rw other found
    passes true same =
        let e : lookup r ((o, at) ∷ u) ≡ none =
          subst (λ i. lookup i ((o, at) ∷ u) ≡ none) (sym ((str_eq_iff r k).0 same)) fresh in
        absurd (cc (e, found))

oldest_from-Least :
    (o : String) (at : Time) (u : Dict Time)
    → o ≢ ""
    → Named u
    → IsMap ((o, at) ∷ u)
    → (t : Time) × Least (oldest_from o at u) t ((o, at) ∷ u)
unfolding oldest_from
oldest_from-Least o at [] ne n m = (at, ground (arith, str_eq_iff o o))
oldest_from-Least o at ((k, w) ∷ u) ne n m = elim (Bool-cases (ltb w at)) [
  | inl sooner ↦
      let (t, l) = oldest_from-Least k w u n.0 n.1 m.1 in
      let step : oldest_from o at ((k, w) ∷ u) ≡ oldest_from k w u = rw (named, sooner) refl in
      (
        t,
        subst (λ r. Least r t ((o, at) ∷ (k, w) ∷ u)) (sym step)
            (Least-before (oldest_from k w u) o t at ((k, w) ∷ u) m.0
              (ground (arith, l.1.0, sooner)) l),
      )
  | inr later ↦
      let (t, l) = oldest_from-Least o at u ne n.1 (ground arith, m.1.1) in
      let step : oldest_from o at ((k, w) ∷ u) ≡ oldest_from o at u = rw (named, later) refl in
      (
        t,
        subst (λ r. Least r t ((o, at) ∷ (k, w) ∷ u)) (sym step)
            (Least-behind (oldest_from o at u) o k t at w u
              (ground (arith, str_eq_iff k o, str_eq_iff o k)) (ground (arith, l.1.0, later)) l),
      )
]
  where
    named : str_eq o "" ≡ false
    named = ground (arith, str_eq_iff o "")

-- The key that is removed is the one of the tree that was used least recently: it stands in the
-- map of uses, and no use is earlier than its own.
oldest-Least :
    (u : Dict Time) → u ≢ [] → Named u → IsMap u → (t : Time) × Least (oldest_from "" 0 u) t u
unfolding oldest_from
oldest-Least [] ne n m = absurd (ne refl)
oldest-Least ((k, at) ∷ u) ne n m = oldest_from-Least k at u n.0 n.1 m

lookup-trees :
    (k : String) (d : Dict Tree) (u : Dict Time) (t : Time)
    → SameKeys d u
    → lookup k u ≡ some t
    → lookup k d ≢ none
lookup-trees k d u t h found e = cc (found, lookup-SameKeys k d u h e)

used-nonempty : (d : Dict Tree) (u : Dict Time) → SameKeys d u → d ≢ [] → u ≢ []
used-nonempty [] u h ne e = ne refl
used-nonempty (x ∷ d) [] h ne e = h
used-nonempty (x ∷ d) (y ∷ u) h ne e = cc e

-- From a store whose maps agree and that holds a tree, one turn of the loop removes, from both
-- maps, the tree that was used least recently, and the sum of the nodes stays that of the trees.
pub evict_oldest-lru :
    (ts : TreeStore)
    → IsTidy ts
    → ts.trees ≢ []
    → (k : String) × (t : Time) × Least k t ts.used
      × (length (evict_oldest ts).trees + 1 ≡ length ts.trees)
      × ((evict_oldest ts).trees ≡ erase k ts.trees)
      × ((evict_oldest ts).used ≡ erase k ts.used)
      × ((evict_oldest ts).nodes ≡ total (erase k ts.trees))
unfolding evict_oldest
evict_oldest-lru ts tidy ne =
    let named = SameKeys-Named ts.trees ts.used tidy.same in
    let m = SameKeys-IsMap ts.trees ts.used tidy.same tidy.is_map in
    let (t, l) = oldest-Least ts.used (used-nonempty ts.trees ts.used tidy.same ne) named m in
    let k = oldest_from "" 0 ts.used in
    (
      k,
      t,
      l,
      length-erase k ts.trees (lookup-trees k ts.trees ts.used t tidy.same l.0),
      refl,
      refl,
      omega (arith, tidy.sum, total-erase k ts.trees),
    )

evict_oldest-IsTidy : (ts : TreeStore) → IsTidy ts → IsTidy (evict_oldest ts)
unfolding evict_oldest
evict_oldest-IsTidy ts tidy =
    let k = oldest_from "" 0 ts.used in
    record {
      same = erase-SameKeys k ts.trees ts.used tidy.same;
      is_map = erase-IsMap k ts.trees tidy.is_map;
      sum = omega (arith, tidy.sum, total-erase k ts.trees);
    }

pub evict-IsTidy :
    (fuel : ℕ) (ts : TreeStore) (incoming : ℕ) → IsTidy ts → IsTidy (evict fuel ts incoming)
unfolding evict
evict-IsTidy zero ts incoming tidy = tidy
evict-IsTidy (suc fuel) ts incoming tidy =
    elim (Bool-cases (ltb max_nodes (ts.nodes + incoming) && not (is_empty ts.trees))) [
      | inl over ↦
          rw over (evict-IsTidy fuel (evict_oldest ts) incoming (evict_oldest-IsTidy ts tidy))
      | inr room ↦ rw room tidy
    ]

-- Room for a tree of that size, or nothing left to remove.
abbrev pub Fits : TreeStore → ℕ → Type 0
Fits ts incoming = (ts.nodes + incoming ≤ max_nodes) ⊎ (ts.trees ≡ [])

no_trees : (d : Dict Tree) → length d ≤ 0 → d ≡ []
no_trees [] h = refl
no_trees (x ∷ d) h = absurd (omega arith)

is_empty-nil : (d : Dict Tree) → is_empty d ≡ true → d ≡ []
is_empty-nil [] h = refl
is_empty-nil (x ∷ d) h = absurd (cc h)

not_empty : (d : Dict Tree) → is_empty d ≡ false → d ≢ []
not_empty [] h e = cc h
not_empty (x ∷ d) h e = cc e

pub erase-none : (k j : String) (d : Dict Tree) → lookup k d ≡ none → lookup k (erase j d) ≡ none
erase-none k j [] h = refl
erase-none k j ((i, t) ∷ d) h = ground (arith, erase-none k j d)

evict-Fits :
    (fuel : ℕ) (ts : TreeStore) (incoming : ℕ)
    → IsTidy ts
    → length ts.trees ≤ fuel
    → Fits (evict fuel ts incoming) incoming
unfolding evict
evict-Fits zero ts incoming tidy h = inr (no_trees ts.trees h)
evict-Fits (suc fuel) ts incoming tidy h = elim (Bool-cases (ltb max_nodes (ts.nodes + incoming))) [
  | inr room ↦ rw room (inl (ground (arith, room)))
  | inl over ↦ elim (Bool-cases (is_empty ts.trees)) [
    | inl bare ↦ rw (over, bare) (inr (is_empty-nil ts.trees bare))
    | inr more ↦
        let turn = evict_oldest-lru ts tidy (λ e. not_empty ts.trees more e) in
        rw (over, more)
          (evict-Fits fuel (evict_oldest ts) incoming (evict_oldest-IsTidy ts tidy)
            (omega (arith, turn.3)))
  ]
]

-- The loop of the eviction ends, after at most as many turns as there are trees, with room for
-- the tree that comes in or with no tree left.
pub evict_locked-Fits :
    (ts : TreeStore) (incoming : ℕ) → IsTidy ts → Fits (evict_locked ts incoming) incoming
unfolding evict_locked
evict_locked-Fits ts incoming tidy = evict-Fits (length ts.trees) ts incoming tidy (omega arith)

-- A key that is not in the store is not in it after the eviction, and no goroutine is concerned.
pub evict-lookup :
    (fuel : ℕ) (ts : TreeStore) (incoming : ℕ) (k : String)
    → lookup k ts.trees ≡ none
    → lookup k (evict fuel ts incoming).trees ≡ none
unfolding evict evict_oldest
evict-lookup zero ts incoming k h = h
evict-lookup (suc fuel) ts incoming k h =
    elim (Bool-cases (ltb max_nodes (ts.nodes + incoming) && not (is_empty ts.trees))) [
      | inl over ↦ rw over (
          evict-lookup fuel (evict_oldest ts) incoming k
            (erase-none k (oldest_from "" 0 ts.used) ts.trees h))
      | inr room ↦ rw room h
    ]

pub evict-loading :
    (fuel : ℕ) (ts : TreeStore) (incoming : ℕ) → (evict fuel ts incoming).loading ≡ ts.loading
unfolding evict evict_oldest
evict-loading zero ts incoming = refl
evict-loading (suc fuel) ts incoming =
    elim (Bool-cases (ltb max_nodes (ts.nodes + incoming) && not (is_empty ts.trees))) [
      | inl over ↦ rw over (evict-loading fuel (evict_oldest ts) incoming)
      | inr room ↦ rw room refl
    ]
