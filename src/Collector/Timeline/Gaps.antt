-- ===== src/Collector/Timeline/Gaps.antt =====
-- Episodes and the measures of a host that is well.
use amarre.Base.{
  ◌≤◌, ◌≡◌, subst, sym, true, String, Option, none, some, List, [], ◌∷◌, ◌++◌, arith, ◌⊎◌,
  Bool-cases, inl, inr, Time,
}
use amarre.Store.History.{HealthPoint}
use amarre.Collector.Timeline.{
  Episode, is_normal, opened, aggravated, with_cause, turn, walk, episodes,
}
use amarre.Collector.Timeline.Periods.{Rising, with_cause-start}

-- Every episode begins at `m` or after it.
abbrev pub Since : Time → List Episode → Type 0
Since m [] = Unit
Since m (e ∷ es) = (m ≤ e.start) × Since m es

-- Every episode ends by `t`, or begins at `t` or after it.
abbrev pub Apart : Time → List Episode → Type 0
Apart t [] = Unit
Apart t (e ∷ es) = ((e.end ≤ t) ⊎ (t ≤ e.start)) × Apart t es

Since-Apart : (m : Time) (es : List Episode) → Since m es → Apart m es
Since-Apart m [] s = tt
Since-Apart m (e ∷ es) s = (inr s.0, Since-Apart m es s.1)

abbrev BegunSince : Time → Option Episode → Type 0
BegunSince m none = Unit
BegunSince m (some c) = m ≤ c.start

walk-Since :
    (host : String) (now : Time) (k m : Time) (cur : Option Episode) (pts : List HealthPoint)
    → k ≤ m
    → BegunSince k cur
    → Rising now m pts
    → Since k (walk host now cur pts)
unfolding walk turn
walk-Since host now k m none [] l b r = tt
walk-Since host now k m (some c) [] l b r = (b, tt)
walk-Since host now k m none (p ∷ pts) l b r =
    let q = r.0 in
    let k_p : k ≤ p.at = ground (arith, l, q) in
    elim (Bool-cases (is_normal p)) [
      | inl normal ↦ rw normal (walk-Since host now k p.at none pts k_p tt r.1)
      | inr bad ↦ rw bad (walk-Since host now k p.at (some (opened host p)) pts k_p k_p r.1)
    ]
walk-Since host now k m (some c) (p ∷ pts) l b r =
    let q = r.0 in
    let k_p : k ≤ p.at = ground (arith, l, q) in
    elim (Bool-cases (is_normal p)) [
      | inl normal ↦ rw normal (b, walk-Since host now k p.at none pts k_p tt r.1)
      | inr bad ↦ rw bad (
          walk-Since host now k p.at (some (with_cause (aggravated c p) p)) pts k_p
            (subst (λ s. k ≤ s) (sym (with_cause-start c p)) b) r.1)
    ]

Rising-reaches :
    (now m : Time) (earlier later : List HealthPoint) (p : HealthPoint)
    → Rising now m (earlier ++ (p ∷ later))
    → m ≤ p.at
Rising-reaches now m [] later p r = r.0
Rising-reaches now m (q ∷ qs) later p r =
    let l = r.0 in let rest = Rising-reaches now q.at qs later p r.1 in ground (arith, l, rest)

walk-Apart :
    (host : String) (now : Time) (cur : Option Episode) (m : Time) (p : HealthPoint)
    (earlier later : List HealthPoint)
    → Rising now m (earlier ++ (p ∷ later))
    → is_normal p ≡ true
    → Apart p.at (walk host now cur (earlier ++ (p ∷ later)))
unfolding walk turn
walk-Apart host now none m p [] later r h =
    rw h (Since-Apart p.at _ (walk-Since host now p.at p.at none later (omega arith) tt r.1))
walk-Apart host now (some c) m p [] later r h = rw h (
  inl (omega arith),
  Since-Apart p.at _ (walk-Since host now p.at p.at none later (omega arith) tt r.1),
)
walk-Apart host now none m p (q ∷ qs) later r h = elim (Bool-cases (is_normal q)) [
  | inl normal ↦ rw normal (walk-Apart host now none q.at p qs later r.1 h)
  | inr bad ↦ rw bad (walk-Apart host now (some (opened host q)) q.at p qs later r.1 h)
]
walk-Apart host now (some c) m p (q ∷ qs) later r h = elim (Bool-cases (is_normal q)) [
  | inl normal ↦
      rw normal (
        inl (Rising-reaches now q.at qs later p r.1),
        walk-Apart host now none q.at p qs later r.1 h,
      )
  | inr bad ↦
      rw bad (walk-Apart host now (some (with_cause (aggravated c q) q)) q.at p qs later r.1 h)
]

-- Where the measures follow each other in time up to the present, no episode goes on over a
-- measure that is normal or unknown: it ends by that measure, or begins at its time or later.
pub episodes-Apart :
    (host : String) (now : Time) (p : HealthPoint) (earlier later : List HealthPoint)
    → Rising now 0 (earlier ++ (p ∷ later))
    → is_normal p ≡ true
    → Apart p.at (episodes host now (earlier ++ (p ∷ later)))
unfolding episodes
episodes-Apart host now p earlier later r h = walk-Apart host now none 0 p earlier later r h
