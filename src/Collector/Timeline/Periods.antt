-- ===== src/Collector/Timeline/Periods.antt =====
-- What the episodes say of the measures.
use amarre.Base.{
  ◌≤◌, ◌≡◌, refl, subst, sym, Bool, true, false, String, Option, none, some, List, [], ◌∷◌, ◌++◌,
  arith, Bool-cases, inl, inr, str_eq, Time,
}
use amarre.Store.History.{HealthPoint}
use amarre.Collector.Timeline.{
  Episode, is_normal, opened, aggravated, with_cause, turn, walk, episodes,
}

abbrev pub is_crit : String → Bool
is_crit s = str_eq s "crit"

-- The measures follow each other in time, from `m` on and up to `now`.
abbrev pub Rising : Time → Time → List HealthPoint → Type 0
Rising now m [] = m ≤ now
Rising now m (p ∷ pts) = (m ≤ p.at) × Rising now p.at pts

-- An episode of the list lasts over `t`, and is critical where `severe` asks for it.
pub data Shown (t : Time) (severe : Bool) : List Episode → Type 0 where
  here :
      {e : Episode} {es : List Episode}
      → e.start ≤ t
      → t ≤ e.end
      → (severe ≡ true → is_crit e.state ≡ true)
      → Shown t severe (e ∷ es)
  there : {e : Episode} {es : List Episode} → Shown t severe es → Shown t severe (e ∷ es)

Rising-le : (now m : Time) (pts : List HealthPoint) → Rising now m pts → m ≤ now
Rising-le now m [] r = r
Rising-le now m (p ∷ pts) r = let l = Rising-le now p.at pts r.1 in ground (arith, l, r.0)

pub with_cause-start :
    (c : Episode) (p : HealthPoint) → (with_cause (aggravated c p) p).start ≡ c.start
with_cause-start c p = ground (arith)

with_cause-crit :
    (c : Episode) (p : HealthPoint)
    → is_crit c.state ≡ true
    → is_crit (with_cause (aggravated c p) p).state ≡ true
with_cause-crit c p h = ground (arith, h)

with_cause-state : (c : Episode) (p : HealthPoint) → (with_cause c p).state ≡ c.state
with_cause-state c p = ground (arith)

with_cause-worse :
    (c : Episode) (p : HealthPoint)
    → is_crit p.state ≡ true
    → is_crit (with_cause (aggravated c p) p).state ≡ true
with_cause-worse c p h = elim (Bool-cases (str_eq c.state "crit")) [
  | inl crit ↦ with_cause-crit c p crit
  | inr less ↦ rw (with_cause-state (aggravated c p) p, h, less) refl
]

-- The episode that is open when the walk begins shows every time between its start and the first
-- measure of the walk.
walk-open :
    (host : String) (now : Time) (c : Episode) (t m : Time) (severe : Bool) (pts : List HealthPoint)
    → c.start ≤ t
    → t ≤ m
    → (severe ≡ true → is_crit c.state ≡ true)
    → Rising now m pts
    → Shown t severe (walk host now (some c) pts)
unfolding walk turn
walk-open host now c t m severe [] lo hi worse r = here lo (omega arith) worse
walk-open host now c t m severe (p ∷ pts) lo hi worse r = elim (Bool-cases (is_normal p)) [
  | inl normal ↦ rw normal (here lo (ground (arith, hi, r.0)) worse)
  | inr not_normal ↦
      let d = with_cause (aggravated c p) p in
      let q = r.0 in
      rw not_normal (
        walk-open host now d t p.at severe pts (subst (λ s. s ≤ t) (sym (with_cause-start c p)) lo)
          (ground (arith, hi, q)) (λ s. with_cause-crit c p (worse s)) r.1)
]

-- The open episode, where there is one, began by `m`.
abbrev Begun : Option Episode → Time → Type 0
Begun none m = Unit
Begun (some c) m = c.start ≤ m

walk-Shown :
    (host : String) (now : Time) (cur : Option Episode) (m : Time) (p : HealthPoint)
    (earlier later : List HealthPoint)
    → Begun cur m
    → Rising now m (earlier ++ (p ∷ later))
    → is_normal p ≡ false
    → Shown p.at (is_crit p.state) (walk host now cur (earlier ++ (p ∷ later)))
unfolding walk turn
walk-Shown host now none m p [] later b r h = rw h (
    walk-open host now (opened host p) p.at p.at (is_crit p.state) later (omega arith) (omega arith)
      (λ s. s) r.1)
walk-Shown host now (some c) m p [] later b r h =
    let q = r.0 in
    rw h (
      walk-open host now (with_cause (aggravated c p) p) p.at p.at (is_crit p.state) later
        (subst (λ s. s ≤ p.at) (sym (with_cause-start c p)) (ground (arith, b, q))) (omega arith)
        (λ s. with_cause-worse c p s) r.1)
walk-Shown host now none m p (q ∷ qs) later b r h = elim (Bool-cases (is_normal q)) [
  | inl normal ↦ rw normal (walk-Shown host now none q.at p qs later tt r.1 h)
  | inr bad ↦
      rw bad (walk-Shown host now (some (opened host q)) q.at p qs later (omega arith) r.1 h)
]
walk-Shown host now (some c) m p (q ∷ qs) later b r h = elim (Bool-cases (is_normal q)) [
  | inl normal ↦ rw normal (there (walk-Shown host now none q.at p qs later tt r.1 h))
  | inr bad ↦
      let l = r.0 in
      rw bad (
        walk-Shown host now (some (with_cause (aggravated c q) q)) q.at p qs later
          (subst (λ s. s ≤ q.at) (sym (with_cause-start c q)) (ground (arith, b, l))) r.1 h)
]

-- Where the measures follow each other in time up to the present, each measure that is neither
-- normal nor unknown lies within an episode of the list, its two ends included, and a critical
-- measure lies within one that is shown as critical.
pub episodes-Shown :
    (host : String) (now : Time) (p : HealthPoint) (earlier later : List HealthPoint)
    → Rising now 0 (earlier ++ (p ∷ later))
    → is_normal p ≡ false
    → Shown p.at (is_crit p.state) (episodes host now (earlier ++ (p ∷ later)))
unfolding episodes
episodes-Shown host now p earlier later r h = walk-Shown host now none 0 p earlier later tt r h
