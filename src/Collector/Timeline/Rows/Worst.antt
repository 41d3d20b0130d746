-- ===== src/Collector/Timeline/Rows/Worst.antt =====
-- The state that each cell of a row ends up with.
use amarre.Base.{
  ℕ, zero, suc, ◌+◌, ◌<◌, ◌≡◌, refl, subst, ◌∙◌, sym, Bool, false, Option, none, some, List, [],
  ◌∷◌, arith, Bool-cases, inl, inr, if◌then◌else◌, ltb, ◌==◌, Time, length,
}
use amarre.Store.History.{HealthPoint}
use amarre.Collector.Timeline.Rows.{
  Format, Cell, rank, blank_cells, slot, measured, measure_at, place, fill,
}

-- The rank of the state that cell `i` shows.
abbrev pub rank_at : ℕ → List Cell → ℕ
rank_at i [] = 0
rank_at zero (c ∷ cs) = rank c.state
rank_at (suc i) (c ∷ cs) = rank_at i cs

abbrev pub worse : ℕ → ℕ → ℕ
worse a b = if ltb a b then b else a

abbrev pub is_in : ℕ → Option ℕ → Bool
is_in i none = false
is_in i (some j) = i == j

-- The rank of the worst measure of interval `i`.
abbrev pub worst_in : Time → ℕ → ℕ → ℕ → List HealthPoint → ℕ
worst_in start bucket buckets i [] = 0
worst_in start bucket buckets i (p ∷ pts) =
    let rest = worst_in start bucket buckets i pts in
    if is_in i (slot start bucket buckets p) then worse (rank p.state) rest else rest

measured-rank :
    (format : Format) (p : HealthPoint) (c : Cell)
    → rank (measured format p c).state ≡ worse (rank c.state) (rank p.state)
measured-rank format p c = elim (Bool-cases (ltb (rank c.state) (rank p.state))) [
  | inl more ↦ rw more refl
  | inr less ↦ rw less refl
]

rank_at-measure_at :
    (format : Format) (p : HealthPoint) (i j : ℕ) (cs : List Cell)
    → i < length cs
    → rank_at i (measure_at format p j cs)
      ≡ (if i == j then worse (rank_at i cs) (rank p.state) else rank_at i cs)
unfolding measure_at
rank_at-measure_at format p i j [] h = absurd (omega (arith, h))
rank_at-measure_at format p zero zero (c ∷ cs) h = measured-rank format p c
rank_at-measure_at format p zero (suc j) (c ∷ cs) h = ground (arith)
rank_at-measure_at format p (suc i) zero (c ∷ cs) h = ground (arith)
rank_at-measure_at format p (suc i) (suc j) (c ∷ cs) h =
    let rec = rank_at-measure_at format p i j cs (omega (arith, h)) in
    elim (Bool-cases (i == j)) [ inl e ↦ ground (arith, rec, e) | inr e ↦ ground (arith, rec, e) ]

length-measure_at :
    (format : Format) (p : HealthPoint) (j : ℕ) (cs : List Cell)
    → length (measure_at format p j cs) ≡ length cs
unfolding measure_at
length-measure_at format p j [] = refl
length-measure_at format p zero (c ∷ cs) = refl
length-measure_at format p (suc j) (c ∷ cs) = omega (arith, length-measure_at format p j cs)

length-place :
    (format : Format) (p : HealthPoint) (o : Option ℕ) (cs : List Cell)
    → length (place format p o cs) ≡ length cs
length-place format p none cs = refl
length-place format p (some j) cs = length-measure_at format p j cs

rank_at-place :
    (format : Format) (p : HealthPoint) (i : ℕ) (o : Option ℕ) (cs : List Cell)
    → i < length cs
    → rank_at i (place format p o cs)
      ≡ (if is_in i o then worse (rank_at i cs) (rank p.state) else rank_at i cs)
rank_at-place format p i none cs h = refl
rank_at-place format p i (some j) cs h = rank_at-measure_at format p i j cs h

worse_assoc : (a b c : ℕ) → worse (worse a b) c ≡ worse a (worse b c)
worse_assoc a b c = ground (arith)

pub rank_at-fill :
    (format : Format) (start : Time) (bucket buckets i : ℕ) (pts : List HealthPoint)
    (cs : List Cell)
    → i < length cs
    → rank_at i (fill format start bucket buckets pts cs)
      ≡ worse (rank_at i cs) (worst_in start bucket buckets i pts)
unfolding fill
rank_at-fill format start bucket buckets i [] cs h = ground (arith)
rank_at-fill format start bucket buckets i (p ∷ pts) cs h =
    let o = slot start bucket buckets p in
    rank_at-fill format start bucket buckets i pts (place format p o cs)
      (subst (λ n. i < n) (sym (length-place format p o cs)) h)
    ∙ (rw (rank_at-place format p i o cs h) (elim (Bool-cases (is_in i o)) [
      | inl e ↦
          rw e (worse_assoc (rank_at i cs) (rank p.state) (worst_in start bucket buckets i pts))
      | inr e ↦ rw e refl
    ]))

pub length-fill :
    (format : Format) (start : Time) (bucket buckets : ℕ) (pts : List HealthPoint) (cs : List Cell)
    → length (fill format start bucket buckets pts cs) ≡ length cs
unfolding fill
length-fill format start bucket buckets [] cs = refl
length-fill format start bucket buckets (p ∷ pts) cs =
    length-fill format start bucket buckets pts _
    ∙ length-place format p (slot start bucket buckets p) cs

pub length-blank_cells :
    (format : Format) (start : Time) (bucket i left : ℕ)
    → length (blank_cells format start bucket i left) ≡ left
unfolding blank_cells
length-blank_cells format start bucket i zero = refl
length-blank_cells format start bucket i (suc left) =
    omega (arith, length-blank_cells format start bucket (i + 1) left)

pub rank_at-blank_cells :
    (format : Format) (start : Time) (bucket i j left : ℕ)
    → rank_at j (blank_cells format start bucket i left) ≡ 0
unfolding blank_cells
rank_at-blank_cells format start bucket i j zero = refl
rank_at-blank_cells format start bucket i zero (suc left) = refl
rank_at-blank_cells format start bucket i (suc j) (suc left) =
    rank_at-blank_cells format start bucket (i + 1) j left
