-- ===== src/Collector/Timeline/Rows/Gravest.antt =====
-- The state of a cell in terms of the measures that lie in its interval.
use native.Mathlib.Nat.{div-mul-le_self, div-lt_iff_lt-mul, div-eq_of_lt-le}
use amarre.Base.{
  ℕ, zero, suc, ◌+◌, ◌-◌, ◌*◌, ◌/◌, ◌≤◌, ◌<◌, ◌≡◌, refl, sym, subst, ap, ◌∙◌, Bool, true, false,
  ◌&&◌, ◌||◌, String, Option, none, some, List, [], ◌∷◌, arith, Bool-cases, inl, inr, if◌then◌else◌,
  ltb, leb, ◌==◌, str_eq, str_eq_iff, Time, max_duration, length, All,
}
use amarre.Store.History.{HealthPoint}
use amarre.Collector.Timeline.Rows.{
  Format, Cell, rank, blank_cells, slot, slot_within, measured, measure_at, place, fill,
}
use amarre.Collector.Timeline.Rows.Worst.{rank_at, worse, is_in, worst_in}

-- The measure lies in interval `i`: not before its start, and before that of the next one.
abbrev pub is_during : Time → ℕ → ℕ → HealthPoint → Bool
is_during start bucket i p = leb (start + i * bucket) p.at && ltb p.at (start + (i + 1) * bucket)

-- Some measure of interval `i` has that state.
abbrev pub was : String → Time → ℕ → ℕ → List HealthPoint → Bool
was s start bucket i [] = false
was s start bucket i (p ∷ pts) =
    (is_during start bucket i p && str_eq p.state s) || was s start bucket i pts

-- Critical before to watch, to watch before well, and else nothing is known.
abbrev pub gravest : Bool → Bool → Bool → String
gravest crit warn ok =
    if crit then "crit" else if warn then "warn" else if ok then "ok" else "unknown"

abbrev grade : Bool → Bool → Bool → ℕ
grade crit warn ok = if crit then 3 else if warn then 2 else if ok then 1 else 0

within_iff :
    (a d b : ℕ) (t : Bool)
    → ((t ≡ true) → (a ≤ d) × (d < b))
    → (a ≤ d → d < b → t ≡ true)
    → t ≡ (leb a d && ltb d b)
within_iff a d b true h k = let (low, high) = h refl in ground arith
within_iff a d b false h k = elim (Bool-cases (leb a d && ltb d b)) [
  | inr out ↦ sym out
  | inl in_ ↦ cc (k (ground (arith, in_)) (ground (arith, in_)))
]

div_iff :
    (d bucket i : ℕ)
    → 1 ≤ bucket
    → (i == d / bucket) ≡ (leb (i * bucket) d && ltb d ((i + 1) * bucket))
div_iff d bucket i h = within_iff (i * bucket) d ((i + 1) * bucket) (i == d / bucket) there back
  where
    there : (i == d / bucket) ≡ true → (i * bucket ≤ d) × (d < (i + 1) * bucket)
    there same =
        let e : d / bucket ≡ i = ground (arith, same) in
        (
          subst (λ q. q * bucket ≤ d) e (div-mul-le_self d bucket),
          (div-lt_iff_lt-mul h).0 (omega (arith, e)),
        )

    back : i * bucket ≤ d → d < (i + 1) * bucket → (i == d / bucket) ≡ true
    back low high =
        let e : d / bucket ≡ i = div-eq_of_lt-le {k = i} bucket low high in ground (arith, e)

is_in-slot_within : (i buckets q : ℕ) → i < buckets → is_in i (slot_within buckets q) ≡ (i == q)
is_in-slot_within i buckets q h = ground arith

-- With an interval that ends within the longest `Duration`, a measure that is not before the start
-- of the window falls into it when it lies in it.
slot-is_during :
    (start bucket buckets i : ℕ) (p : HealthPoint)
    → 1 ≤ bucket
    → i < buckets
    → (i + 1) * bucket ≤ max_duration
    → start ≤ p.at
    → is_in i (slot start bucket buckets p) ≡ is_during start bucket i p
slot-is_during start bucket buckets i p pos h fits le =
    elim (Bool-cases (ltb (max_duration + start) p.at)) [
      | inl far ↦ rw far (
          is_in-slot_within i buckets (max_duration / bucket) h
          ∙ div_iff max_duration bucket i pos
          ∙ beyond (i * bucket) ((i + 1) * bucket) p.at far fits)
      | inr near ↦
          let after : ltb (p.at + max_duration + 1) start ≡ false = ground (arith, le) in
          let from : leb start p.at ≡ true = ground (arith, le) in
          rw (near, after, from)
            (is_in-slot_within i buckets ((p.at - start) / bucket) h
              ∙ div_iff (p.at - start) bucket i pos
              ∙ shifted (i * bucket) ((i + 1) * bucket) p.at le)
    ]
  where
    beyond :
        (a b t : ℕ)
        → ltb (max_duration + start) t ≡ true
        → b ≤ max_duration
        → (leb a max_duration && ltb max_duration b) ≡ (leb (start + a) t && ltb t (start + b))
    beyond a b t far fits = ground (arith, far, fits)

    shifted :
        (a b t : ℕ)
        → start ≤ t
        → (leb a (t - start) && ltb (t - start) b) ≡ (leb (start + a) t && ltb t (start + b))
    shifted a b t le = ground (arith, le)

apart : (s t u : String) → str_eq t u ≡ false → str_eq s t ≡ true → str_eq s u ≡ false
apart s t u h e = let same : s ≡ t = (str_eq_iff s t).0 e in rw same h

grades :
    (ok warn crit c w o : Bool)
    → (ok ≡ true → warn ≡ false)
    → (ok ≡ true → crit ≡ false)
    → (warn ≡ true → crit ≡ false)
    → worse (if ok then 1 else if warn then 2 else if crit then 3 else 0) (grade c w o)
      ≡ grade (crit || c) (warn || w) (ok || o)
grades true warn crit c w o h k l = let a = h refl in let b = k refl in ground (arith, a, b)
grades false true crit c w o h k l = let a = l refl in ground (arith, a)
grades false false true c w o h k l = ground arith
grades false false false c w o h k l = ground arith

worse-grade :
    (s : String) (c w o : Bool)
    → worse (rank s) (grade c w o)
      ≡ grade (str_eq s "crit" || c) (str_eq s "warn" || w) (str_eq s "ok" || o)
worse-grade s c w o =
    grades (str_eq s "ok") (str_eq s "warn") (str_eq s "crit") c w o (apart s "ok" "warn" refl)
      (apart s "ok" "crit" refl) (apart s "warn" "crit" refl)

abbrev pub NotBefore : Time → HealthPoint → Type 0
NotBefore start p = start ≤ p.at

abbrev pub unrank : ℕ → String
unrank n = gravest (n == 3) (n == 2) (n == 1)

unrank-grade : (c w o : Bool) → unrank (grade c w o) ≡ gravest c w o
unrank-grade true w o = refl
unrank-grade false true o = refl
unrank-grade false false true = refl
unrank-grade false false false = refl

unrank-rank : (s : String) → 1 ≤ rank s → unrank (rank s) ≡ s
unrank-rank s h = elim (Bool-cases (str_eq s "ok")) [
  | inl e ↦ let same : s ≡ "ok" = (str_eq_iff s "ok").0 e in rw same
  | inr n ↦ elim (Bool-cases (str_eq s "warn")) [
    | inl e ↦ let same : s ≡ "warn" = (str_eq_iff s "warn").0 e in rw same
    | inr m ↦ elim (Bool-cases (str_eq s "crit")) [
      | inl e ↦ let same : s ≡ "crit" = (str_eq_iff s "crit").0 e in rw same
      | inr l ↦ absurd (ground (arith, n, m, l))
    ]
  ]
]

module _ (start bucket buckets i : ℕ) where
  -- One measure more.
  counted_in :
      (d : Bool) (s : String) (c w o : Bool)
      → (if d then worse (rank s) (grade c w o) else grade c w o)
        ≡ grade
            ((d && str_eq s "crit") || c)
            ((d && str_eq s "warn") || w)
            ((d && str_eq s "ok") || o)
  counted_in true s c w o = worse-grade s c w o
  counted_in false s c w o = refl

  worst_in-grade :
      (pts : List HealthPoint)
      → 1 ≤ bucket
      → i < buckets
      → (i + 1) * bucket ≤ max_duration
      → All (NotBefore start) pts
      → worst_in start bucket buckets i pts
        ≡ grade
            (was "crit" start bucket i pts)
            (was "warn" start bucket i pts)
            (was "ok" start bucket i pts)
  worst_in-grade [] pos h fits all = refl
  worst_in-grade (p ∷ pts) pos h fits (le, all) =
      rw (slot-is_during start bucket buckets i p pos h fits le, worst_in-grade pts pos h fits all)
        (counted_in (is_during start bucket i p) p.state (was "crit" start bucket i pts)
          (was "warn" start bucket i pts) (was "ok" start bucket i pts))

-- A cell whose state is one of the four.
abbrev pub IsKnown : Cell → Type 0
IsKnown c = unrank (rank c.state) ≡ c.state

measured-IsKnown :
    (format : Format) (p : HealthPoint) (c : Cell) → IsKnown c → IsKnown (measured format p c)
measured-IsKnown format p c h = elim (Bool-cases (ltb (rank c.state) (rank p.state))) [
  | inl more ↦ rw more (unrank-rank p.state (ground (arith, more)))
  | inr less ↦ rw less h
]

measure_at-IsKnown :
    (format : Format) (p : HealthPoint) (j : ℕ) (cs : List Cell)
    → All IsKnown cs
    → All IsKnown (measure_at format p j cs)
unfolding measure_at
measure_at-IsKnown format p j [] all = tt
measure_at-IsKnown format p zero (c ∷ cs) (h, all) = (measured-IsKnown format p c h, all)
measure_at-IsKnown format p (suc j) (c ∷ cs) (h, all) = (h, measure_at-IsKnown format p j cs all)

place-IsKnown :
    (format : Format) (p : HealthPoint) (o : Option ℕ) (cs : List Cell)
    → All IsKnown cs
    → All IsKnown (place format p o cs)
place-IsKnown format p none cs all = all
place-IsKnown format p (some j) cs all = measure_at-IsKnown format p j cs all

pub fill-IsKnown :
    (format : Format) (start : Time) (bucket buckets : ℕ) (pts : List HealthPoint) (cs : List Cell)
    → All IsKnown cs
    → All IsKnown (fill format start bucket buckets pts cs)
unfolding fill
fill-IsKnown format start bucket buckets [] cs all = all
fill-IsKnown format start bucket buckets (p ∷ pts) cs all =
    fill-IsKnown format start bucket buckets pts _
      (place-IsKnown format p (slot start bucket buckets p) cs all)

pub blank_cells-IsKnown :
    (format : Format) (start : Time) (bucket i left : ℕ)
    → All IsKnown (blank_cells format start bucket i left)
unfolding blank_cells
blank_cells-IsKnown format start bucket i zero = tt
blank_cells-IsKnown format start bucket i (suc left) =
    (refl, blank_cells-IsKnown format start bucket (i + 1) left)

-- The state that cell `i` shows.
abbrev pub state_at : ℕ → List Cell → Option String
state_at i [] = none
state_at zero (c ∷ cs) = some c.state
state_at (suc i) (c ∷ cs) = state_at i cs

state_at-IsKnown :
    (i : ℕ) (cs : List Cell)
    → i < length cs
    → All IsKnown cs
    → state_at i cs ≡ some (unrank (rank_at i cs))
state_at-IsKnown i [] h all = absurd (omega (arith, h))
state_at-IsKnown zero (c ∷ cs) h (k, all) = ap (λ s. some s) (sym k)
state_at-IsKnown (suc i) (c ∷ cs) h (k, all) = state_at-IsKnown i cs (omega (arith, h)) all

-- A known cell with the rank of the worst measure has its state.
pub state_at-gravest :
    (start bucket buckets i : ℕ) (pts : List HealthPoint) (cs : List Cell)
    → 1 ≤ bucket
    → i < buckets
    → (i + 1) * bucket ≤ max_duration
    → All (NotBefore start) pts
    → i < length cs
    → All IsKnown cs
    → rank_at i cs ≡ worst_in start bucket buckets i pts
    → state_at i cs
      ≡ some (
          gravest
            (was "crit" start bucket i pts)
            (was "warn" start bucket i pts)
            (was "ok" start bucket i pts))
state_at-gravest start bucket buckets i pts cs pos h fits all k known e =
    state_at-IsKnown i cs k known
    ∙ ap (λ n. some (unrank n)) (e ∙ worst_in-grade start bucket buckets i pts pos h fits all)
    ∙ ap (λ s. some s)
        (unrank-grade (was "crit" start bucket i pts) (was "warn" start bucket i pts)
          (was "ok" start bucket i pts))
