-- ===== src/Collector/Timeline/Rows/Counts.antt =====
-- What a row shows of the measures of its host, and what it counts.
use amarre.Base.{
  ℕ, ◌+◌, ◌-◌, ◌*◌, ◌/◌, ◌<◌, ◌≡◌, refl, subst, ap, ◌∙◌, sym, Bool, true, false, some, String, List,
  [], ◌∷◌, arith, Bool-cases, inl, inr, str_eq, str_eq_iff, if◌then◌else◌, ltb, Time, length, ◌≤◌,
  max_duration, All,
}
use amarre.Store.History.{HealthPoint}
use amarre.Collector.Timeline.Rows.{
  Format, Cell, Row, blank_cells, fill, tally, tally_all, new_row, covered, row_of,
}
use amarre.Collector.Timeline.Rows.Gravest.{
  was, gravest, NotBefore, state_at, fill-IsKnown, blank_cells-IsKnown, state_at-gravest,
}
use amarre.Collector.Timeline.Rows.Worst.{
  worse, worst_in, rank_at-fill, length-fill, length-blank_cells, rank_at-blank_cells,
}

abbrev counted : Row → ℕ
counted r = r.oks + r.warns + r.crits + r.gaps

counted-tally_all :
    (r : Row) (cs : List Cell)
    → (counted (tally_all r cs) ≡ counted r + length cs) × ((tally_all r cs).cells ≡ r.cells)
unfolding tally_all
counted-tally_all r [] = (omega arith, refl)
counted-tally_all r (c ∷ cs) =
    let rest = counted-tally_all (tally r c) cs in
    let one : counted (tally r c) ≡ counted r + 1 = counted-tally r c in
    let same : (tally r c).cells ≡ r.cells = tally-cells r c in
    (ground (arith, rest.0, one), rest.1 ∙ same)
  where
    counted-tally : (r : Row) (c : Cell) → counted (tally r c) ≡ counted r + 1
    counted-tally r c = elim (Bool-cases (str_eq c.state "ok")) [
      | inl a ↦ rw a (omega arith)
      | inr a ↦ rw a (elim (Bool-cases (str_eq c.state "warn")) [
        | inl b ↦ rw b (omega arith)
        | inr b ↦ rw b (elim (Bool-cases (str_eq c.state "crit")) [
          | inl d ↦ rw d (omega arith)
          | inr d ↦ rw d (omega arith)
        ])
      ])
    ]

    tally-cells : (r : Row) (c : Cell) → (tally r c).cells ≡ r.cells
    tally-cells r c = ground (arith)

-- The number of cells with that state.
abbrev pub count_state : String → List Cell → ℕ
count_state s [] = 0
count_state s (c ∷ cs) = if str_eq c.state s then 1 + count_state s cs else count_state s cs

apart : (s t u : String) → str_eq t u ≡ false → str_eq s t ≡ true → str_eq s u ≡ false
apart s t u h e = let same : s ≡ t = (str_eq_iff s t).0 e in rw same h

-- What the loop adds for one cell.
abbrev Adds : Row → Cell → Row → Type 0
Adds r c q =
    (q.oks ≡ r.oks + count_state "ok" (c ∷ []))
    × (q.warns ≡ r.warns + count_state "warn" (c ∷ []))
    × (q.crits ≡ r.crits + count_state "crit" (c ∷ []))

tally-Adds : (r : Row) (c : Cell) → Adds r c (tally r c)
tally-Adds r c = elim (Bool-cases (str_eq c.state "ok")) [
  | inl a ↦
      let b = apart c.state "ok" "warn" refl a in
      let d = apart c.state "ok" "crit" refl a in rw (a, b, d) (omega arith)
  | inr a ↦ elim (Bool-cases (str_eq c.state "warn")) [
    | inl b ↦ let d = apart c.state "warn" "crit" refl b in rw (a, b, d) (omega arith)
    | inr b ↦ elim (Bool-cases (str_eq c.state "crit")) [
      | inl d ↦ rw (a, b, d) (omega arith)
      | inr d ↦ rw (a, b, d) (omega arith)
    ]
  ]
]

tally_all-counts :
    (r : Row) (cs : List Cell)
    → ((tally_all r cs).oks ≡ r.oks + count_state "ok" cs)
      × ((tally_all r cs).warns ≡ r.warns + count_state "warn" cs)
      × ((tally_all r cs).crits ≡ r.crits + count_state "crit" cs)
unfolding tally_all
tally_all-counts r [] = (omega arith, omega arith, omega arith)
tally_all-counts r (c ∷ cs) =
    let (x, y, z) = tally_all-counts (tally r c) cs in
    let (a, b, d) = tally-Adds r c in
    (
      x ∙ ap (λ n. n + count_state "ok" cs) a ∙ joined (str_eq c.state "ok") r.oks _,
      y ∙ ap (λ n. n + count_state "warn" cs) b ∙ joined (str_eq c.state "warn") r.warns _,
      z ∙ ap (λ n. n + count_state "crit" cs) d ∙ joined (str_eq c.state "crit") r.crits _,
    )
  where
    joined : (t : Bool) (m n : ℕ) → m + (if t then 1 + 0 else 0) + n ≡ m + (if t then 1 + n else n)
    joined t m n = ground arith

-- What a row shows of the measures, at its cell `i`.
pub record Shows (start : Time) (bucket buckets i : ℕ) (pts : List HealthPoint) (r : Row)
    : Type 0 where
  pub worst :
      state_at i r.cells
      ≡ some (
          gravest
            (was "crit" start bucket i pts)
            (was "warn" start bucket i pts)
            (was "ok" start bucket i pts))
  pub size : length r.cells ≡ buckets
  pub oks : r.oks ≡ count_state "ok" r.cells
  pub warns : r.warns ≡ count_state "warn" r.cells
  pub crits : r.crits ≡ count_state "crit" r.cells
  pub sum : r.oks + r.warns + r.crits + r.gaps ≡ buckets
  pub share : r.coverage ≡ (r.oks + r.warns + r.crits) * 100 / buckets

filled-Shows :
    (start : Time) (bucket buckets i : ℕ) (pts : List HealthPoint) (name : String)
    (cells : List Cell)
    → i < buckets
    → length cells ≡ buckets
    → state_at i cells
      ≡ some (
          gravest
            (was "crit" start bucket i pts)
            (was "warn" start bucket i pts)
            (was "ok" start bucket i pts))
    → Shows start bucket buckets i pts (covered buckets (tally_all (new_row name cells) cells))
filled-Shows start bucket buckets i pts name cells h len e =
    subst (λ r. Shows start bucket buckets i pts r) (sym is_covered)
      (record {
        worst = ap (λ cs. state_at i cs) counts.1 ∙ e;
        size = ap (λ cs. length cs) counts.1 ∙ len;
        oks = each.0 ∙ from_zero _ ∙ ap (count_state "ok") (sym counts.1);
        warns = each.1 ∙ from_zero _ ∙ ap (count_state "warn") (sym counts.1);
        crits = each.2 ∙ from_zero _ ∙ ap (count_state "crit") (sym counts.1);
        sum = all;
        share = ap (λ n. n * 100 / buckets) (omega (arith, all));
      })
  where
    from_zero : (n : ℕ) → 0 + n ≡ n
    from_zero n = omega arith

    r : Row
    r = tally_all (new_row name cells) cells

    is_covered : covered buckets r ≡ (record r { coverage = (buckets - r.gaps) * 100 / buckets })
    is_covered = let positive : ltb 0 buckets ≡ true = ground (arith, h) in rw positive refl

    counts : (counted r ≡ counted (new_row name cells) + length cells) × (r.cells ≡ cells)
    counts = counted-tally_all (new_row name cells) cells

    each :
        (r.oks ≡ 0 + count_state "ok" cells)
        × (r.warns ≡ 0 + count_state "warn" cells)
        × (r.crits ≡ 0 + count_state "crit" cells)
    each = tally_all-counts (new_row name cells) cells

    all : r.oks + r.warns + r.crits + r.gaps ≡ buckets
    all = omega (arith, counts.0, len)

-- For measures that are not before the start of the window, and an interval that ends within the
-- longest `Duration` from there on: the cell of the interval is critical when a measure in it is, to
-- watch when none is critical and one is to watch, well when all that it has are well, and without a
-- measure else; the row counts its well cells, its cells to watch and its critical cells, which with
-- the cells without a measure are all the cells; and the coverage is the share, in percent, of the
-- cells with a state.
pub row_of-Shows :
    (format : Format) (name : String) (start : Time) (bucket buckets i : ℕ) (pts : List HealthPoint)
    → 1 ≤ bucket
    → i < buckets
    → (i + 1) * bucket ≤ max_duration
    → All (NotBefore start) pts
    → Shows start bucket buckets i pts (row_of format name start bucket buckets pts)
unfolding row_of
row_of-Shows format name start bucket buckets i pts pos h fits all =
    filled-Shows start bucket buckets i pts name filled h
      (length-fill format start bucket buckets pts blank ∙ size)
      (state_at-gravest start bucket buckets i pts filled pos h fits all
        (subst (λ n. i < n) (sym (length-fill format start bucket buckets pts blank ∙ size)) h)
        (fill-IsKnown format start bucket buckets pts blank
          (blank_cells-IsKnown format start bucket 0 buckets))
        (rank_at-fill format start bucket buckets i pts blank (subst (λ n. i < n) (sym size) h)
          ∙ ap (λ n. worse n (worst_in start bucket buckets i pts))
              (rank_at-blank_cells format start bucket 0 i buckets)
          ∙ ground (arith)))
  where
    blank : List Cell
    blank = blank_cells format start bucket 0 buckets

    filled : List Cell
    filled = fill format start bucket buckets pts blank

    size : length blank ≡ buckets
    size = length-blank_cells format start bucket 0 buckets
