-- ===== src/Collector/Timeline/Rows.antt =====
-- The row of a host in `Timeline` of internal/collector/timeline.go: its cells, one for each
-- interval of the window. Go's formatting of times is an argument.
pub mod Worst
pub mod Counts
pub mod Gravest
use amarre.Base.{
  concat, ℕ, zero, suc, ◌+◌, ◌-◌, ◌*◌, ◌/◌, Bool, String, Option, none, some, List, [], ◌∷◌,
  if◌then◌else◌, ltb, ◌==◌, str_eq, ℤ, pos, negsuc, Time, sub_time, length,
}
use amarre.Store.History.{HealthPoint}

-- `from.Format("02/01 15h04")`
abbrev pub Format : Type 0
Format = Time → String

pub record Cell : Type 0 where
  pub from : Time
  pub state : String
  pub samples : ℕ
  pub title : String

pub record Row : Type 0 where
  pub name : String
  pub cells : List Cell
  pub oks : ℕ
  pub warns : ℕ
  pub crits : ℕ
  pub gaps : ℕ
  pub coverage : ℕ

-- The maps `rank` and `name`.
abbrev pub rank : String → ℕ
rank s =
    if str_eq s "ok" then 1 else if str_eq s "warn" then 2 else if str_eq s "crit" then 3 else 0

abbrev pub name_of : String → String
name_of s =
    if str_eq s "ok"
    then "tout va bien"
    else if str_eq s "warn"
    then "à surveiller"
    else if str_eq s "crit"
    then "critique"
    else if str_eq s "unknown"
    then "aucune mesure"
    else ""

-- `Cells: make([]Cell, buckets)` and the loop that fills it, from cell `i` on.
unfoldable pub blank_cells : Format → Time → ℕ → ℕ → ℕ → List Cell
blank_cells format start bucket i zero = []
blank_cells format start bucket i (suc left) =
    let from = start + i * bucket in
    record {
      from = from;
      state = "unknown";
      samples = 0;
      title = concat (format from ∷ " — aucune mesure" ∷ []);
    }
    ∷ blank_cells format start bucket (i + 1) left

-- `int(p.At.Sub(start) / w.Bucket)`, where it is an index; the division is towards zero.
abbrev pub slot_within : ℕ → ℕ → Option ℕ
slot_within buckets i = if ltb i buckets then some i else none

abbrev pub slot_of : ℕ → ℕ → ℤ → Option ℕ
slot_of bucket buckets (pos d) = slot_within buckets (d / bucket)
slot_of bucket buckets (negsuc d) = if (d + 1) / bucket == 0 then slot_within buckets 0 else none

abbrev pub slot : Time → ℕ → ℕ → HealthPoint → Option ℕ
slot start bucket buckets p = slot_of bucket buckets (sub_time p.at start)

abbrev pub summed_up : Format → Cell → HealthPoint → String
summed_up format c p =
    if str_eq p.summary ""
    then concat (format c.from ∷ " — " ∷ name_of p.state ∷ [])
    else concat (format c.from ∷ " — " ∷ name_of p.state ∷ " : " ∷ p.summary ∷ [])

abbrev pub measured : Format → HealthPoint → Cell → Cell
measured format p c =
    if ltb (rank c.state) (rank p.state)
    then record c { samples = c.samples + 1; state = p.state; title = summed_up format c p }
    else record c { samples = c.samples + 1 }

unfoldable pub measure_at : Format → HealthPoint → ℕ → List Cell → List Cell
measure_at format p i [] = []
measure_at format p zero (c ∷ cs) = measured format p c ∷ cs
measure_at format p (suc i) (c ∷ cs) = c ∷ measure_at format p i cs

abbrev pub place : Format → HealthPoint → Option ℕ → List Cell → List Cell
place format p none cells = cells
place format p (some i) cells = measure_at format p i cells

unfoldable pub fill : Format → Time → ℕ → ℕ → List HealthPoint → List Cell → List Cell
unfolding measure_at
fill format start bucket buckets [] cells = cells
fill format start bucket buckets (p ∷ pts) cells =
    fill format start bucket buckets pts (place format p (slot start bucket buckets p) cells)

-- One turn of the loop that counts the cells.
abbrev pub tally : Row → Cell → Row
tally r c =
    if str_eq c.state "ok"
    then record r { oks = r.oks + 1 }
    else if str_eq c.state "warn"
    then record r { warns = r.warns + 1 }
    else if str_eq c.state "crit"
    then record r { crits = r.crits + 1 }
    else record r { gaps = r.gaps + 1 }

unfoldable pub tally_all : Row → List Cell → Row
tally_all r [] = r
tally_all r (c ∷ cs) = tally_all (tally r c) cs

abbrev pub new_row : String → List Cell → Row
new_row name cells = record {
  name = name;
  cells = cells;
  oks = 0;
  warns = 0;
  crits = 0;
  gaps = 0;
  coverage = 0;
}

abbrev pub covered : ℕ → Row → Row
covered buckets r =
    if ltb 0 buckets then record r { coverage = (buckets - r.gaps) * 100 / buckets } else r

unfoldable pub row_of : Format → String → Time → ℕ → ℕ → List HealthPoint → Row
unfolding fill blank_cells tally_all
row_of format name start bucket buckets pts =
    let cells = fill format start bucket buckets pts (blank_cells format start bucket 0 buckets) in
    covered buckets (tally_all (new_row name cells) cells)
