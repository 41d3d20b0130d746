-- ===== src/Collector/Timeline/Bars/Balance.antt =====
-- How the percentages of a bar add up.
use amarre.Base.{
  ℕ, zero, suc, ◌+◌, ◌-◌, ◌*◌, ◌/◌, ◌≤◌, ◌≡◌, ◌⊎◌, refl, ap, ◌∙◌, Bool-cases, inl, inr, arith,
  String, List, [], ◌∷◌, str_eq, str_eq_iff, ◌==◌, pos, ◌-ℤ◌, hour, length, int_laws, leb, Option,
  some, none, All, map, Time, sort_by-All,
}
use amarre.Config.{HostConfig, Config}
use amarre.Store.Tables.{Db}
use amarre.Store.History.{HealthPoint, health_series}
use amarre.Collector.Timeline.Rows.{slot}
use amarre.Collector.Timeline.Page.{end_of, enabled}
use amarre.Collector.Timeline.Bars.{
  Bar, Share, empty_slots, put_slot, put_point, fill_slots, time_in, coverage_of, bar_with, bar_of,
  host_bar, worse_bar, bars,
}

-- The hours of the three states among the slots.
abbrev Hours : List String → Type 0
Hours slots =
    (a : ℕ) × (b : ℕ) × (d : ℕ) × (time_in "ok" slots ≡ a * hour)
    × (time_in "warn" slots ≡ b * hour)
    × (time_in "crit" slots ≡ d * hour)
    × (a + b + d ≤ length slots)

slots-Hours : (slots : List String) → Hours slots
unfolding time_in
slots-Hours [] = (0, 0, 0, refl, refl, refl, omega arith)
slots-Hours (t ∷ ts) =
    let (a, b, d, x, y, z, l) = slots-Hours ts in
    elim (Bool-cases (str_eq t "ok")) [
      | inl fine ↦
          let e : t ≡ "ok" = (str_eq_iff t "ok").0 fine in
          (
            a + 1,
            b,
            d,
            rw e (omega (arith, x)),
            rw e (omega (arith, y)),
            rw e (omega (arith, z)),
            omega (arith, l),
          )
      | inr not_ok ↦ elim (Bool-cases (str_eq t "warn")) [
        | inl watch ↦
            let e : t ≡ "warn" = (str_eq_iff t "warn").0 watch in
            (
              a,
              b + 1,
              d,
              rw e (omega (arith, x)),
              rw e (omega (arith, y)),
              rw e (omega (arith, z)),
              omega (arith, l),
            )
        | inr not_warn ↦ elim (Bool-cases (str_eq t "crit")) [
          | inl bad ↦
              let e : t ≡ "crit" = (str_eq_iff t "crit").0 bad in
              (
                a,
                b,
                d + 1,
                rw e (omega (arith, x)),
                rw e (omega (arith, y)),
                rw e (omega (arith, z)),
                omega (arith, l),
              )
          | inr not_crit ↦ (
            a,
            b,
            d,
            rw not_ok (omega (arith, x)),
            rw not_warn (omega (arith, y)),
            rw not_crit (omega (arith, z)),
            omega (arith, l),
          )
        ]
      ]
    ]

-- The two shares leave something to the third.
shares_fit : (m p q h k : ℕ) → 1 ≤ m → p * m ≤ h * 100 → q * m ≤ k * 100 → h + k ≤ m → p + q ≤ 100
shares_fit m p q h k one x y s = elim (split (p + q)) [
  | inl fits ↦ fits
  | inr (over, e) ↦ let more = ap (λ n. n * m) e in absurd (omega (arith, more, x, y, s, one))
]
  where
    split : (n : ℕ) → (n ≤ 100) ⊎ ((over : ℕ) × (n ≡ 101 + over))
    split n = elim (Bool-cases (leb n 100)) [
      | inl fits ↦ inl (ground (arith, fits))
      | inr over ↦ inr (n - 101, ground (arith, over))
    ]

-- Nothing was measured and nothing is shown, or the three percentages make 100 and neither of the
-- two bad ones exceeds its part of the time that was measured.
abbrev pub Balanced : Bar → Type 0
Balanced b =
    (b.measured ≤ b.total)
    × (b.coverage ≤ 100)
    × (((b.measured ≡ 0) × (b.pct_ok ≡ pos 0) × (b.pct_warn ≡ 0) × (b.pct_crit ≡ 0))
        ⊎ ((n : ℕ) × (b.pct_ok ≡ pos n)
            × (n + b.pct_warn + b.pct_crit ≡ 100)
            × (b.pct_warn * b.measured * hour ≤ b.dur_warn * 100)
            × (b.pct_crit * b.measured * hour ≤ b.dur_crit * 100)))

rest_small :
    (crit warn : ℕ) → warn + crit ≤ 100 → pos 100 -ℤ pos crit -ℤ pos warn ≡ pos (100 - crit - warn)
rest_small crit warn h = grind int_laws

all_hours : (a b d : ℕ) → (a * hour + b * hour + d * hour) / hour ≡ a + b + d
all_hours a b d = omega arith

whole_hours : (a b d : ℕ) → a * hour + b * hour + d * hour ≡ (a + b + d) * hour
whole_hours a b d = omega arith

covered : (total measured : ℕ) → measured ≤ total → coverage_of total measured ≤ 100
covered total measured h = elim (Bool-cases (total == 0)) [
  | inl empty ↦ rw empty (omega arith)
  | inr hours ↦
      let one : 1 ≤ total = ground (arith, hours) in
      let q = measured * 100 / total in
      let part : q * total ≤ measured * 100 = omega (arith, one) in
      let sum : q + 0 ≤ 100 =
        shares_fit total q 0 measured 0 one part (omega arith) (omega (arith, h)) in
      rw hours (omega (arith, sum))
]

hours-Balanced :
    (f : Share) (name : String) (total a b d : ℕ)
    → a + b + d ≤ total
    → total ≤ 10000
    → Balanced (bar_with f name total (a * hour) (b * hour) (d * hour))
hours-Balanced f name total a b d fits small = elim (Bool-cases (a + b + d == 0)) [
  | inl nothing ↦
      rw (all_hours a b d, nothing)
        (fits, covered total (a + b + d) fits, inl (ground (arith, nothing), refl, refl, refl))
  | inr seen ↦
      let m = a + b + d in
      let one : 1 ≤ m = ground (arith, seen) in
      let p = f.share (d * hour) (m * hour) in
      let q = f.share (b * hour) (m * hour) in
      let crit = f.share_small d m one (omega arith) (omega (arith, fits, small)) in
      let warn = f.share_small b m one (omega arith) (omega (arith, fits, small)) in
      let sum = shares_fit m q p b d one warn crit (omega arith) in
      rw (all_hours a b d, whole_hours a b d, seen)
        (
          fits,
          covered total m fits,
          inr (
            100 - p - q,
            rest_small p q sum,
            omega (arith, sum),
            omega (arith, warn),
            omega (arith, crit),
          ),
        )
]

bar_of-Balanced :
    (f : Share) (name : String) (total : ℕ) (slots : List String)
    → length slots ≤ total
    → total ≤ 10000
    → Balanced (bar_of f name total slots)
unfolding bar_of
bar_of-Balanced f name total slots fits small =
    let (a, b, d, x, y, z, l) = slots-Hours slots in
    rw (x, y, z) (hours-Balanced f name total a b d (omega (arith, l, fits)) small)

put_slot-length :
    (s : String) (i : ℕ) (slots : List String) → length (put_slot s i slots) ≡ length slots
unfolding put_slot
put_slot-length s i [] = refl
put_slot-length s zero (t ∷ ts) = refl
put_slot-length s (suc i) (t ∷ ts) = ap suc (put_slot-length s i ts)

put_point-length :
    (p : HealthPoint) (o : Option ℕ) (slots : List String)
    → length (put_point p o slots) ≡ length slots
put_point-length p none slots = refl
put_point-length p (some i) slots = put_slot-length p.state i slots

fill_slots-length :
    (start : Time) (total : ℕ) (pts : List HealthPoint) (slots : List String)
    → length (fill_slots start total pts slots) ≡ length slots
unfolding fill_slots
fill_slots-length start total [] slots = refl
fill_slots-length start total (p ∷ pts) slots =
    fill_slots-length start total pts (put_point p (slot start hour total p) slots)
    ∙ put_point-length p (slot start hour total p) slots

empty_slots-length : (n : ℕ) → length (empty_slots n) ≡ n
empty_slots-length zero = refl
empty_slots-length (suc n) = ap suc (empty_slots-length n)

host_bars-Balanced :
    (f : Share) (db : Db) (start : Time) (total : ℕ) (hs : List HostConfig)
    → total ≤ 10000
    → All Balanced (map (host_bar f db start total) hs)
host_bars-Balanced f db start total [] small = tt
host_bars-Balanced f db start total (h ∷ hs) small =
    let pts = health_series db h.name start in
    let same = fill_slots-length start total pts (empty_slots total) ∙ empty_slots-length total in
    (
      bar_of-Balanced f h.name total (fill_slots start total pts (empty_slots total))
          (omega (arith, same)) small,
      host_bars-Balanced f db start total hs small,
    )

-- In the bars of the last days, four hundred at most, every bar measures no more hours than there
-- are, its coverage is 100 at most, and its three percentages make exactly 100 where anything was measured; the bad ones never
-- exceed their part of the time measured, and the good one takes what their rounding leaves.
pub bars-Balanced :
    (f : Share) (c : Config) (db : Db) (now : Time) (days : ℕ)
    → days ≤ 400
    → All Balanced (bars f c db now days)
unfolding bars
bars-Balanced f c db now days few =
    let end = end_of now hour in
    let start = end - days * 24 * hour in
    let total = (end - start) / hour in
    sort_by-All worse_bar Balanced (map (host_bar f db start total) (enabled c.hosts))
      (host_bars-Balanced f db start total (enabled c.hosts) (omega (arith, few)))
