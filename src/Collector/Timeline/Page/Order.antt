-- ===== src/Collector/Timeline/Page/Order.antt =====
-- What the page of the history shows, and in which order.
use native.Mathlib.Nat.{mod-lt, div-add-mod'}
use amarre.Base.{
  ℕ, ◌+◌, ◌-◌, ◌*◌, ◌/◌, ◌%◌, ◌≤◌, ◌<◌, ◌≡◌, refl, ap, ◌∙◌, subst, String, List, [], ◌∷◌, map,
  arith, Bool-cases, ◌⊎◌, true, false, some, if◌then◌else◌, inl, inr, str_eq, sort_by,
  sort_by-IsSorted, Adjacent, Adjacent-IsSorted, sort_by-perm, Time, hour, All,
}
use mathlib.Core.List.{Perm}
use amarre.Config.{Config, HostConfig}
use amarre.Store.Tables.{Db}
use amarre.Store.History.{health_series}
use amarre.Collector.Timeline.{episodes}
use amarre.Collector.Timeline.Rows.{row_of}
use amarre.Collector.Timeline.Page.{
  Window, TimelineData, or_first, day_window, Layouts, window_by_key, find_window, windows, end_of,
  step_of, enabled, host_row, all_episodes, later_start, worse_row, timeline_of, timeline,
}
use amarre.Collector.Timeline.Page.Entries.{
  worse_row_asymm, later_start_asymm, Above, NoEarlier, worse_row-Above, of_active, map-enabled,
  flat, all_episodes-flat, nth, graduation, axis_from-nth,
}

find_window-All :
    (P : Window → Type 0) (k : String) (ws : List Window)
    → P day_window
    → All P ws
    → P (or_first (find_window k ws))
find_window-All P k [] first all = first
find_window-All P k (w ∷ ws) first all = elim (Bool-cases (str_eq w.key k)) [
  | inl hit ↦ rw hit all.0
  | inr miss ↦ rw miss (find_window-All P k ws first all.1)
]

-- What the three windows have: whole cells, eight of them at least, and at most fourteen days.
record Fits (w : Window) : Type 0 where
  pub whole : w.duration / w.bucket * w.bucket ≡ w.duration
  pub eight : 8 ≤ w.duration / w.bucket
  pub cell : 1 ≤ w.bucket
  pub days : w.duration ≤ 14 * 24 * hour

-- A window of so many days with cells of so many hours.
abbrev week : String → String → ℕ → ℕ → Window
week key label days hours = record {
  key = key;
  label = label;
  duration = days * 24 * hour;
  bucket = hours * hour;
  layout = "02/01";
}

window_by_key-Fits : (k : String) → Fits (window_by_key k)
unfolding window_by_key
window_by_key-Fits k = find_window-All Fits k windows first (first, (second, (third, tt)))
  where
    first : Fits day_window
    first = record { whole = refl; eight = omega arith; cell = omega arith; days = omega arith }

    second : Fits (week "7j" "7 jours" 7 4)
    second = record { whole = refl; eight = omega arith; cell = omega arith; days = omega arith }

    third : Fits (week "14j" "14 jours" 14 6)
    third = record { whole = refl; eight = omega arith; cell = omega arith; days = omega arith }

-- The window has the key, or it is that of the day and no window has the key.
abbrev pub Asked : String → Window → Type 0
Asked k w = (str_eq w.key k ≡ true) ⊎ ((w ≡ day_window) × All (λ v. str_eq v.key k ≡ false) windows)

find_window-cases :
    (k : String) (ws : List Window)
    → (str_eq (or_first (find_window k ws)).key k ≡ true)
      ⊎ ((or_first (find_window k ws) ≡ day_window) × All (λ v. str_eq v.key k ≡ false) ws)
find_window-cases k [] = inr (refl, tt)
find_window-cases k (w ∷ ws) = elim (Bool-cases (str_eq w.key k)) [
  | inl hit ↦
      inl (ap (λ b. str_eq (or_first (if b then some w else find_window k ws)).key k) hit ∙ hit)
  | inr miss ↦
      let passed : find_window k (w ∷ ws) ≡ find_window k ws =
        ap (λ b. if b then some w else find_window k ws) miss in
      elim (find_window-cases k ws) [
        | inl found ↦ inl (ap (λ o. str_eq (or_first o).key k) passed ∙ found)
        | inr (first, all) ↦ inr (ap or_first passed ∙ first, (miss, all))
      ]
]

window_by_key-Asked : (k : String) → Asked k (window_by_key k)
unfolding window_by_key
window_by_key-Asked k = find_window-cases k windows

-- What the page shows, from `start` on.
pub record Presents (layouts : Layouts) (c : Config) (db : Db) (now start : Time) (key : String)
    (t : TimelineData) : Type 0 where
  pub asked : Asked key t.window
  pub rows_in_order : Adjacent Above t.rows
  pub one_row_a_host : Perm t.rows (
      of_active
        (λ (h : HostConfig).
          row_of
            (layouts "02/01 15h04")
            h.name
            start
            t.window.bucket
            t.buckets
            (health_series db h.name start))
        c.hosts)
  pub episodes_in_order : Adjacent NoEarlier t.episodes
  pub every_episode : Perm t.episodes (
      flat (
        of_active
          (λ (h : HostConfig). episodes h.name now (health_series db h.name start))
          c.hosts))
  pub axis_in_full :
      (k : ℕ) → nth k t.axis ≡ graduation layouts t.window start t.buckets (k * (t.buckets / 8))
  pub whole_cells : t.buckets * t.window.bucket ≡ t.window.duration
  pub last_cell : now < start + t.window.duration
  pub not_later : start + t.window.duration ≤ now + t.window.bucket
  pub on_the_bucket : (n : ℕ) × (start + t.window.duration ≡ n * t.window.bucket)

end_of-now :
    (now bucket duration : ℕ)
    → 1 ≤ bucket
    → duration ≤ now
    → (now < end_of now bucket - duration + duration)
      × (end_of now bucket - duration + duration ≤ now + bucket)
      × ((n : ℕ) × (end_of now bucket - duration + duration ≡ n * bucket))
end_of-now now bucket duration h k =
    let below = mod-lt now h in
    let parts = div-add-mod' now bucket in
    let le : now % bucket ≤ now = omega (arith, parts) in
    (
      omega (arith, below, le, k, h),
      omega (arith, below, le, k, h),
      (now / bucket + 1, omega (arith, parts, below, k)),
    )

timeline_of-Presents :
    (layouts : Layouts) (c : Config) (db : Db) (now : Time) (key : String) (w : Window)
    → Fits w
    → Asked key w
    → 14 * 24 * hour ≤ now
    → Presents layouts c db now
        (end_of now w.bucket - w.duration)
        key
        (timeline_of layouts c db now w)
unfolding timeline_of
timeline_of-Presents layouts c db now key w fits asked late =
    let start = end_of now w.bucket - w.duration in
    let buckets = w.duration / w.bucket in
    let rs = map (host_row layouts db start w.bucket buckets) (enabled c.hosts) in
    let es = all_episodes db start now (enabled c.hosts) in
    let (after, before, bucket) =
      end_of-now now w.bucket w.duration fits.cell (omega (arith, fits.days, late)) in
    let eighth : step_of buckets ≡ buckets / 8 = ground (arith, fits.eight) in
    record {
      asked = asked;
      rows_in_order =
          Adjacent-IsSorted worse_row Above worse_row-Above (sort_by worse_row rs)
            (sort_by-IsSorted worse_row worse_row_asymm rs);
      one_row_a_host =
          subst (λ l. Perm (sort_by worse_row rs) l)
            (map-enabled (host_row layouts db start w.bucket buckets) c.hosts)
            (sort_by-perm worse_row rs);
      episodes_in_order =
          Adjacent-IsSorted later_start NoEarlier (λ a b h. ground (arith, h))
            (sort_by later_start es) (sort_by-IsSorted later_start later_start_asymm es);
      every_episode =
          subst (λ l. Perm (sort_by later_start es) l)
            (all_episodes-flat db start now (enabled c.hosts)
              ∙ ap flat (
                  map-enabled
                    (λ (h : HostConfig). episodes h.name now (health_series db h.name start))
                    c.hosts))
            (sort_by-perm later_start es);
      axis_in_full = λ k.
          axis_from-nth layouts w start buckets (step_of buckets) buckets 0 k
            (omega (arith, eighth, fits.eight)) (omega arith)
          ∙ ap (graduation layouts w start buckets)
              (zero_add (k * step_of buckets) ∙ ap (λ n. k * n) eighth);
      whole_cells = fits.whole;
      last_cell = after;
      not_later = before;
      on_the_bucket = bucket;
    }
  where
    zero_add : (n : ℕ) → 0 + n ≡ n
    zero_add n = omega arith

-- At any time later than fourteen days after the first instant: the page has the window of the key
-- that was asked for, or that of the day where no window has it; it shows one row for each host that is not disabled, and no row directly above a worse one, by its critical cells, then its
-- cells to watch, then its name; every episode of these hosts, none directly above one that started
-- later; a graduation at the first cell and then at each one that follows by an eighth of their
-- number, rounded down, and at no other; cells that fill the window exactly; and a window that ends at
-- the next multiple of its cell after the present.
pub timeline-Presents :
    (layouts : Layouts) (c : Config) (db : Db) (now : Time) (key : String)
    → 14 * 24 * hour ≤ now
    → Presents layouts c db now
        (end_of now (window_by_key key).bucket - (window_by_key key).duration)
        key
        (timeline layouts c db now key)
unfolding timeline
timeline-Presents layouts c db now key late =
    timeline_of-Presents layouts c db now key (window_by_key key) (window_by_key-Fits key)
      (window_by_key-Asked key) late
