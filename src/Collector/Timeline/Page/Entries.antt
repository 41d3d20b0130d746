-- ===== src/Collector/Timeline/Page/Entries.antt =====
-- The parts of the page of the history: the order of two rows and of two episodes, the hosts that
-- are shown, and the graduations of the axis.
use amarre.Base.{
  ℕ, zero, suc, ◌+◌, ◌*◌, ◌≤◌, ◌<◌, ◌≡◌, refl, sym, ap, ◌∙◌, ◌⊎◌, true, false, Option, none, some,
  List, [], ◌∷◌, ◌++◌, map, arith, Bool-cases, inl, inr, if◌then◌else◌, ltb, ◌==◌, str_lt,
  str_lt_asymm, Time, subst,
}
use mathlib.Core.List.{filter_map, filter_map-cons-none, filter_map-cons-some}
use amarre.Config.{HostConfig}
use amarre.Store.Tables.{Db}
use amarre.Store.History.{health_series}
use amarre.Collector.Timeline.{Episode, episodes}
use amarre.Collector.Timeline.Rows.{Row}
use amarre.Collector.Timeline.Page.{
  Window, Axis, Layouts, axis_from, enabled, all_episodes, later_start, worse_row,
}

pub worse_row_asymm : (a b : Row) → worse_row a b ≡ true → worse_row b a ≡ false
unfolding worse_row
worse_row_asymm a b h = ground (arith, str_lt_asymm a.name b.name)

pub later_start_asymm : (a b : Episode) → later_start a b ≡ true → later_start b a ≡ false
later_start_asymm a b h = ground (arith, h)

-- The upper row has more critical cells; or as many, and more cells to watch; or as many of both,
-- and the name of the lower one is not smaller.
abbrev pub Above : Row → Row → Type 0
Above a b =
    (b.crits < a.crits)
    ⊎ ((b.crits ≡ a.crits)
        × ((b.warns < a.warns) ⊎ ((b.warns ≡ a.warns) × (str_lt b.name a.name ≡ false))))

-- The upper episode did not start before the lower one.
abbrev pub NoEarlier : Episode → Episode → Type 0
NoEarlier a b = b.start ≤ a.start

pub worse_row-Above : (a b : Row) → worse_row b a ≡ false → Above a b
unfolding worse_row
worse_row-Above a b h = elim (Bool-cases (b.crits == a.crits)) [
  | inr other ↦ inl (ground (arith, other, h))
  | inl same ↦ elim (Bool-cases (b.warns == a.warns)) [
    | inr other ↦ inr (ground (arith, same), inl (ground (arith, same, other, h)))
    | inl both ↦
        inr (ground (arith, same), inr (ground (arith, both), ground (arith, same, both, h)))
  ]
]

-- The hosts that are not disabled, in the order of the configuration, each with what `f` makes of it.
abbrev pub of_active {ℓ} : {A : Type ℓ} → (HostConfig → A) → List HostConfig → List A
of_active f = filter_map (λ h. if h.disabled then none else some (f h))

pub map-enabled {ℓ} :
    {A : Type ℓ} (f : HostConfig → A) (hs : List HostConfig) → map f (enabled hs) ≡ of_active f hs
unfolding filter_map
map-enabled f [] = refl
map-enabled f (h ∷ hs) = elim (Bool-cases h.disabled) [
  | inl off ↦
      ap (λ b. map f (if b then enabled hs else h ∷ enabled hs)) off
      ∙ map-enabled f hs
      ∙ sym (
          filter_map-cons-none (λ (h : HostConfig). if h.disabled then none else some (f h)) h hs
            (ap (λ b. if b then none else some (f h)) off))
  | inr on ↦
      ap (λ b. map f (if b then enabled hs else h ∷ enabled hs)) on
      ∙ ap (λ l. f h ∷ l) (map-enabled f hs)
      ∙ sym (
          filter_map-cons-some (λ (h : HostConfig). if h.disabled then none else some (f h)) h hs
            (ap (λ b. if b then none else some (f h)) on))
]

abbrev pub flat {ℓ} : {A : Type ℓ} → List (List A) → List A
flat [] = []
flat (l ∷ ls) = l ++ flat ls

pub all_episodes-flat :
    (db : Db) (start now : Time) (hs : List HostConfig)
    → all_episodes db start now hs
      ≡ flat (map (λ (h : HostConfig). episodes h.name now (health_series db h.name start)) hs)
all_episodes-flat db start now [] = refl
all_episodes-flat db start now (h ∷ hs) =
    ap (λ l. episodes h.name now (health_series db h.name start) ++ l)
      (all_episodes-flat db start now hs)

abbrev pub nth {ℓ} : {A : Type ℓ} → ℕ → List A → Option A
nth k [] = none
nth zero (a ∷ rest) = some a
nth (suc k) (a ∷ rest) = nth k rest

-- The graduation at a cell, where the window has that cell.
abbrev pub graduation : Layouts → Window → Time → ℕ → ℕ → Option Axis
graduation layouts w start buckets i =
    if ltb i buckets
    then some (record { index = i; label = layouts w.layout (start + i * w.bucket) })
    else none

pub axis_from-nth :
    (layouts : Layouts) (w : Window) (start : Time) (buckets step left i k : ℕ)
    → 1 ≤ step
    → buckets ≤ i + left
    → nth k (axis_from layouts w start buckets step left i)
      ≡ graduation layouts w start buckets (i + k * step)
unfolding axis_from
axis_from-nth layouts w start buckets step zero i k h b =
    let off : ltb (i + k * step) buckets ≡ false = beyond (k * step) in rw off refl
  where
    beyond : (n : ℕ) → ltb (i + n) buckets ≡ false
    beyond n = ground (arith, b)
axis_from-nth layouts w start buckets step (suc left) i k h b =
    at_turn k
      (λ k. axis_from-nth layouts w start buckets step left (i + step) k h (omega (arith, h, b)))
      (Bool-cases (ltb i buckets))
  where
    beyond : (n : ℕ) → ltb i buckets ≡ false → ltb (i + n) buckets ≡ false
    beyond n out = ground (arith, out)

    first : i ≡ i + 0 * step
    first = omega arith

    next : (k : ℕ) → i + step + k * step ≡ i + suc k * step
    next k = omega arith

    at_turn :
        (k : ℕ)
        → ((k : ℕ)
            → nth k (axis_from layouts w start buckets step left (i + step))
              ≡ graduation layouts w start buckets (i + step + k * step))
        → (ltb i buckets ≡ true) ⊎ (ltb i buckets ≡ false)
        → nth k (
            if ltb i buckets
            then record { index = i; label = layouts w.layout (start + i * w.bucket) }
              ∷ axis_from layouts w start buckets step left (i + step)
            else [])
          ≡ graduation layouts w start buckets (i + k * step)
    at_turn k rest (inr out) =
        let off : ltb (i + k * step) buckets ≡ false = beyond (k * step) out in rw (out, off) refl
    at_turn zero rest (inl on) =
        subst
          (λ n.
            nth 0 (
              if ltb i buckets
              then record { index = i; label = layouts w.layout (start + i * w.bucket) }
                ∷ axis_from layouts w start buckets step left (i + step)
              else [])
            ≡ graduation layouts w start buckets n)
          first (rw on refl)
    at_turn (suc k) rest (inl on) =
        rw on (rest k ∙ ap (graduation layouts w start buckets) (next k))
