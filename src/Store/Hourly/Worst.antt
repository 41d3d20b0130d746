-- ===== src/Store/Hourly/Worst.antt =====
-- What an hour of the history shows of its readings.
use mathlib.Core.List.{Mem, mem-cons_self, mem-cons_of_mem}
use amarre.Base.{
  ℕ, zero, suc, ◌≤◌, ◌≡◌, ◌⊎◌, refl, sym, ◌∙◌, subst, inl, inr, arith, Bool-cases, String, none,
  some, List, [], ◌∷◌, ltb, max, length, All, Time, unix,
}
use amarre.Store.Tables.{HealthRow, Db}
use amarre.Store.History.{series_rows}
use amarre.Store.Hourly.{
  HourlyState, state_rank, state_of_rank, in_hour, worst_rank, most_crit, most_warn, summary_from,
  host_history, grouped, hourly_history,
}

state_rank_small : (s : String) → state_rank s ≤ 3
state_rank_small s = ground arith

state_rank-state_of_rank : (n : ℕ) → n ≤ 3 → state_rank (state_of_rank n) ≡ n
state_rank-state_of_rank zero h = refl
state_rank-state_of_rank (suc zero) h = refl
state_rank-state_of_rank (suc (suc zero)) h = refl
state_rank-state_of_rank (suc (suc (suc zero))) h = refl
state_rank-state_of_rank (suc (suc (suc (suc n)))) h = absurd (omega (arith, h))

worst_rank_small : (rs : List HealthRow) → worst_rank rs ≤ 3
unfolding worst_rank
worst_rank_small [] = omega arith
worst_rank_small (r ∷ rs) =
    let first = state_rank_small r.state in
    let rest = worst_rank_small rs in omega (arith, first, rest)

-- Each reading is no worse than what the hour shows.
abbrev pub Under : ℕ → ℕ → ℕ → HealthRow → Type 0
Under rank crit warn r = (state_rank r.state ≤ rank) × (r.crit ≤ crit) × (r.warn ≤ warn)

Under-weaken :
    (k k' c c' w w' : ℕ) (rs : List HealthRow)
    → k ≤ k'
    → c ≤ c'
    → w ≤ w'
    → All (Under k c w) rs
    → All (Under k' c' w') rs
Under-weaken k k' c c' w w' [] h i j a = tt
Under-weaken k k' c c' w w' (r ∷ rs) h i j ((x, y, z), a) = (
  (omega (arith, h, x), omega (arith, i, y), omega (arith, j, z)),
  Under-weaken k k' c c' w w' rs h i j a,
)

All-Under : (rs : List HealthRow) → All (Under (worst_rank rs) (most_crit rs) (most_warn rs)) rs
unfolding worst_rank most_crit most_warn
All-Under [] = tt
All-Under (r ∷ rs) = (
  (omega arith, omega arith, omega arith),
  Under-weaken (worst_rank rs) (max (state_rank r.state) (worst_rank rs)) (most_crit rs)
      (max r.crit (most_crit rs)) (most_warn rs) (max r.warn (most_warn rs)) rs (omega arith)
      (omega arith) (omega arith) (All-Under rs),
)

-- The worst rank is that of a reading.
worst_rank-Mem :
    (r : HealthRow) (rs : List HealthRow)
    → (w : HealthRow) × Mem w (r ∷ rs) × (state_rank w.state ≡ worst_rank (r ∷ rs))
unfolding worst_rank
worst_rank-Mem r [] = (r, mem-cons_self, omega arith)
worst_rank-Mem r (q ∷ rs) = elim (Bool-cases (ltb (state_rank r.state) (worst_rank (q ∷ rs)))) [
  | inl behind ↦
      let (w, m, e) = worst_rank-Mem q rs in (w, mem-cons_of_mem r m, ground (arith, behind, e))
  | inr first ↦ (r, mem-cons_self, ground (arith, first))
]

-- What an hour shows of its readings.
abbrev pub Shows : List HealthRow → HourlyState → Type 0
Shows rows s =
    (s.samples ≡ length rows)
    × All (Under (state_rank s.state) s.crit s.warn) rows
    × ((w : HealthRow) × Mem w rows × (state_rank w.state ≡ state_rank s.state))

grouped-Shows :
    (h : ℕ) (summary : String) (rows : List HealthRow)
    → ((rows ≡ []) × (grouped h summary rows ≡ none))
      ⊎ ((s : HourlyState) × (grouped h summary rows ≡ some s) × Shows rows s)
grouped-Shows h summary [] = inl (refl, refl)
grouped-Shows h summary (r ∷ rs) =
    let rows = r ∷ rs in
    let rank = state_rank-state_of_rank (worst_rank rows) (worst_rank_small rows) in
    let (w, m, e) = worst_rank-Mem r rs in
    inr (
      _,
      refl,
      (
        refl,
        subst (λ k. All (Under k (most_crit rows) (most_warn rows)) rows) (sym rank)
            (All-Under rows),
        (w, m, e ∙ sym rank),
      ),
    )

-- For every hour, either the host has no reading of that hour in the window and the hour is absent,
-- or the hour shows the number of its readings and a state that one of them had and that none of
-- them exceeds, and no reading has more critical findings or warnings than it shows.
pub hourly_history-Shows :
    (db : Db) (host : String) (since : Time) (h : ℕ)
    → ((in_hour h (series_rows host (unix since) db.history) ≡ [])
        × (hourly_history db host since h ≡ none))
      ⊎ ((s : HourlyState) × (hourly_history db host since h ≡ some s)
          × Shows (in_hour h (series_rows host (unix since) db.history)) s)
unfolding hourly_history
hourly_history-Shows db host since h =
    grouped-Shows h (summary_from (in_hour h (host_history host db.history)))
      (in_hour h (series_rows host (unix since) db.history))
