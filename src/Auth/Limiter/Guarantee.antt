-- ===== src/Auth/Limiter/Guarantee.antt =====
-- What `Allow` and `Reset` promise along any sequence of calls.
use amarre.Base.{
  ℕ, ◌≤◌, ◌≡◌, refl, subst, false, ◌++◌, IsMap, String, List, [], ◌∷◌, arith, ltb, leb, Bool-cases,
  inl, inr, length, length-append, str_eq, str_eq_iff, Time,
}
use amarre.Auth.Limiter.{Limiter, new_limiter, attempts_of, kept_attempts, allow, reset}
use amarre.Auth.Limiter.Window.{
  Event, attempt, cleared, Log, run, step, recent, Ordered, last_time, Tracks, young,
  young-kept_attempts_self, run-Tracks, step-Tracks, cleared-Tracks, attempts_of-insert_self,
  attempts_of-insert_ne, attempts_of-reset_self, attempts_of-reset_ne,
}

new_limiter-Tracks : (max window : ℕ) (now : Time) → Tracks now (new_limiter max window, [])
unfolding new_limiter recent young
new_limiter-Tracks max window now = record { agrees = λ k later h. refl; is_map = tt }

step_settings :
    (e : Event) (s : Limiter × Log)
    → ((step e s).0.window ≡ s.0.window) × ((step e s).0.max ≡ s.0.max)
unfolding step allow reset
step_settings (attempt k t) (l, g) = ground arith
step_settings (cleared k) (l, g) = (refl, refl)

run_settings :
    (es : List Event) (s : Limiter × Log)
    → ((run es s).0.window ≡ s.0.window) × ((run es s).0.max ≡ s.0.max)
unfolding run
run_settings [] s = (refl, refl)
run_settings (e ∷ es) s =
    let (w, m) = run_settings es (step e s) in
    let (w', m') = step_settings e s in (rw w w', rw m m')

allow-young_count :
    (l : Limiter) (k : String) (t : Time)
    → (allow l k t).0 ≡ ltb (young l.window t (attempts_of l k)) l.max
unfolding allow
allow-young_count l k t = rw (young-kept_attempts_self l.window t (attempts_of l k)) (ground arith)

-- The grants that the specification counts are those that the limiter kept.
run_tracked :
    (max window : ℕ) (es : List Event) (start : Time) (k : String) (t : Time)
    → Ordered start es
    → last_time start es ≤ t
    → let (l, g) = run es (new_limiter max window, []) in
      recent window t k g ≡ young l.window t (attempts_of l k)
unfolding new_limiter
run_tracked max window es start k t o h =
    let first = new_limiter max window in
    let s = run es (first, []) in
    let tr = run-Tracks es start (first, []) o (new_limiter-Tracks max window start) in
    subst (λ w. recent w t k s.1 ≡ young s.0.window t (attempts_of s.0 k))
      (run_settings es (first, [])).0 (tr.agrees k t h)

-- After any sequence of attempts and resets that the clock orders, an attempt is granted exactly
-- when fewer than `max` grants of its key, since the last reset of the key, are younger than the
-- window.
pub allow-eq-recent :
    (max window : ℕ) (es : List Event) (start : Time) (k : String) (t : Time)
    → Ordered start es
    → last_time start es ≤ t
    → let (l, g) = run es (new_limiter max window, []) in
      (allow l k t).0 ≡ ltb (recent window t k g) max
unfolding new_limiter
allow-eq-recent max window es start k t o h =
    let first = new_limiter max window in
    let l = (run es (first, [])).0 in
    rw (run_tracked max window es start k t o h) (
      subst (λ m. (allow l k t).0 ≡ ltb (young l.window t (attempts_of l k)) m)
        (run_settings es (first, [])).1 (allow-young_count l k t))

abbrev Bounded : Limiter → Type 0
Bounded l = (k : String) → length (attempts_of l k) ≤ l.max

length-kept_attempts :
    (w : ℕ) (now : Time) (ts : List Time) → length (kept_attempts w now ts) ≤ length ts
unfolding kept_attempts
length-kept_attempts w now [] = omega arith
length-kept_attempts w now (t ∷ ts) = ground (arith, length-kept_attempts w now ts)

young-le-length : (w : ℕ) (now : Time) (ts : List Time) → young w now ts ≤ length ts
unfolding young
young-le-length w now [] = omega arith
young-le-length w now (t ∷ ts) = ground (arith, young-le-length w now ts)

allow-Bounded : (l : Limiter) (k : String) (t : Time) → Bounded l → Bounded (allow l k t).1
unfolding allow
allow-Bounded l k t b j = elim (Bool-cases (str_eq j k)) [
  | inl same ↦
      let e : j ≡ k = (str_eq_iff j k).0 same in
      elim (Bool-cases (leb l.max (length kept))) [
        | inl full ↦ rw (full, e, attempts_of-insert_self l k kept) shorter
        | inr room ↦
            rw (room, e, attempts_of-insert_self l k (kept ++ t ∷ []), length-append kept (t ∷ []))
              (ground arith)
      ]
  | inr other ↦
      let ne = λ (e : j ≡ k). differs e other in
      elim (Bool-cases (leb l.max (length kept))) [
        | inl full ↦ rw (full, attempts_of-insert_ne l j k kept ne) (b j)
        | inr room ↦ rw (room, attempts_of-insert_ne l j k (kept ++ t ∷ []) ne) (b j)
      ]
]
  where
    kept : List Time
    kept = kept_attempts l.window t (attempts_of l k)

    shorter : length kept ≤ l.max
    shorter = omega (arith, length-kept_attempts l.window t (attempts_of l k), b k)

    differs : j ≡ k → str_eq j k ≡ false → ⊥
    differs e f = ground (arith, str_eq_iff j k)

reset-max : (l : Limiter) (k : String) → (reset l k).max ≡ l.max
unfolding reset
reset-max l k = refl

reset-Bounded : (l : Limiter) (k : String) → IsMap l.attempts → Bounded l → Bounded (reset l k)
reset-Bounded l k m b j = elim (Bool-cases (str_eq j k)) [
  | inl same ↦
      let e : j ≡ k = (str_eq_iff j k).0 same in rw (e, attempts_of-reset_self l k m) (omega arith)
  | inr other ↦
      rw (attempts_of-reset_ne l j k (λ e. ground (arith, str_eq_iff j k)))
        (rw (reset-max l k) (b j))
]

step-Bounded :
    (e : Event) (s : Limiter × Log) → IsMap s.0.attempts → Bounded s.0 → Bounded (step e s).0
unfolding step
step-Bounded (attempt k t) (l, g) m b = allow-Bounded l k t b
step-Bounded (cleared k) (l, g) m b = reset-Bounded l k m b

run-Bounded :
    (es : List Event) (now : Time) (s : Limiter × Log)
    → Ordered now es
    → Tracks now s
    → Bounded s.0
    → Bounded (run es s).0
unfolding run
run-Bounded [] now s o tr b = b
run-Bounded (attempt k t ∷ es) now s o tr b =
    run-Bounded es t (step (attempt k t) s) o.1 (step-Tracks now t k s o.0 tr)
      (step-Bounded (attempt k t) s tr.is_map b)
run-Bounded (cleared k ∷ es) now s o tr b =
    run-Bounded es now (step (cleared k) s) o (cleared-Tracks now k s tr)
      (step-Bounded (cleared k) s tr.is_map b)

-- Along any sequence of attempts and resets that the clock orders, every window that ends at or
-- after the last call holds at most `max` grants of a key since the last reset of the key.
pub recent-le-max :
    (max window : ℕ) (es : List Event) (start : Time) (k : String) (t : Time)
    → Ordered start es
    → last_time start es ≤ t
    → recent window t k (run es (new_limiter max window, [])).1 ≤ max
unfolding new_limiter
recent-le-max max window es start k t o h =
    let first = new_limiter max window in
    let l = (run es (first, [])).0 in
    let b =
      run-Bounded es start (first, []) o (new_limiter-Tracks max window start) (λ j. omega arith) in
    omega (
      arith,
      run_tracked max window es start k t o h,
      young-le-length l.window t (attempts_of l k),
      b k,
      (run_settings es (first, [])).1,
    )
