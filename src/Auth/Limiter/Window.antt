-- ===== src/Auth/Limiter/Window.antt =====
-- The limiter against its specification: a log of the grants that were not reset, and a count of
-- those that are younger than the window.
use amarre.Base.{
  ℕ, ◌+◌, ◌≤◌, ◌≡◌, ◌≢◌, refl, Bool, true, false, String, List, [], ◌∷◌, ◌++◌, arith, leb,
  if◌then◌else◌, Bool-cases, inl, inr, length, str_eq, str_eq_iff, insert, IsMap, insert-IsMap,
  erase-IsMap, lookup-insert_self, lookup-insert_ne, lookup-erase_self, lookup-erase_ne, Time,
}
use amarre.Auth.Limiter.{Limiter, attempts_of, after_cutoff, kept_attempts, allow, reset}

pub data Event : Type 0 where
  attempt : String → Time → Event
  cleared : String → Event

-- The grants so far, newest first; a reset forgets those of its key.
abbrev pub Log : Type 0
Log = List (String × Time)

unfoldable pub forget : String → Log → Log
forget k [] = []
forget k ((j, t) ∷ g) = let rest = forget k g in if str_eq k j then rest else (j, t) ∷ rest

unfoldable pub record_grant : Bool → String → Time → Log → Log
record_grant true k t g = (k, t) ∷ g
record_grant false k t g = g

unfoldable pub step : Event → Limiter × Log → Limiter × Log
unfolding record_grant
step (attempt k t) (l, g) = let (granted, l') = allow l k t in (l', record_grant granted k t g)
step (cleared k) (l, g) = (reset l k, forget k g)

unfoldable pub run : List Event → Limiter × Log → Limiter × Log
unfolding step
run [] s = s
run (e ∷ es) s = run es (step e s)

-- The grants of a key that are younger than the window at `now`.
unfoldable pub recent : ℕ → Time → String → Log → ℕ
recent w now k [] = 0
recent w now k ((j, t) ∷ g) =
    (if str_eq k j then (if after_cutoff w now t then 1 else 0) else 0) + recent w now k g

-- The clock does not go back along the events.
abbrev pub Ordered : Time → List Event → Type 0
Ordered n [] = Unit {0}
Ordered n (attempt k t ∷ es) = (n ≤ t) × Ordered t es
Ordered n (cleared k ∷ es) = Ordered n es

abbrev pub last_time : Time → List Event → Time
last_time n [] = n
last_time n (attempt k t ∷ es) = last_time t es
last_time n (cleared k ∷ es) = last_time n es

unfoldable pub young : ℕ → Time → List Time → ℕ
young w now [] = 0
young w now (t ∷ ts) = (if after_cutoff w now t then 1 else 0) + young w now ts

young-append :
    (w : ℕ) (now t : Time) (ts : List Time)
    → young w now (ts ++ t ∷ []) ≡ young w now ts + young w now (t ∷ [])
unfolding young
young-append w now t [] = omega arith
young-append w now t (x ∷ ts) = omega (arith, young-append w now t ts)

-- What the filter drops has left the window for good.
young-kept_attempts :
    (w : ℕ) (now later : Time) (ts : List Time)
    → now ≤ later
    → young w later (kept_attempts w now ts) ≡ young w later ts
unfolding young kept_attempts
young-kept_attempts w now later [] h = refl
young-kept_attempts w now later (t ∷ ts) h = ground (arith, young-kept_attempts w now later ts)

pub young-kept_attempts_self :
    (w : ℕ) (now : Time) (ts : List Time) → young w now ts ≡ length (kept_attempts w now ts)
unfolding young kept_attempts
young-kept_attempts_self w now [] = refl
young-kept_attempts_self w now (t ∷ ts) = ground (arith, young-kept_attempts_self w now ts)

recent-forget_self : (w : ℕ) (now : Time) (k : String) (g : Log) → recent w now k (forget k g) ≡ 0
unfolding recent forget
recent-forget_self w now k [] = refl
recent-forget_self w now k ((j, t) ∷ g) = ground (arith, recent-forget_self w now k g)

recent-forget_ne :
    (w : ℕ) (now : Time) (k j : String) (g : Log)
    → k ≢ j
    → recent w now k (forget j g) ≡ recent w now k g
unfolding recent forget
recent-forget_ne w now k j [] h = refl
recent-forget_ne w now k j ((i, t) ∷ g) h =
    ground (arith, str_eq_iff j i, str_eq_iff k i, recent-forget_ne w now k j g)

-- The limiter keeps, for every key, the grants that are still young, and no other.
pub record Tracks (now : Time) (s : Limiter × Log) : Type 0 where
  pub agrees :
      (k : String) (later : Time)
      → now ≤ later
      → recent s.0.window later k s.1 ≡ young s.0.window later (attempts_of s.0 k)
  pub is_map : IsMap s.0.attempts

pub attempts_of-insert_self :
    (l : Limiter) (k : String) (ts : List Time)
    → attempts_of (record l { attempts = insert k ts l.attempts }) k ≡ ts
attempts_of-insert_self l k ts = rw (lookup-insert_self k ts l.attempts, attempts_of)

pub attempts_of-insert_ne :
    (l : Limiter) (j k : String) (ts : List Time)
    → j ≢ k
    → attempts_of (record l { attempts = insert k ts l.attempts }) j ≡ attempts_of l j
attempts_of-insert_ne l j k ts h = rw (lookup-insert_ne j k ts l.attempts h, attempts_of)

pub attempts_of-reset_self :
    (l : Limiter) (k : String) → IsMap l.attempts → attempts_of (reset l k) k ≡ []
unfolding reset
attempts_of-reset_self l k m = rw (lookup-erase_self k l.attempts m, attempts_of)

pub attempts_of-reset_ne :
    (l : Limiter) (j k : String) → j ≢ k → attempts_of (reset l k) j ≡ attempts_of l j
unfolding reset
attempts_of-reset_ne l j k h = rw (lookup-erase_ne j k l.attempts h, attempts_of)

recent-record_grant :
    (granted : Bool) (w : ℕ) (later t : Time) (j k : String) (g : Log)
    → recent w later j (record_grant granted k t g)
      ≡ recent w later j g
        + (if granted then (if str_eq j k then young w later (t ∷ []) else 0) else 0)
unfolding recent record_grant young
recent-record_grant true w later t j k g = ground arith
recent-record_grant false w later t j k g = omega arith

-- What one call does to the entry of its key.
allow-young :
    (l : Limiter) (k : String) (now later : Time)
    → now ≤ later
    → young l.window later (attempts_of (allow l k now).1 k)
      ≡ young l.window later (attempts_of l k)
        + (if (allow l k now).0 then young l.window later (now ∷ []) else 0)
unfolding allow
allow-young l k now later h =
    elim (Bool-cases (leb l.max (length (kept_attempts l.window now (attempts_of l k))))) [
      | inl full ↦
          rw (full, attempts_of-insert_self l k (kept_attempts l.window now (attempts_of l k)))
            (omega (arith, young-kept_attempts l.window now later (attempts_of l k) h))
      | inr room ↦
          rw
            (
              room,
              attempts_of-insert_self l k
                  (kept_attempts l.window now (attempts_of l k) ++ now ∷ []),
            )
            (omega (
              arith,
              young-append l.window later now (kept_attempts l.window now (attempts_of l k)),
              young-kept_attempts l.window now later (attempts_of l k) h,
            ))
    ]

allow_others :
    (l : Limiter) (j k : String) (now : Time)
    → j ≢ k
    → attempts_of (allow l k now).1 j ≡ attempts_of l j
unfolding allow
allow_others l j k now h =
    elim (Bool-cases (leb l.max (length (kept_attempts l.window now (attempts_of l k))))) [
      | inl full ↦ rw full (attempts_of-insert_ne l j k _ h)
      | inr room ↦ rw room (attempts_of-insert_ne l j k _ h)
    ]

-- The settings of the limiter do not change, and the map stays a map.
allow_keeps :
    (l : Limiter) (k : String) (now : Time)
    → IsMap l.attempts
    → ((allow l k now).1.window ≡ l.window)
      × ((allow l k now).1.max ≡ l.max)
      × IsMap (allow l k now).1.attempts
unfolding allow
allow_keeps l k now m =
    elim (Bool-cases (leb l.max (length (kept_attempts l.window now (attempts_of l k))))) [
      | inl full ↦ rw full (refl, refl, insert-IsMap k _ l.attempts m)
      | inr room ↦ rw room (refl, refl, insert-IsMap k _ l.attempts m)
    ]

attempt_agrees :
    (now t : Time) (k : String) (l : Limiter) (g : Log)
    → now ≤ t
    → Tracks now (l, g)
    → (j : String) (later : Time) → t ≤ later
    → recent l.window later j (record_grant (allow l k t).0 k t g)
      ≡ young l.window later (attempts_of (allow l k t).1 j)
attempt_agrees now t k l g h tr j later p = elim (Bool-cases (str_eq j k)) [
  | inl same ↦
      let e : j ≡ k = (str_eq_iff j k).0 same in
      rw (
        recent-record_grant (allow l k t).0 l.window later t j k g,
        same,
        e,
        allow-young l k t later p,
        tr.agrees k later (omega arith),
      )
  | inr other ↦
      rw
        (
          recent-record_grant (allow l k t).0 l.window later t j k g,
          other,
          allow_others l j k t (ne_of other),
        )
        (ground (arith, tr.agrees j later))
]
  where
    ne_of : str_eq j k ≡ false → j ≢ k
    ne_of f e = ground (arith, str_eq_iff j k)

pub step-Tracks :
    (now t : Time) (k : String) (s : Limiter × Log)
    → now ≤ t
    → Tracks now s
    → Tracks t (step (attempt k t) s)
unfolding step
step-Tracks now t k (l, g) h tr =
    let kept = allow_keeps l k t tr.is_map in
    record {
      agrees = λ j later p. rw kept.0 (attempt_agrees now t k l g h tr j later p);
      is_map = kept.2;
    }

pub cleared-Tracks :
    (now : Time) (k : String) (s : Limiter × Log) → Tracks now s → Tracks now (step (cleared k) s)
unfolding step reset young
cleared-Tracks now k (l, g) tr = record {
  agrees = λ j later p. elim (Bool-cases (str_eq j k)) [
    | inl same ↦
        let e : j ≡ k = (str_eq_iff j k).0 same in
        rw (e, recent-forget_self l.window later k g) (rw (attempts_of-reset_self l k tr.is_map))
    | inr other ↦
        rw
          (
            recent-forget_ne l.window later j k g (λ e. ground (arith, str_eq_iff j k)),
            attempts_of-reset_ne l j k (λ e. ground (arith, str_eq_iff j k)),
          )
          (tr.agrees j later p)
  ];
  is_map = erase-IsMap k l.attempts tr.is_map;
}

pub run-Tracks :
    (es : List Event) (now : Time) (s : Limiter × Log)
    → Ordered now es
    → Tracks now s
    → Tracks (last_time now es) (run es s)
unfolding run
run-Tracks [] now s o tr = tr
run-Tracks (attempt k t ∷ es) now s o tr =
    run-Tracks es t (step (attempt k t) s) o.1 (step-Tracks now t k s o.0 tr)
run-Tracks (cleared k ∷ es) now s o tr =
    run-Tracks es now (step (cleared k) s) o (cleared-Tracks now k s tr)
