-- ===== src/Auth/Limiter.antt =====
-- The rate limit of auth.go: `Limiter`, `NewLimiter`, `Allow` and `Reset`. The clock reading of a
-- call is an argument; the mutex makes each call one step.
pub mod Window
pub mod Guarantee
mod Tests
use amarre.Base.{
  ℕ, ◌+◌, Bool, true, false, String, Option, none, some, List, [], ◌∷◌, ◌++◌, leb, ltb,
  if◌then◌else◌, length, Dict, lookup, insert, erase, Time,
}

pub record Limiter : Type 0 where
  pub attempts : Dict (List Time)
  pub max : ℕ
  pub window : ℕ

unfoldable pub new_limiter : ℕ → ℕ → Limiter
new_limiter max window = record { attempts = []; max = max; window = window }

-- `l.attempts[key]`: a missing key reads as the empty slice.
abbrev pub attempts_of : Limiter → String → List Time
attempts_of l key = elim (lookup key l.attempts) [ none ↦ [] | some ts ↦ ts ]

-- `t.After(now.Add(-window))`, with the window on the other side.
abbrev pub after_cutoff : ℕ → Time → Time → Bool
after_cutoff window now t = ltb now (t + window)

-- The loop of `Allow` that filters the slice in place.
unfoldable pub kept_attempts : ℕ → Time → List Time → List Time
kept_attempts window now [] = []
kept_attempts window now (t ∷ ts) =
    let rest = kept_attempts window now ts in if after_cutoff window now t then t ∷ rest else rest

unfoldable pub allow : Limiter → String → Time → Bool × Limiter
allow l key now =
    let kept = kept_attempts l.window now (attempts_of l key) in
    if leb l.max (length kept)
    then (false, record l { attempts = insert key kept l.attempts })
    else (true, record l { attempts = insert key (kept ++ now ∷ []) l.attempts })

unfoldable pub reset : Limiter → String → Limiter
reset l key = record l { attempts = erase key l.attempts }
