-- ===== src/Auth/Limiter/Tests.antt =====
-- Runs of the limiter at concrete histories.
use amarre.Base.{◌≤◌, ◌≡◌, refl, List, [], ◌∷◌, ltb, arith}
use amarre.Auth.Limiter.{new_limiter, kept_attempts, allow, reset}
use amarre.Auth.Limiter.Window.{Event, attempt, cleared, forget, run, recent}
use amarre.Auth.Limiter.Guarantee.{allow-eq-recent, recent-le-max}

-- Two attempts are allowed in ten units of time; the third of them is refused, the fifth is not.
abbrev history : List Event
history =
    attempt "a" 1
    ∷ attempt "b" 2
    ∷ attempt "a" 3
    ∷ attempt "a" 4
    ∷ cleared "b"
    ∷ attempt "a" 11
    ∷ []

history_run : recent 10 11 "a" (run history (new_limiter 2 10, [])).1 ≡ 2
unfolding recent run new_limiter allow reset kept_attempts forget
history_run = refl

allow-eq-recent_example :
    (allow (run history (new_limiter 2 10, [])).0 "a" 12).0
    ≡ ltb (recent 10 12 "a" (run history (new_limiter 2 10, [])).1) 2
allow-eq-recent_example = allow-eq-recent 2 10 history 0 "a" 12 (omega arith) (omega arith)

recent-le-max_example : recent 10 12 "a" (run history (new_limiter 2 10, [])).1 ≤ 2
recent-le-max_example = recent-le-max 2 10 history 0 "a" 12 (omega arith) (omega arith)
