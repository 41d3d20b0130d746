-- ===== src/Collector/Backoff/Waits.antt =====
-- How long a host that fails is left alone.
use native.Mathlib.Nat.{
  pow-le-pow_right, one-le-pow, mul-le-mul_left, le-mul_of_pos_right, min-le_right,
}
use amarre.Base.{
  ℕ, ◌-◌, ◌%◌, ◌+◌, ◌*◌, ◌^◌, ◌≤◌, ◌<◌, ◌≡◌, ◌≢◌, refl, ap, ◌∙◌, true, String, none, some, List, [],
  ◌∷◌, ◌++◌, arith, ltb, lt→ltb, if◌then◌else◌, pos, ltb_ℤ, shl64, bits64, of_bits64, min, Time,
  Duration, hour, add_time, Dict, lookup, lookup-insert_self, lookup-insert_ne, lookup-erase_ne,
  lookup-erase_self, IsMap, length,
}
use amarre.Collector.Backoff.{
  Backoff, max_backoff, is_due, due, fails_of, delay, note_failure, note_success,
}

-- The failures of a host at the given times, one after the other.
unfoldable pub fail_all : Duration → String → List Time → Dict Backoff → Dict Backoff
unfolding note_failure
fail_all interval host [] bo = bo
fail_all interval host (t ∷ ts) bo = fail_all interval host ts (note_failure interval bo host t).0

-- The wait after `n` failures in a row: the interval doubled each time, up to six hours.
abbrev pub wait : ℕ → ℕ → ℕ
wait i n = min (i * 2 ^ min n 8) (6 * hour)

pow_le : (n : ℕ) → 2 ^ min n 8 ≤ 256
pow_le n = pow-le-pow_right (omega arith) (min-le_right n 8)

shifted : (a q : ℕ) → a * q < 2 ^ 63 → a ≤ a * q → of_bits64 (bits64 (pos a) * q) ≡ pos (a * q)
unfolding of_bits64 bits64
shifted a q h le =
    let small : (a + 2 ^ 64 - 0) % 2 ^ 64 ≡ a = omega arith in
    let fits : (a * q) % 2 ^ 64 ≡ a * q = omega arith in
    rw (small, fits, lt→ltb (a * q) (2 ^ 63) h) refl

grows : (i q : ℕ) → 1 ≤ q → i ≤ i * q
grows i q h = le-mul_of_pos_right i h

capped : (i q : ℕ) → q ≤ 256 → i * 256 < 2 ^ 63 → i * q < 2 ^ 63
capped i q h k = omega (arith, mul-le-mul_left i h)

cut : (d m : ℕ) → (if ltb_ℤ (pos m) (pos d) then pos m else pos d) ≡ pos (min d m)
cut d m = ground arith

delay-wait : (i n : ℕ) → i * 256 < 2 ^ 63 → delay (pos i) n ≡ pos (wait i n)
unfolding delay shl64
delay-wait i n h =
    let q = 2 ^ min n 8 in
    rw (shifted i q (capped i q (pow_le n) h) (grows i q (one-le-pow (min n 8) 2 (omega arith))))
      (cut (i * q) max_backoff)

lookup-note_failure :
    (interval : Duration) (bo : Dict Backoff) (host : String) (t : Time)
    → lookup host (note_failure interval bo host t).0
      ≡ some (record {
        fails = fails_of (lookup host bo);
        next_try = add_time t (delay interval (fails_of (lookup host bo)));
      })
unfolding note_failure
lookup-note_failure interval bo host t = lookup-insert_self host _ bo

due-note_failure :
    (i : ℕ) (bo : Dict Backoff) (host : String) (t now : Time)
    → i * 256 < 2 ^ 63
    → due (note_failure (pos i) bo host t).0 host now
      ≡ ltb (t + wait i (fails_of (lookup host bo))) now
unfolding due
due-note_failure i bo host t now h =
    ap (is_due now) (lookup-note_failure (pos i) bo host t)
    ∙ ap (λ d. ltb (add_time t d) now) (delay-wait i (fails_of (lookup host bo)) h)

due-fail_all :
    (i : ℕ) (host : String) (ts : List Time) (t now : Time) (bo : Dict Backoff)
    → i * 256 < 2 ^ 63
    → due (fail_all (pos i) host (ts ++ t ∷ []) bo) host now
      ≡ ltb (t + wait i (fails_of (lookup host bo) + length ts)) now
unfolding fail_all
due-fail_all i host [] t now bo h =
    due-note_failure i bo host t now h ∙ ap (λ n. ltb (t + wait i n) now) (omega arith)
due-fail_all i host (u ∷ ts) t now bo h =
    due-fail_all i host ts t now (note_failure (pos i) bo host u).0 h
    ∙ ap (λ n. ltb (t + wait i n) now) (rw (lookup-note_failure (pos i) bo host u) (omega arith))

-- After `n` failures in a row of a host without a backoff, the last one at `t`, the host is
-- queried again exactly when more than `min (interval * 2 ^ min n 8) 6h` has passed since `t`,
-- for an interval below 2 ^ 63 / 256 nanoseconds.
pub due-failures :
    (i : ℕ) (host : String) (ts : List Time) (t now : Time) (bo : Dict Backoff)
    → i * 256 < 2 ^ 63
    → lookup host bo ≡ none
    → due (fail_all (pos i) host (ts ++ t ∷ []) bo) host now ≡ ltb (t + wait i (1 + length ts)) now
due-failures i host ts t now bo h e =
    due-fail_all i host ts t now bo h ∙ ap (λ o. ltb (t + wait i (fails_of o + length ts)) now) e

-- A success makes the host due at once, and neither a success nor a failure of a host changes
-- when another host is due.
pub due-note_success :
    (interval : Duration) (host other : String) (t now : Time) (bo : Dict Backoff)
    → IsMap bo
    → other ≢ host
    → (due (note_success bo host) host now ≡ true)
      × (due (note_success bo host) other now ≡ due bo other now)
      × (due (note_failure interval bo host t).0 other now ≡ due bo other now)
unfolding due note_success note_failure
due-note_success interval host other t now bo h ne = (
  ap (is_due now) (lookup-erase_self host bo h),
  ap (is_due now) (lookup-erase_ne other host bo ne),
  ap (is_due now) (lookup-insert_ne other host _ bo ne),
)
