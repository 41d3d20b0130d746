-- ===== src/Collector/Probing/Patience.antt =====
-- When a site is declared down.
use amarre.Base.{
  ℕ, zero, suc, ◌≤◌, ◌<◌, ◌≡◌, ◌≢◌, refl, sym, subst, ap, ◌∙◌, ◌⊎◌, inl, inr, Bool, true, false,
  none, some, arith, if◌then◌else◌, str_eq, ◌↔◌, ltb_ℤ, ◌≤ℤ◌, pos, negsuc, eq_of_parts, ℤ,
  is_zero_ℤ, Bool-cases, Time,
}
use amarre.Config.{HostConfig}
use amarre.Collector.Sante.{Probe}
use amarre.Collector.Probing.{
  Reply, no_request, failed, answered, Try, probe_attempts, equal_ℤ, accepts, probe_loop, want_of,
  new_probe, probe_http,
}
use amarre.Collector.Probing.Attempts.{passes, given_up, Verdict, probe_loop-Verdict}

-- The code that is wanted: the one of the configuration, and 200 where it has none.
abbrev pub IsWanted : HostConfig → ℤ → Type 0
IsWanted h want =
    ((h.http_expect ≡ pos 0) × (want ≡ pos 200))
    ⊎ ((h.http_expect ≢ pos 0) × (want ≡ h.http_expect))

-- An answer came, with the code that is wanted, or, where that is 200, with one below 400.
abbrev pub Expected : ℤ → Reply → Type 0
Expected want (no_request e) = ⊥
Expected want (failed l e) = ⊥
Expected want (answered l status cert) = (status ≡ want) ⊎ ((want ≡ pos 200) × (status ≤ℤ pos 399))

equal_ℤ_iff : (a b : ℤ) → (equal_ℤ a b ≡ true) ↔ (a ≡ b)
equal_ℤ_iff a b = (
  λ h. eq_of_parts a b (ground (arith, h)),
  λ h. subst (λ z. equal_ℤ a z ≡ true) h (ground arith),
)

below_400 : (s : ℤ) → (ltb_ℤ s (pos 400) ≡ true) ↔ (s ≤ℤ pos 399)
below_400 s = (λ h. ground (arith, h), λ h. ground (arith, h))

accepts_iff :
    (want s : ℤ) → (accepts want s ≡ true) ↔ ((s ≡ want) ⊎ ((want ≡ pos 200) × (s ≤ℤ pos 399)))
accepts_iff want s = ground (arith, equal_ℤ_iff s want, equal_ℤ_iff want (pos 200), below_400 s)

passes_iff : (want : ℤ) (r : Reply) → (passes want r ≡ true) ↔ Expected want r
passes_iff want (no_request e) = (λ h. cc, λ h. absurd h)
passes_iff want (failed l e) = (λ h. cc, λ h. absurd h)
passes_iff want (answered l s c) = accepts_iff want s

eq_zero : (x : ℤ) → is_zero_ℤ x ≡ true → x ≡ pos 0
eq_zero (pos n) h = ground (arith, h)
eq_zero (negsuc n) h = cc

want_of-IsWanted : (h : HostConfig) (want : ℤ) → IsWanted h want → want_of h ≡ want
want_of-IsWanted h want (inl (none_given, w)) =
    ap (λ x. if is_zero_ℤ x then pos 200 else x) none_given ∙ sym w
want_of-IsWanted h want (inr (given, w)) = elim (Bool-cases (is_zero_ℤ h.http_expect)) [
  | inl z ↦ absurd (given (eq_zero h.http_expect z))
  | inr n ↦ ap (λ b. if b then pos 200 else h.http_expect) n ∙ sym w
]

-- Every attempt from the first one on, of those before attempt `n`, failed.
abbrev pub AllMissed : ℤ → (ℕ → Try) → ℕ → Type 0
AllMissed want tries zero = Unit {0}
AllMissed want tries (suc zero) = Unit {0}
AllMissed want tries (suc (suc n)) =
    (¬ Expected want (tries (suc n)).reply) × AllMissed want tries (suc n)

all_missed :
    (want : ℤ) (tries : ℕ → Try) (n : ℕ)
    → ((j : ℕ) → 1 ≤ j → j < n → passes want (tries j).reply ≡ false)
    → AllMissed want tries n
all_missed want tries zero h = tt
all_missed want tries (suc zero) h = tt
all_missed want tries (suc (suc n)) h = (
  λ e. missed ((passes_iff want (tries (suc n)).reply).1 e),
  all_missed want tries (suc n) (λ j a b. h j a (omega (arith, b))),
)
  where
    missed : passes want (tries (suc n)).reply ≡ true → ⊥
    missed e = let f = h (suc n) (omega arith) (omega arith) in cc (e, f)

-- What a probe says after its last attempt.
abbrev pub Judged : ℤ → (ℕ → Try) → Probe → Type 0
Judged want tries p =
    ((p.up ≡ true) ↔ Expected want (tries p.attempts).reply)
    × (1 ≤ p.attempts)
    × (p.attempts ≤ 3)
    × AllMissed want tries p.attempts
    × ((p.up ≡ true) ⊎ (p.attempts ≡ 3) ⊎ (given_up (tries p.attempts) ≡ true))

Verdict-Judged :
    (want : ℤ) (tries : ℕ → Try) (p : Probe) → Verdict want tries 1 p → Judged want tries p
Verdict-Judged want tries p v =
    let last = passes_iff want (tries p.attempts).reply in
    (
      (λ e. last.0 (sym v.by_last ∙ e), λ e. v.by_last ∙ last.1 e),
      v.not_before,
      v.in_time,
      all_missed want tries p.attempts v.before,
      v.why,
    )

-- A site is shown as up exactly when the last attempt had an answer with the code that is wanted
-- (that of the configuration, or 200 where it has none) or, where that is 200, with one below 400;
-- and as down only after three attempts, or where the loop was left early because there was no
-- request to send or the context of the collection had ended; there is an attempt at least, and at
-- most three; and every attempt before the last one had no such answer.
pub probe_http-verdict :
    (h : HostConfig) (now : Time) (tries : ℕ → Try) (p : Probe) (want : ℤ)
    → IsWanted h want
    → probe_http h now tries ≡ some p
    → Judged want tries p
unfolding probe_http
probe_http-verdict h now tries p want w e =
    subst (λ n. Judged n tries p) (want_of-IsWanted h want w)
      (Verdict-Judged (want_of h) tries p (
        subst (λ r. Verdict (want_of h) tries 1 r) (some-inj (go (str_eq h.http_check "") e))
          (probe_loop-Verdict 2 (want_of h) 1 tries (new_probe h now) refl refl)))
  where
    loop : Probe
    loop = probe_loop probe_attempts (want_of h) 1 tries (new_probe h now)

    some-inj : some loop ≡ some p → loop ≡ p
    some-inj q = cc

    go : (b : Bool) → (if b then none else some loop) ≡ some p → some loop ≡ some p
    go true q = cc
    go false q = q
