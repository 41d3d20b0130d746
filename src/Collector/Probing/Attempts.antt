-- ===== src/Collector/Probing/Attempts.antt =====
-- What the loop of attempts leaves.
use amarre.Base.{
  ℕ, zero, suc, ◌+◌, ◌≤◌, ◌<◌, ◌≡◌, refl, sym, subst, ap, ◌∙◌, ◌⊎◌, inl, inr, Bool, true, false,
  Option, arith, ltb, Bool-cases, ℤ, Time, Duration,
}
use amarre.Collector.Sante.{Probe}
use amarre.Collector.Probing.{
  Reply, no_request, failed, answered, Try, accepts, attempt, stops, probe_loop,
}

-- The response is the one that is expected.
abbrev pub passes : ℤ → Reply → Bool
passes want (no_request e) = false
passes want (failed l e) = false
passes want (answered l status cert) = accepts want status

-- The loop was left at this attempt without a success: there was no request to send, or the
-- context ended.
abbrev pub given_up : Try → Bool
given_up t = elim t.reply [
  | no_request e ↦ true
  | failed l e ↦ t.cancelled
  | answered l s c ↦ t.cancelled
]

attempt-up :
    (want : ℤ) (i : ℕ) (r : Reply) (p : Probe)
    → p.up ≡ false
    → (attempt want i r p).0.up ≡ passes want r
unfolding attempt
attempt-up want i (no_request e) p h = h
attempt-up want i (failed l e) p h = h
attempt-up want i (answered l s c) p h = elim (Bool-cases (accepts want s)) [
  | inl hit ↦ rw hit refl
  | inr miss ↦ rw miss h
]

attempt-attempts : (want : ℤ) (i : ℕ) (r : Reply) (p : Probe) → (attempt want i r p).0.attempts ≡ i
unfolding attempt
attempt-attempts want i (no_request e) p = refl
attempt-attempts want i (failed l e) p = refl
attempt-attempts want i (answered l s c) p = elim (Bool-cases (accepts want s)) [
  | inl hit ↦ rw hit refl
  | inr miss ↦ rw miss refl
]

attempt-done :
    (want : ℤ) (i : ℕ) (p : Probe) (l : Duration) (s : ℤ) (c : Option Time)
    → (attempt want i (answered l s c) p).1 ≡ accepts want s
unfolding attempt
attempt-done want i p l s c = elim (Bool-cases (accepts want s)) [
  | inl hit ↦ rw hit refl
  | inr miss ↦ rw miss refl
]

cancelled-given_up : (t : Try) → t.cancelled ≡ true → given_up t ≡ true
cancelled-given_up t h = go t.reply
  where
    go :
        (r : Reply)
        → (elim r [ no_request e ↦ true | failed l e ↦ t.cancelled | answered l s c ↦ t.cancelled ])
          ≡ true
    go (no_request e) = refl
    go (failed l e) = h
    go (answered l s c) = h

attempt-returned :
    (want : ℤ) (i : ℕ) (t : Try) (p : Probe)
    → (attempt want i t.reply p).1 ≡ true
    → (passes want t.reply ≡ true) ⊎ (given_up t ≡ true)
unfolding attempt
attempt-returned want i t p h = go t.reply h
  where
    go :
        (r : Reply)
        → (attempt want i r p).1 ≡ true
        → (passes want r ≡ true)
          ⊎ ((elim r [
            | no_request e ↦ true
            | failed l e ↦ t.cancelled
            | answered l s c ↦ t.cancelled
          ])
              ≡ true)
    go (no_request e) k = inr refl
    go (failed l e) k = absurd (cc k)
    go (answered l s c) k = inl (sym (attempt-done want i p l s c) ∙ k)

-- What the loop leaves, from attempt `i` on.
pub record Verdict (want : ℤ) (tries : ℕ → Try) (i : ℕ) (q : Probe) : Type 0 where
  pub by_last : q.up ≡ passes want (tries q.attempts).reply
  pub not_before : i ≤ q.attempts
  pub in_time : q.attempts ≤ 3
  pub before : (j : ℕ) → i ≤ j → j < q.attempts → passes want (tries j).reply ≡ false
  pub why : (q.up ≡ true) ⊎ (q.attempts ≡ 3) ⊎ (given_up (tries q.attempts) ≡ true)

at_attempt :
    (want : ℤ) (i : ℕ) (tries : ℕ → Try) (p : Probe)
    → p.up ≡ false
    → i ≤ 3
    → (passes want (tries i).reply ≡ true) ⊎ (i ≡ 3) ⊎ (given_up (tries i) ≡ true)
    → Verdict want tries i (attempt want i (tries i).reply p).0
at_attempt want i tries p h le why =
    let here = attempt-attempts want i (tries i).reply p in
    let verdict = attempt-up want i (tries i).reply p h in
    record {
      by_last = verdict ∙ ap (λ n. passes want (tries n).reply) (sym here);
      not_before = omega (arith, here);
      in_time = omega (arith, here);
      before = λ j a b. absurd (omega (arith, here));
      why = elim why [
        | inl up ↦ inl (verdict ∙ up)
        | inr (inl last) ↦ inr (inl (here ∙ last))
        | inr (inr g) ↦ inr (inr (ap (λ n. given_up (tries n)) here ∙ g))
      ];
    }

-- A later verdict, after an attempt that did not pass.
later :
    (want : ℤ) (i : ℕ) (tries : ℕ → Try) (q : Probe)
    → passes want (tries i).reply ≡ false
    → Verdict want tries (i + 1) q
    → Verdict want tries i q
later want i tries q miss v = record {
  by_last = v.by_last;
  not_before = omega (arith, v.not_before);
  in_time = v.in_time;
  before = λ j a b. elim (le_cases i j a) [
    | inl same ↦ subst (λ n. passes want (tries n).reply ≡ false) same miss
    | inr beyond ↦ v.before j beyond b
  ];
  why = v.why;
}
  where
    le_cases : (m n : ℕ) → m ≤ n → (m ≡ n) ⊎ (m + 1 ≤ n)
    le_cases m n k = elim (Bool-cases (ltb m n)) [
      | inl less ↦ inr (ground (arith, less))
      | inr more ↦ inl (ground (arith, more))
    ]

not_returned :
    (want : ℤ) (i : ℕ) (r : Reply) (p : Probe)
    → (attempt want i r p).1 ≡ false
    → passes want r ≡ false
unfolding attempt
not_returned want i (no_request e) p h = refl
not_returned want i (failed l e) p h = refl
not_returned want i (answered l s c) p h = sym (attempt-done want i p l s c) ∙ h

-- An attempt after which the loop stops.
stops-why :
    (want : ℤ) (i : ℕ) (t : Try) (p : Probe)
    → stops (attempt want i t.reply p).1 i t ≡ true
    → (passes want t.reply ≡ true) ⊎ (given_up t ≡ true)
stops-why want i t p h = elim (Bool-cases (attempt want i t.reply p).1) [
  | inl returned ↦ attempt-returned want i t p returned
  | inr goes_on ↦ inr (cancelled-given_up t (ground (arith, goes_on, h)))
]

stops-not :
    (want : ℤ) (i : ℕ) (t : Try) (p : Probe)
    → stops (attempt want i t.reply p).1 i t ≡ false
    → passes want t.reply ≡ false
stops-not want i t p h = not_returned want i t.reply p (ground (arith, h))

pub probe_loop-Verdict :
    (left : ℕ) (want : ℤ) (i : ℕ) (tries : ℕ → Try) (p : Probe)
    → p.up ≡ false
    → left + i ≡ 3
    → Verdict want tries i (probe_loop (suc left) want i tries p)
unfolding probe_loop
probe_loop-Verdict zero want i tries p h e =
    let done = at_attempt want i tries p h (omega arith) (inr (inl (omega arith))) in
    elim (Bool-cases (stops (attempt want i (tries i).reply p).1 i (tries i))) [
      | inl stop ↦ rw stop done
      | inr on ↦ rw on done
    ]
probe_loop-Verdict (suc left) want i tries p h e =
    elim (Bool-cases (stops (attempt want i (tries i).reply p).1 i (tries i))) [
      | inl stop ↦ rw stop (
          at_attempt want i tries p h (omega arith)
            (elim (stops-why want i (tries i) p stop) [ inl up ↦ inl up | inr g ↦ inr (inr g) ]))
      | inr on ↦
          let miss = stops-not want i (tries i) p on in
          rw on (
            later want i tries _ miss (
              probe_loop-Verdict left want (i + 1) tries (attempt want i (tries i).reply p).0
                (attempt-up want i (tries i).reply p h ∙ miss) (omega arith)))
    ]
