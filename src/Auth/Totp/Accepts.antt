-- ===== src/Auth/Totp/Accepts.antt =====
-- Which codes `VerifyTOTP` accepts, and that the truncation never leaves the sum.
use amarre.Base.{
  ℕ, zero, suc, ◌+◌, ◌-◌, ◌*◌, ◌/◌, ◌%◌, ◌^◌, ◌≤◌, ◌<◌, ◌≡◌, ◌≢◌, refl, subst, ◌↔◌, ◌⊎◌, inl, inr,
  true, false, none, some, List, [], ◌∷◌, arith, ltb, ◌==◌, Bool-cases, length, drop, Time, unix,
}
use amarre.Auth.Totp.{
  Bytes, Mac, Code, code, bad_secret, panic, totp_period, last_byte, be32, be32_at, six_digits,
  truncate, same_bytes, be64, totp_at, judge, try_counters, counters, verify_totp,
}

last_byte-some : (b : ℕ) (bs : Bytes) → (v : ℕ) × (last_byte (b ∷ bs) ≡ some v)
unfolding last_byte
last_byte-some b [] = (b, refl)
last_byte-some b (c ∷ bs) = last_byte-some c bs

length-drop : (n : ℕ) (bs : Bytes) → length (drop n bs) + n ≡ length bs ⊎ (length bs < n)
length-drop zero bs = inl (omega arith)
length-drop (suc n) [] = inr (omega arith)
length-drop (suc n) (b ∷ bs) = omega (arith, length-drop n bs)

be32-some : (bs : Bytes) → 4 ≤ length bs → (v : ℕ) × (be32 bs ≡ some v)
unfolding be32
be32-some [] h = absurd (omega arith)
be32-some (a ∷ []) h = absurd (omega arith)
be32-some (a ∷ b ∷ []) h = absurd (omega arith)
be32-some (a ∷ b ∷ c ∷ []) h = absurd (omega arith)
be32-some (a ∷ b ∷ c ∷ d ∷ rest) h = (a * 2 ^ 24 + b * 2 ^ 16 + c * 2 ^ 8 + d, refl)

be32_at-some : (sum : Bytes) (off : ℕ) → off + 4 ≤ length sum → (v : ℕ) × (be32_at sum off ≡ some v)
unfolding be32_at
be32_at-some sum off h = be32-some (drop off sum) (omega (arith, length-drop off sum))

truncate-code :
    (sum : Bytes) → length sum ≡ 20 → (v : ℕ) × (v < 1000000) × (truncate sum ≡ code (six_digits v))
unfolding truncate
truncate-code [] h = absurd (omega arith)
truncate-code (b ∷ bs) h =
    let (last, e) = last_byte-some b bs in
    let (v, e') = be32_at-some (b ∷ bs) (last % 16) (omega arith) in
    (v % 2 ^ 31 % 1000000, omega arith, rw (e, e', truncate))

pub same_bytes_iff : (x y : Bytes) → (same_bytes x y ≡ true) ↔ (x ≡ y)
unfolding same_bytes
same_bytes_iff [] [] = (λ h. refl, λ h. refl)
same_bytes_iff [] (y ∷ ys) = ground arith
same_bytes_iff (x ∷ xs) [] = ground arith
same_bytes_iff (x ∷ xs) (y ∷ ys) = ground (arith, same_bytes_iff xs ys)

judge-true : (given : Bytes) (r : Code) → judge given r ≡ some true → r ≡ code given
unfolding judge
judge-true given (code want) h = ground (arith, same_bytes_iff want given)
judge-true given bad_secret h = cc
judge-true given panic h = cc

judge_self : (given : Bytes) → judge given (code given) ≡ some true
unfolding judge
judge_self given = ground (arith, same_bytes_iff given given)

judge_code :
    (given want : Bytes) → (judge given (code want) ≡ some true) ⊎ (judge given (code want) ≡ none)
unfolding judge
judge_code given want = ground arith

length-six_digits : (v : ℕ) → length (six_digits v) ≡ 6
unfolding six_digits
length-six_digits v = refl

near_counter :
    (a b : ℕ)
    → a ≤ b + 1
    → b ≤ a + 1
    → a < 2 ^ 63
    → b < 2 ^ 63
    → (a ≡ (b + 2 ^ 64 - 1) % 2 ^ 64) ⊎ (a ≡ b % 2 ^ 64) ⊎ (a ≡ (b + 1) % 2 ^ 64)
near_counter a b h k sa sb = elim (Bool-cases (a == b)) [
  | inl same ↦ inr (inl (ground arith))
  | inr other ↦ elim (Bool-cases (ltb a b)) [
    | inl below ↦ inl (ground arith)
    | inr above ↦ inr (inr (ground arith))
  ]
]

length-ne-zero : (bs : Bytes) → bs ≢ [] → (length bs == 0) ≡ false
length-ne-zero [] h = absurd (h refl)
length-ne-zero (b ∷ bs) h = ground arith

module _ (mac : Mac) where
  -- A secret that decodes always gives six decimal digits, at every counter: the truncation
  -- never reads outside the sum.
  pub totp_at-six_digits :
      (secret key : Bytes) (counter : ℕ)
      → mac.decode_secret secret ≡ some key
      → (v : ℕ) × (v < 1000000) × (totp_at mac secret counter ≡ code (six_digits v))
  unfolding totp_at
  totp_at-six_digits secret key counter e =
      let (v, lt, p) =
        truncate-code (mac.hmac_sha1 key (be64 counter)) (mac.sum_length key (be64 counter)) in
      (v, lt, rw (e, totp_at) p)

  -- Some counter of the list has the code.
  abbrev pub HasCode : Bytes → Bytes → List ℕ → Type 0
  HasCode secret given [] = ⊥
  HasCode secret given (c ∷ cs) = (totp_at mac secret c ≡ code given) ⊎ HasCode secret given cs

  try_counters_sound :
      (secret given : Bytes) (cs : List ℕ)
      → try_counters mac secret given cs ≡ true
      → HasCode secret given cs
  unfolding try_counters
  try_counters_sound secret given [] h = cc
  try_counters_sound secret given (c ∷ cs) h =
      ground (arith, judge-true given (totp_at mac secret c), try_counters_sound secret given cs)

  try_counters_complete :
      (secret key given : Bytes) (cs : List ℕ)
      → mac.decode_secret secret ≡ some key
      → HasCode secret given cs
      → try_counters mac secret given cs ≡ true
  unfolding try_counters
  try_counters_complete secret key given [] e h = absurd h
  try_counters_complete secret key given (c ∷ cs) e (inl p) = ground (arith, p, judge_self given)
  try_counters_complete secret key given (c ∷ cs) e (inr later) =
      let (v, _, p) = totp_at-six_digits secret key c e in
      ground (
        arith,
        p,
        judge_code given (six_digits v),
        try_counters_complete secret key given cs e later,
      )

  HasCode-length :
      (secret key given : Bytes) (cs : List ℕ)
      → mac.decode_secret secret ≡ some key
      → HasCode secret given cs
      → length given ≡ 6
  HasCode-length secret key given [] e h = absurd h
  HasCode-length secret key given (c ∷ cs) e (inl p) =
      let (v, _, q) = totp_at-six_digits secret key c e in ground (arith, length-six_digits v)
  HasCode-length secret key given (c ∷ cs) e (inr later) =
      HasCode-length secret key given cs e later

  verify_totp-HasCode :
      (secret key given : Bytes) (now : Time)
      → mac.decode_secret secret ≡ some key
      → (verify_totp mac secret given now ≡ true)
        ↔ ((secret ≢ []) × HasCode secret given (counters (unix now / totp_period)))
  unfolding verify_totp
  verify_totp-HasCode secret key given now e =
      let cs = counters (unix now / totp_period) in
      (
        λ h. ground (arith, try_counters_sound secret given cs),
        λ h.
            rw (length-ne-zero secret h.0, HasCode-length secret key given cs e h.1)
              (try_counters_complete secret key given cs e h.1),
      )

  HasCode-near :
      (secret given : Bytes) (a b : ℕ)
      → totp_at mac secret a ≡ code given
      → a ≤ b + 1
      → b ≤ a + 1
      → a < 2 ^ 63
      → b < 2 ^ 63
      → HasCode secret given (counters b)
  HasCode-near secret given a b p h k sa sb = elim (near_counter a b h k sa sb) [
    | inl q ↦ inl (subst (λ c. totp_at mac secret c ≡ code given) q p)
    | inr (inl q) ↦ inr (inl (subst (λ c. totp_at mac secret c ≡ code given) q p))
    | inr (inr q) ↦ inr (inr (inl (subst (λ c. totp_at mac secret c ≡ code given) q p)))
  ]

  -- A code that is valid in a window of thirty seconds which began at `30 * n` seconds, and which
  -- is the current one, the next one or the one before.
  abbrev pub Timely : Bytes → Bytes → Time → Type 0
  Timely secret given now =
      (n : ℕ) × (unix now < 30 * n + 60)
      × (30 * n ≤ unix now + 30)
      × (totp_at mac secret n ≡ code given)

  HasCode-Timely :
      (secret given : Bytes) (now : Time)
      → 30 ≤ unix now
      → unix now < 2 ^ 63
      → HasCode secret given (counters (unix now / 30))
      → Timely secret given now
  HasCode-Timely secret given now lo hi h =
      let b = unix now / 30 in
      let before : (b + 2 ^ 64 - 1) % 2 ^ 64 ≡ b - 1 = omega arith in
      let here : b % 2 ^ 64 ≡ b = omega arith in
      let after : (b + 1) % 2 ^ 64 ≡ b + 1 = omega arith in
      let moved : (m n : ℕ)
          → m ≡ n
          → totp_at mac secret m ≡ code given
          → totp_at mac secret n ≡ code given =
        λ m n e p. subst (λ c. totp_at mac secret c ≡ code given) e p in
      elim h [
        | inl p ↦ (b - 1, omega arith, omega arith, moved _ _ before p)
        | inr (inl p) ↦ (b, omega arith, omega arith, moved _ _ here p)
        | inr (inr (inl p)) ↦ (b + 1, omega arith, omega arith, moved _ _ after p)
        | inr (inr (inr p)) ↦ absurd p
      ]

  -- With a secret that decodes, and a clock that is at least thirty seconds after the epoch and
  -- below 2^63 seconds: a code is accepted exactly when the secret is not empty and the code is
  -- that of the window of thirty seconds that holds the reading of the clock, of the window before
  -- or of the window after.
  pub verify_totp_iff :
      (secret key given : Bytes) (now : Time)
      → mac.decode_secret secret ≡ some key
      → 30 ≤ unix now
      → unix now < 2 ^ 63
      → (verify_totp mac secret given now ≡ true) ↔ ((secret ≢ []) × Timely secret given now)
  verify_totp_iff secret key given now e lo hi =
      let all = verify_totp-HasCode secret key given now e in
      (
        λ h. ((all.0 h).0, HasCode-Timely secret given now lo hi (all.0 h).1),
        λ h. all.1 (h.0, near h.1),
      )
    where
      near : Timely secret given now → HasCode secret given (counters (unix now / 30))
      near (n, late, early, p) =
          HasCode-near secret given n (unix now / 30) p (omega arith) (omega arith) (omega arith)
            (omega arith)

  -- A code that was valid when the sender's clock read `sent` is accepted at `now` if the two
  -- clocks differ by at most thirty seconds; the counters are below the wrap.
  pub verify_totp-drift :
      (secret key given : Bytes) (sent now : Time)
      → mac.decode_secret secret ≡ some key
      → secret ≢ []
      → totp_at mac secret (unix sent / totp_period) ≡ code given
      → unix sent ≤ unix now + 30
      → unix now ≤ unix sent + 30
      → unix sent < 2 ^ 63
      → unix now < 2 ^ 63
      → verify_totp mac secret given now ≡ true
  verify_totp-drift secret key given sent now e ne p late early small small' =
      (verify_totp-HasCode secret key given now e).1 (
        ne,
        HasCode-near secret given (unix sent / 30) (unix now / 30) p (omega arith) (omega arith)
            (omega arith) (omega arith),
      )
