-- ===== src/Web/Funcs/Amounts.antt =====
-- What `bytes` writes of a number of octets, by its size.
use native.Mathlib.Numerals.{unary_clauses}
use amarre.Base.{
  ℕ, zero, suc, ◌+◌, ◌*◌, ◌/◌, ◌^◌, ◌≤◌, ◌<◌, ◌≡◌, ◌↔◌, refl, sym, ap, ◌∙◌, true, false, Bool-cases,
  inl, inr, arith, leb, ltb, ℤ, pos, mul64, subst, ◌%◌, ◌-◌,
}
use amarre.Web.Funcs.{Amount, panic, unit_of, scaled_by, scale, bytes}

-- One turn of the loop, and its end.
scale-turn :
    (fuel n m e : ℕ) (div : ℤ)
    → 1024 ≤ m
    → scale (suc fuel) n m div e ≡ scale fuel n (m / 1024) (mul64 div (pos 1024)) (e + 1)
unfolding scale
scale-turn fuel n m e div h = let on : leb 1024 m ≡ true = ground (arith, h) in rw on refl

scale-end :
    (fuel n m e : ℕ) (div : ℤ) → m < 1024 → scale (suc fuel) n m div e ≡ scaled_by n div (unit_of e)
unfolding scale
scale-end fuel n m e div h = let off : leb 1024 m ≡ false = ground (arith, h) in rw off refl

quotient_low : (q r p n : ℕ) → (1024 * q + r) * p ≤ n → q * (p * 1024) ≤ n
quotient_low q r p n h = omega (arith, h)

quotient_high :
    (q r s p n : ℕ) → r + s ≡ 1023 → n < (1024 * q + r + 1) * p → n < (q + 1) * (p * 1024)
quotient_high q r s p n e h =
    let parts : r * p + s * p ≡ 1023 * p = omega (arith, ap (λ x. x * p) e) in
    omega (arith, h, parts)

mul64-small : (p : ℕ) → p * 1024 < 2 ^ 63 → mul64 (pos p) (pos 1024) ≡ pos (p * 1024)
unfolding mul64
mul64-small p h = ground (arith, h)

-- What is left of `n` after divisions by `p`.
abbrev Left : ℕ → ℕ → ℕ → Type 0
Left n m p = (1 ≤ m) × (m * p ≤ n) × (n < (m + 1) * p)

Left-turn : (n m p : ℕ) → 1024 ≤ m → Left n m p → Left n (m / 1024) (p * 1024)
Left-turn n m p big (one, low, high) =
    let split : 1024 * (m / 1024) + m % 1024 ≡ m = omega arith in
    let q = m / 1024 in
    let r = m % 1024 in
    (
      omega (arith, big),
      quotient_low q r p n (subst (λ x. x * p ≤ n) (sym split) low),
      quotient_high q r (1023 - r) p n (omega arith)
          (subst (λ x. n < (x + 1) * p) (sym split) high),
    )

-- The amount is `n` by the greatest power of 1024 that does not exceed it.
abbrev pub Scaled : ℕ → Amount → Type 0
Scaled n a =
    (e : ℕ) × (1024 ^ suc e ≤ n)
    × (n < 1024 ^ suc (suc e))
    × (a ≡ scaled_by n (pos (1024 ^ suc e)) (unit_of e))

product_small : (n m p : ℕ) → 1024 ≤ m → m * p ≤ n → n < 2 ^ 63 → p * 1024 < 2 ^ 63
product_small n m p big low small =
    let parts : 1024 + (m - 1024) ≡ m = omega (arith, big) in
    let more = ap (λ x. x * p) parts in omega (arith, more, low, small)

fewer : (fuel m : ℕ) → m < 1024 ^ suc fuel → m / 1024 < 1024 ^ fuel
fewer fuel m h = let g = simp unary_clauses at h in omega (arith, g)

power_suc : (e p : ℕ) → p ≡ 1024 ^ suc e → p * 1024 ≡ 1024 ^ suc (e + 1)
power_suc e p h =
    let one_more : suc (e + 1) ≡ suc (suc e) = omega arith in
    rw (one_more, h) (simp unary_clauses (omega arith))

at_most : (n m p : ℕ) → 1 ≤ m → m * p ≤ n → p ≤ n
at_most n m p one low =
    let parts : 1 + (m - 1) ≡ m = omega (arith, one) in
    let more = ap (λ x. x * p) parts in omega (arith, more, low)

below : (n m p : ℕ) → m < 1024 → n < (m + 1) * p → n < p * 1024
below n m p end high =
    let parts : m + 1 + (1023 - m) ≡ 1024 = omega (arith, end) in
    let more = ap (λ x. x * p) parts in omega (arith, more, high)

low_power : (e p n : ℕ) → p ≡ 1024 ^ suc e → n < p * 1024 → n < 1024 ^ suc (suc e)
low_power e p n h l =
    let one_more : suc (e + 1) ≡ suc (suc e) = omega arith in
    subst (λ x. n < 1024 ^ x) one_more (subst (λ x. n < x) (power_suc e p h) l)

scale-Scaled :
    (fuel n m e p : ℕ)
    → m < 1024 ^ fuel
    → n < 2 ^ 63
    → p ≡ 1024 ^ suc e
    → Left n m p
    → Scaled n (scale fuel n m (pos p) e)
scale-Scaled zero n m e p few small h (one, low, high) = absurd (omega (arith, few, one))
scale-Scaled (suc fuel) n m e p few small h (one, low, high) = elim (Bool-cases (leb 1024 m)) [
  | inl b ↦
      let big : 1024 ≤ m = ground (arith, b) in
      let next =
        scale-Scaled fuel n (m / 1024) (e + 1) (p * 1024) (fewer fuel m few) small (power_suc e p h)
          (Left-turn n m p big (one, low, high)) in
      rw (scale-turn fuel n m e (pos p) big, mul64-small p (product_small n m p big low small)) next
  | inr s ↦
      let end : m < 1024 = ground (arith, s) in
      (
        e,
        subst (λ x. x ≤ n) h (at_most n m p one low),
        low_power e p n h (below n m p end high),
        scale-end fuel n m e (pos p) end ∙ ap (λ x. scaled_by n (pos x) (unit_of e)) h,
      )
]

power_one : (e : ℕ) → 1 ≤ 1024 ^ e
power_one zero = omega arith
power_one (suc e) = let h = power_one e in simp unary_clauses (omega (arith, h))

power_large : (e : ℕ) → 2 ^ 60 ≤ 1024 ^ suc (suc (suc (suc (suc (suc e)))))
power_large e = let h = power_one e in simp unary_clauses (omega (arith, h))

panics_iff : (n : ℕ) (a : Amount) → Scaled n a → (a ≡ panic) ↔ (2 ^ 60 ≤ n)
panics_iff n a (zero, low, high, h) = ground (arith, h, high)
panics_iff n a (suc zero, low, high, h) = ground (arith, h, high)
panics_iff n a (suc (suc zero), low, high, h) = ground (arith, h, high)
panics_iff n a (suc (suc (suc zero)), low, high, h) = ground (arith, h, high)
panics_iff n a (suc (suc (suc (suc zero))), low, high, h) = ground (arith, h, high)
panics_iff n a (suc (suc (suc (suc (suc e)))), low, high, h) =
    let large = power_large e in (λ p. omega (arith, low, large), λ l. h)

-- A number of octets from 1024 on, within int64, is divided by the greatest power of 1024 that does
-- not exceed it, the product in the loop does not wrap around, and the unit is the one of that
-- power; the call panics if and only if the number is 2^60 or more, for which no unit is listed.
pub bytes-Scaled :
    (n : ℕ)
    → 1024 ≤ n
    → n < 2 ^ 63
    → Scaled n (bytes (pos n)) × ((bytes (pos n) ≡ panic) ↔ (2 ^ 60 ≤ n))
unfolding bytes
bytes-Scaled n h small =
    let off : ltb n 1024 ≡ false = ground (arith, h) in
    let left : Left n (n / 1024) 1024 = (omega (arith, h), omega arith, omega arith) in
    let s = scale-Scaled 7 n (n / 1024) 0 1024 (omega (arith, small)) small refl left in
    rw off (s, panics_iff n (scale 7 n (n / 1024) (pos 1024) 0) s)
