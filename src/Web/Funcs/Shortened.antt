-- ===== src/Web/Funcs/Shortened.antt =====
-- What `short` leaves of a text.
use text.Mathlib.TextLemmas.{nil-append, cons-append}
use amarre.Base.{
  ℕ, zero, suc, ◌+◌, ◌≤◌, ◌≡◌, ◌⊎◌, refl, sym, ap, ◌∙◌, Bool-cases, inl, inr, arith, String, some,
  ltb_ℤ, pos, ◌<>◌, count_of,
}
use amarre.Web.Funcs.{first_runes, short}

count_of-append : (s t : String) → count_of (s <> t) ≡ count_of s + count_of t
count_of-append String.[] t = rw (nil-append t) (omega arith)
count_of-append (String.◌∷◌ c s) t =
    let more = count_of-append s t in rw (cons-append c s t) (omega (arith, more))

-- A text in two parts, the first of the length asked for.
first_runes-part :
    (n : ℕ) (s : String)
    → n ≤ count_of s
    → (rest : String) × (s ≡ first_runes n s <> rest) × (count_of (first_runes n s) ≡ n)
unfolding first_runes
first_runes-part zero s h = (s, sym (nil-append s), refl)
first_runes-part (suc n) String.[] h = absurd (omega (arith, h))
first_runes-part (suc n) (String.◌∷◌ c s) h =
    let (rest, e, k) = first_runes-part n s (omega (arith, h)) in
    (rest, ap (String.◌∷◌ c) e ∙ sym (cons-append c (first_runes n s) rest), ap suc k)

-- The text itself, or a part from its start with an ellipsis, of the length `n` together.
abbrev pub Shortens : ℕ → String → String → Type 0
Shortens n s t =
    (t ≡ s)
    ⊎ ((part : String) × (rest : String) × (s ≡ part <> rest)
        × (t ≡ part <> "…")
        × (count_of t ≡ n))

-- For a limit of one rune at least, `short` returns a text of at most that many runes: the text that
-- it is given where it fits, and otherwise a beginning of it with an ellipsis, of exactly the limit.
pub short-Shortens :
    (n : ℕ) (s : String)
    → 1 ≤ n
    → (t : String) × (short (pos n) s ≡ some t) × (count_of t ≤ n) × Shortens n s t
unfolding short
short-Shortens zero s h = absurd (omega (arith, h))
short-Shortens (suc n) s h = elim (Bool-cases (ltb_ℤ (pos (suc n)) (pos (count_of s)))) [
  | inl long ↦
      let (rest, e, k) = first_runes-part n s (ground (arith, long)) in
      let total : count_of (first_runes n s <> "…") ≡ suc n =
        count_of-append (first_runes n s) "…" ∙ omega (arith, k) in
      (
        first_runes n s <> "…",
        rw long refl,
        omega (arith, total),
        inr (first_runes n s, rest, e, refl, total),
      )
  | inr fits ↦ (s, rw fits refl, ground (arith, fits), inl refl)
]
