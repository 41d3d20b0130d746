-- ===== src/Base/Scan.antt =====
-- Go's `fmt.Sscanf` for the formats of the program: literal characters and `%d`.
use Prim.Native.Char.{Char, code}
use Prim.Native.String.{String}
use Prim.Native.Nat.{ℕ, zero, suc, ◌+◌, ◌-◌, ◌*◌, ◌/◌, ◌%◌, ◌^◌, ◌<◌}
use mathlib.Core.Path.{◌≡◌, refl, ap, ◌∙◌}
use mathlib.Core.Bool.{Bool, true, false, ◌&&◌}
use mathlib.Core.Logic.{inl, inr}
use mathlib.Core.Option.{Option, none, some}
use mathlib.Core.List.{List, [], ◌∷◌}
use native.Mathlib.Omega.{arith}
use native.Mathlib.Numerals.{unary_clauses}
use text.Mathlib.TextLemmas.{nil-append, cons-append, append_assoc}
use amarre.Base.Int.{ℤ, pos, negsuc}
use amarre.Base.Tests.{leb, ltb, if◌then◌else◌, Bool-cases}
use amarre.Base.Text.{one, ◌<>◌, is_space, is_code, digit, decimal_onto, decimal}
use amarre.Base.Pieces.{heads_off, every}

pub data Piece : Type 0 where
  literal : ℕ → Piece
  number : Piece

-- The blanks before a number; a line break is an error.
unfoldable pub skip_blanks : String → Option String
skip_blanks String.[] = some ""
skip_blanks (String.◌∷◌ c s) =
    let more = skip_blanks s in
    if is_code b'\n' c then none else if is_space c then more else some (String.◌∷◌ c s)

abbrev pub is_digit : Char → Bool
is_digit c = leb 48 (code c) && leb (code c) 57

-- The digits at the head, onto the value of those before.
unfoldable pub digits_onto : ℕ → String → ℕ × String
digits_onto v String.[] = (v, "")
digits_onto v (String.◌∷◌ c s) =
    let more = digits_onto (v * 10 + (code c - 48)) s in
    if is_digit c then more else (v, String.◌∷◌ c s)

unfoldable pub scan_digits : String → Option (ℕ × String)
unfolding digits_onto
scan_digits String.[] = none
scan_digits (String.◌∷◌ c s) = if is_digit c then some (digits_onto 0 (String.◌∷◌ c s)) else none

-- `strconv.ParseInt` to 64 bits, after each sign.
abbrev pub positive : Option (ℕ × String) → Option (ℤ × String)
positive none = none
positive (some (n, rest)) = if ltb n (2 ^ 63) then some (pos n, rest) else none

abbrev pub minus : ℕ → ℤ
minus zero = pos 0
minus (suc n) = negsuc n

abbrev pub negative : Option (ℕ × String) → Option (ℤ × String)
negative none = none
negative (some (n, rest)) = if leb n (2 ^ 63) then some (minus n, rest) else none

abbrev pub scan_signed : String → Option (ℤ × String)
scan_signed String.[] = none
scan_signed (String.◌∷◌ c s) =
    if is_code b'-' c
    then negative (scan_digits s)
    else if is_code b'+' c
    then positive (scan_digits s)
    else positive (scan_digits (String.◌∷◌ c s))

abbrev pub after_blanks : Option String → Option (ℤ × String)
after_blanks none = none
after_blanks (some s) = scan_signed s

unfoldable pub scan_int : String → Option (ℤ × String)
unfolding skip_blanks scan_digits
scan_int s = after_blanks (skip_blanks s)

abbrev pub with_value : ℤ → Option (List ℤ) → Option (List ℤ)
with_value z none = none
with_value z (some zs) = some (z ∷ zs)

-- `fmt.Sscanf`: the values of the numbers, or its error. What stands after the format is not read.
unfoldable pub sscanf : List Piece → String → Option (List ℤ)
unfolding scan_int
sscanf [] s = some []
sscanf (literal n ∷ ps) String.[] = none
sscanf (literal n ∷ ps) (String.◌∷◌ c s) =
    let more = sscanf ps s in if is_code n c then more else none
sscanf (number ∷ ps) s = elim (scan_int s) [ none ↦ none | some v ↦ with_value v.0 (sscanf ps v.1) ]

digit_char : (d : ℕ) → d < 10 → (c : Char) × (digit d ≡ one c) × (code c ≡ 48 + d)
digit_char zero h = ("0", refl, refl)
digit_char (suc zero) h = ("1", refl, refl)
digit_char (suc (suc zero)) h = ("2", refl, refl)
digit_char (suc (suc (suc zero))) h = ("3", refl, refl)
digit_char (suc (suc (suc (suc zero)))) h = ("4", refl, refl)
digit_char (suc (suc (suc (suc (suc zero))))) h = ("5", refl, refl)
digit_char (suc (suc (suc (suc (suc (suc zero)))))) h = ("6", refl, refl)
digit_char (suc (suc (suc (suc (suc (suc (suc zero))))))) h = ("7", refl, refl)
digit_char (suc (suc (suc (suc (suc (suc (suc (suc zero)))))))) h = ("8", refl, refl)
digit_char (suc (suc (suc (suc (suc (suc (suc (suc (suc zero))))))))) h = ("9", refl, refl)
digit_char (suc (suc (suc (suc (suc (suc (suc (suc (suc (suc d)))))))))) h =
    absurd (omega (arith, h))

digit-append : (d : ℕ) (c : Char) (t : String) → digit d ≡ one c → digit d <> t ≡ String.◌∷◌ c t
digit-append d c t e =
    ap (λ s. s <> t) e ∙ cons-append c String.[] t ∙ ap (String.◌∷◌ c) (nil-append t)

digits_onto-digit :
    (v d : ℕ) (t : String) → d < 10 → digits_onto v (digit d <> t) ≡ digits_onto (v * 10 + d) t
unfolding digits_onto
digits_onto-digit v d t h =
    let (c, e, k) = digit_char d h in
    let on : is_digit c ≡ true = ground (arith, k, h) in
    let same : v * 10 + (code c - 48) ≡ v * 10 + d = omega (arith, k) in
    rw (digit-append d c t e, on, same) refl

-- A text that begins with a digit.
abbrev pub digit_first : String → Bool
digit_first String.[] = false
digit_first (String.◌∷◌ c s) = is_digit c

digit_first-digit : (d : ℕ) (t : String) → d < 10 → digit_first (digit d <> t) ≡ true
digit_first-digit d t h =
    let (c, e, k) = digit_char d h in rw (digit-append d c t e) (ground (arith, k, h))

decimal_onto-first :
    (fuel n : ℕ) (t : String) → digit_first t ≡ true → digit_first (decimal_onto fuel n t) ≡ true
unfolding decimal_onto
decimal_onto-first zero n t h = h
decimal_onto-first (suc fuel) n t h = elim (Bool-cases (leb 10 n)) [
  | inl big ↦ rw big (
      decimal_onto-first fuel (n / 10) (digit (n % 10) <> t)
        (digit_first-digit (n % 10) t (omega arith)))
  | inr small ↦ rw small (digit_first-digit n t (ground (arith, small)))
]

zero_below : (n : ℕ) → n < 10 ^ 0 → 0 ≡ n
zero_below n h = omega (arith, h)

tenth : (fuel n : ℕ) → n < 10 ^ suc fuel → n / 10 < 10 ^ fuel
tenth fuel n h = let g = simp unary_clauses at h in omega (arith, g)

whole : (n : ℕ) → n / 10 * 10 + n % 10 ≡ n
whole n = omega arith

nothing : (n : ℕ) → 0 * 10 + n ≡ n
nothing n = omega arith

decimal_first : (n : ℕ) (t : String) → digit_first (decimal_onto 20 n t) ≡ true
unfolding decimal_onto
decimal_first n t = elim (Bool-cases (leb 10 n)) [
  | inl big ↦ rw big (
      decimal_onto-first 19 (n / 10) (digit (n % 10) <> t)
        (digit_first-digit (n % 10) t (omega arith)))
  | inr small ↦ rw small (digit_first-digit n t (ground (arith, small)))
]

digits_onto-decimal :
    (fuel n : ℕ) (t : String)
    → n < 10 ^ fuel
    → digits_onto 0 (decimal_onto fuel n t) ≡ digits_onto n t
unfolding decimal_onto
digits_onto-decimal zero n t h = ap (λ v. digits_onto v t) (zero_below n h)
digits_onto-decimal (suc fuel) n t h = elim (Bool-cases (leb 10 n)) [
  | inl big ↦ rw big (
      digits_onto-decimal fuel (n / 10) (digit (n % 10) <> t) (tenth fuel n h)
      ∙ digits_onto-digit (n / 10) (n % 10) t (omega arith)
      ∙ ap (λ v. digits_onto v t) (whole n))
  | inr small ↦
      rw small
        (digits_onto-digit 0 n t (ground (arith, small)) ∙ ap (λ v. digits_onto v t) (nothing n))
]

decimal_onto-append :
    (fuel n : ℕ) (s t : String) → decimal_onto fuel n s <> t ≡ decimal_onto fuel n (s <> t)
unfolding decimal_onto
decimal_onto-append zero n s t = refl
decimal_onto-append (suc fuel) n s t = elim (Bool-cases (leb 10 n)) [
  | inl big ↦ rw big (
      decimal_onto-append fuel (n / 10) (digit (n % 10) <> s) t
      ∙ ap (decimal_onto fuel (n / 10)) (append_assoc (digit (n % 10)) s t))
  | inr small ↦ rw small (append_assoc (digit n) s t)
]

first_digit-scan :
    (s : String)
    → digit_first s ≡ true
    → (skip_blanks s ≡ some s) × (scan_signed s ≡ positive (some (digits_onto 0 s)))
unfolding skip_blanks scan_digits
first_digit-scan String.[] h = absurd (ground (arith, h))
first_digit-scan (String.◌∷◌ c s) h =
    let line : is_code b'\n' c ≡ false = ground (arith, h) in
    let solid : is_space c ≡ false = ground (arith, h) in
    let unsigned : is_code b'-' c ≡ false = ground (arith, h) in
    let plus : is_code b'+' c ≡ false = ground (arith, h) in
    (rw (line, solid) refl, rw (unsigned, plus, h) refl)

digits_onto-stops : (n : ℕ) (t : String) → heads_off is_digit t ≡ true → digits_onto n t ≡ (n, t)
unfolding digits_onto
digits_onto-stops n String.[] h = refl
digits_onto-stops n (String.◌∷◌ c t) h =
    let off : is_digit c ≡ false = ground (arith, h) in rw off refl

-- A number that was written is read back, up to what cannot go on with it.
pub scan_int-decimal :
    (n : ℕ) (t : String)
    → n < 2 ^ 63
    → heads_off is_digit t ≡ true
    → scan_int (decimal (pos n) <> t) ≡ some (pos n, t)
unfolding scan_int decimal
scan_int-decimal n t small off =
    let first = decimal_first n t in
    let (blank, signed) = first_digit-scan (decimal_onto 20 n t) first in
    let value = digits_onto-decimal 20 n t (omega (arith, small)) ∙ digits_onto-stops n t off in
    let below : ltb n (2 ^ 63) ≡ true = ground (arith, small) in
    rw (decimal_onto-append 20 n "" t, nil-append t, blank, signed, value, below) refl

-- A number is written in digits.
every_digit :
    (fuel n : ℕ) (t : String)
    → every is_digit t ≡ true
    → every is_digit (decimal_onto fuel n t) ≡ true
unfolding decimal_onto
every_digit zero n t h = h
every_digit (suc fuel) n t h = elim (Bool-cases (leb 10 n)) [
  | inl big ↦
      rw big (every_digit fuel (n / 10) (digit (n % 10) <> t) (one_more (n % 10) (omega arith)))
  | inr small ↦ rw small (one_more n (ground (arith, small)))
]
  where
    one_more : (d : ℕ) → d < 10 → every is_digit (digit d <> t) ≡ true
    one_more d l =
        let (c, e, k) = digit_char d l in
        let on : is_digit c ≡ true = ground (arith, k, l) in rw (digit-append d c t e, on) h

pub every-decimal : (n : ℕ) → every is_digit (decimal (pos n)) ≡ true
unfolding decimal
every-decimal n = every_digit 20 n "" refl
