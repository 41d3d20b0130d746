-- ===== src/Base/Text.antt =====
-- What the program uses of Go's `strings`, `bytes` and `unicode` on texts: trimming, splitting at
-- one character, cutting, joining.
use Prim.Native.Char.{Char, code}
use Prim.Native.String.{String, ◌++◌ as text_append}
use Prim.Native.Nat.{ℕ, zero, suc, ◌+◌, ◌/◌, ◌%◌}
use mathlib.Core.Bool.{Bool, true, false, ◌&&◌, ◌||◌}
use mathlib.Core.Option.{Option, none, some}
use mathlib.Core.List.{List, [], ◌∷◌}
use amarre.Base.Int.{ℤ, pos, negsuc}
use amarre.Base.Tests.{leb, ◌==◌, if◌then◌else◌}

-- The text of one character.
abbrev pub one : Char → String
one c = String.◌∷◌ c String.[]

infixr 66 ◌<>◌
abbrev pub ◌<>◌ : String → String → String
s <> t = text_append s t

abbrev pub concat : List String → String
concat [] = ""
concat (s ∷ []) = s
concat (s ∷ t ∷ ts) = s <> concat (t ∷ ts)

abbrev pub is_empty : String → Bool
is_empty String.[] = true
is_empty (String.◌∷◌ c s) = false

abbrev between : ℕ → ℕ → ℕ → Bool
between lo hi n = leb lo n && leb n hi

-- `unicode.IsSpace`
abbrev pub is_space_code : ℕ → Bool
is_space_code n =
    between 9 13 n
    || n == 32
    || n == 0x85
    || n == 0xA0
    || n == 0x1680
    || between 0x2000 0x200a n
    || between 0x2028 0x2029 n
    || n == 0x202f
    || n == 0x205f
    || n == 0x3000

abbrev pub is_space : Char → Bool
is_space c = is_space_code (code c)

-- The text without the characters of `p` at its head, at its end, at both.
unfoldable pub trim_left : (Char → Bool) → String → String
trim_left p String.[] = ""
trim_left p (String.◌∷◌ c s) = if p c then trim_left p s else String.◌∷◌ c s

unfoldable pub trim_right : (Char → Bool) → String → String
trim_right p String.[] = ""
trim_right p (String.◌∷◌ c s) =
    let t = trim_right p s in if p c && is_empty t then "" else String.◌∷◌ c t

abbrev pub trim_by : (Char → Bool) → String → String
trim_by p s = trim_right p (trim_left p s)

-- `strings.TrimSpace`
abbrev pub trim_space : String → String
trim_space s = trim_by is_space s

-- The test for one character, given by its code point.
abbrev pub is_code : ℕ → Char → Bool
is_code n c = code c == n

-- A piece goes in front of the first of the pieces.
abbrev pub prepend : Char → List String → List String
prepend c [] = one c ∷ []
prepend c (s ∷ ss) = (String.◌∷◌ c s) ∷ ss

-- `strings.Split` at one character.
unfoldable pub split_at : ℕ → String → List String
split_at n String.[] = "" ∷ []
split_at n (String.◌∷◌ c s) =
    let more = split_at n s in if is_code n c then "" ∷ more else prepend c more

-- `strings.Cut` at one character: `none` where it does not occur.
abbrev pub cut_more : Char → Option (String × String) → Option (String × String)
cut_more c none = none
cut_more c (some (k, v)) = some (String.◌∷◌ c k, v)

unfoldable pub cut_at : ℕ → String → Option (String × String)
cut_at n String.[] = none
cut_at n (String.◌∷◌ c s) =
    let more = cut_at n s in if is_code n c then some ("", s) else cut_more c more

-- `strings.HasPrefix` for a prefix of one character.
abbrev pub begins_with : ℕ → String → Bool
begins_with n String.[] = false
begins_with n (String.◌∷◌ c s) = is_code n c

-- The number of characters.
abbrev pub count_of : String → ℕ
count_of String.[] = 0
count_of (String.◌∷◌ c s) = suc (count_of s)

-- `len` of a text: the bytes of its UTF-8 form.
abbrev pub code_bytes : ℕ → ℕ
code_bytes n = if leb n 0x7f then 1 else if leb n 0x7ff then 2 else if leb n 0xffff then 3 else 4

unfoldable pub byte_length : String → ℕ
byte_length String.[] = 0
byte_length (String.◌∷◌ c s) = code_bytes (code c) + byte_length s

abbrev pub digit : ℕ → String
digit d =
    if d == 0
    then "0"
    else if d == 1
    then "1"
    else if d == 2
    then "2"
    else if d == 3
    then "3"
    else if d == 4
    then "4"
    else if d == 5
    then "5"
    else if d == 6
    then "6"
    else if d == 7
    then "7"
    else if d == 8
    then "8"
    else "9"

-- `%d` of an integer: an int64 has nineteen digits at most.
unfoldable pub decimal_onto : ℕ → ℕ → String → String
decimal_onto zero n tail = tail
decimal_onto (suc fuel) n tail =
    let more = decimal_onto fuel (n / 10) (digit (n % 10) <> tail) in
    if leb 10 n then more else digit n <> tail

unfoldable pub decimal : ℤ → String
unfolding decimal_onto
decimal (pos n) = decimal_onto 20 n ""
decimal (negsuc n) = "-" <> decimal_onto 20 (n + 1) ""
