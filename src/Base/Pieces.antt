-- ===== src/Base/Pieces.antt =====
-- Splitting, cutting and trimming of texts that were put together from pieces.
use Prim.Native.Char.{Char}
use Prim.Native.String.{String}
use Prim.Native.Nat.{ℕ}
use mathlib.Core.Path.{◌≡◌, refl, sym, ap, ◌∙◌}
use mathlib.Core.Bool.{Bool, true, false, ◌&&◌, not}
use mathlib.Core.Logic.{inl, inr}
use mathlib.Core.Option.{some}
use mathlib.Core.List.{[], ◌∷◌}
use native.Mathlib.Omega.{arith}
use text.Mathlib.TextLemmas.{nil-append, cons-append, cons≢nil}
use amarre.Base.Tests.{Bool-cases, str_eq, str_eq_iff}
use amarre.Base.Text.{
  one, ◌<>◌, is_empty, is_code, trim_left, trim_right, trim_by, prepend, split_at, cut_more, cut_at,
}

-- Every character passes the test.
abbrev pub every : (Char → Bool) → String → Bool
every p String.[] = true
every p (String.◌∷◌ c s) = p c && every p s

-- No character is the one of code point `n`.
abbrev pub lacks : ℕ → String → Bool
lacks n s = every (λ c. not (is_code n c)) s

pub every-append : (p : Char → Bool) (s t : String) → every p (s <> t) ≡ (every p s && every p t)
every-append p String.[] t = rw (nil-append t) refl
every-append p (String.◌∷◌ c s) t =
    rw (cons-append c s t, every-append p s t)
      (elim (Bool-cases (p c)) [ inl a ↦ rw a refl | inr a ↦ rw a refl ])

pub every_weaken :
    (p q : Char → Bool) (s : String)
    → ((c : Char) → p c ≡ true → q c ≡ true)
    → every p s ≡ true
    → every q s ≡ true
every_weaken p q String.[] w h = refl
every_weaken p q (String.◌∷◌ c s) w h =
    let here : p c ≡ true = ground (arith, h) in
    let more : every p s ≡ true = ground (arith, h) in
    let q_here = w c here in
    let q_more = every_weaken p q s w more in ground (arith, q_here, q_more)

-- The head of a text fails the test.
abbrev pub heads_off : (Char → Bool) → String → Bool
heads_off p String.[] = true
heads_off p (String.◌∷◌ c s) = not (p c)

pub split_at-piece :
    (n : ℕ) (c : Char) (s rest : String)
    → lacks n s ≡ true
    → is_code n c ≡ true
    → split_at n (s <> String.◌∷◌ c rest) ≡ s ∷ split_at n rest
unfolding split_at
split_at-piece n c String.[] rest h e = rw (nil-append (String.◌∷◌ c rest), e) refl
split_at-piece n c (String.◌∷◌ d s) rest h e =
    let off : is_code n d ≡ false = ground (arith, h) in
    let more : lacks n s ≡ true = ground (arith, h) in
    rw (cons-append d s (String.◌∷◌ c rest), off)
      (ap (λ l. prepend d l) (split_at-piece n c s rest more e))

pub cut_at-piece :
    (n : ℕ) (c : Char) (s rest : String)
    → lacks n s ≡ true
    → is_code n c ≡ true
    → cut_at n (s <> String.◌∷◌ c rest) ≡ some (s, rest)
unfolding cut_at
cut_at-piece n c String.[] rest h e = rw (nil-append (String.◌∷◌ c rest), e) refl
cut_at-piece n c (String.◌∷◌ d s) rest h e =
    let off : is_code n d ≡ false = ground (arith, h) in
    let more : lacks n s ≡ true = ground (arith, h) in
    rw (cons-append d s (String.◌∷◌ c rest), off)
      (ap (λ l. cut_more d l) (cut_at-piece n c s rest more e))

pub trim_left_off : (p : Char → Bool) (s : String) → heads_off p s ≡ true → trim_left p s ≡ s
unfolding trim_left
trim_left_off p String.[] h = refl
trim_left_off p (String.◌∷◌ c s) h = let off : p c ≡ false = ground (arith, h) in rw off refl

is_empty-one : (s : String) (c : Char) → is_empty (s <> one c) ≡ false
is_empty-one String.[] c = rw (nil-append (one c)) refl
is_empty-one (String.◌∷◌ d s) c = rw (cons-append d s (one c)) refl

-- The last character stays where it fails the test.
pub trim_right-last :
    (p : Char → Bool) (s : String) (c : Char) → p c ≡ false → trim_right p (s <> one c) ≡ s <> one c
unfolding trim_right
trim_right-last p String.[] c h = rw (nil-append (one c), h) refl
trim_right-last p (String.◌∷◌ d s) c h =
    rw (cons-append d s (one c), trim_right-last p s c h, is_empty-one s c)
      (elim (Bool-cases (p d)) [ inl space ↦ rw space refl | inr solid ↦ rw solid refl ])

pub trim_right-dropped :
    (p : Char → Bool) (s : String) (c : Char)
    → p c ≡ true
    → trim_right p (s <> one c) ≡ trim_right p s
unfolding trim_right
trim_right-dropped p String.[] c h = rw (nil-append (one c), h) refl
trim_right-dropped p (String.◌∷◌ d s) c h =
    rw (cons-append d s (one c), trim_right-dropped p s c h) refl

pub trim_right-every :
    (p : Char → Bool) (s : String) → every (λ c. not (p c)) s ≡ true → trim_right p s ≡ s
unfolding trim_right
trim_right-every p String.[] h = refl
trim_right-every p (String.◌∷◌ d s) h =
    let off : p d ≡ false = ground (arith, h) in
    let more : every (λ c. not (p c)) s ≡ true = ground (arith, h) in
    rw (off, trim_right-every p s more) refl

-- A text that begins and ends off the test is left as it is.
pub trim_by-last :
    (p : Char → Bool) (s : String) (c : Char)
    → heads_off p (s <> one c) ≡ true
    → p c ≡ false
    → trim_by p (s <> one c) ≡ s <> one c
trim_by-last p s c h e = rw (trim_left_off p (s <> one c) h) (trim_right-last p s c e)

pub trim_by-every :
    (p : Char → Bool) (s : String) → every (λ c. not (p c)) s ≡ true → trim_by p s ≡ s
trim_by-every p s h = rw (trim_left_off p s (off s h)) (trim_right-every p s h)
  where
    off : (t : String) → every (λ c. not (p c)) t ≡ true → heads_off p t ≡ true
    off String.[] k = refl
    off (String.◌∷◌ c t) k = ground (arith, k)

-- The characters of the test around a text without them go away.
pub trim_by-around :
    (p : Char → Bool) (s : String) (c : Char)
    → every (λ d. not (p d)) s ≡ true
    → p c ≡ true
    → trim_by p (String.◌∷◌ c (s <> one c)) ≡ s
unfolding trim_left trim_right
trim_by-around p String.[] c h e = rw (e, nil-append (one c), e) refl
trim_by-around p (String.◌∷◌ d s) c h e =
    let off : p d ≡ false = ground (arith, h) in
    rw (e, cons-append d s (one c), off)
      (ap (λ t. trim_right p t) (sym (cons-append d s (one c)))
        ∙ trim_right-dropped p (String.◌∷◌ d s) c e
        ∙ trim_right-every p (String.◌∷◌ d s) h)

pub cons-ne_empty : (c : Char) (s : String) → str_eq (String.◌∷◌ c s) "" ≡ false
cons-ne_empty c s = elim (Bool-cases (str_eq (String.◌∷◌ c s) "")) [
  | inl e ↦ absurd (cons≢nil ((str_eq_iff (String.◌∷◌ c s) "").0 e))
  | inr e ↦ e
]

pub split_at-lacks : (n : ℕ) (s : String) → lacks n s ≡ true → split_at n s ≡ s ∷ []
unfolding split_at
split_at-lacks n String.[] h = refl
split_at-lacks n (String.◌∷◌ d s) h =
    let off : is_code n d ≡ false = ground (arith, h) in
    let more : lacks n s ≡ true = ground (arith, h) in
    rw off (ap (λ l. prepend d l) (split_at-lacks n s more))

append-not_empty : (s t : String) → is_empty t ≡ false → is_empty (s <> t) ≡ false
append-not_empty String.[] t h = rw (nil-append t) h
append-not_empty (String.◌∷◌ c s) t h = rw (cons-append c s t) refl

-- What stands before a text that keeps its end stays too.
pub trim_right-cons :
    (p : Char → Bool) (c : Char) (t : String)
    → is_empty t ≡ false
    → trim_right p t ≡ t
    → trim_right p (String.◌∷◌ c t) ≡ String.◌∷◌ c t
unfolding trim_right
trim_right-cons p c t h e =
    rw (e, h) (elim (Bool-cases (p c)) [ inl space ↦ rw space refl | inr solid ↦ rw solid refl ])

pub trim_right-append :
    (p : Char → Bool) (s t : String)
    → is_empty t ≡ false
    → trim_right p t ≡ t
    → trim_right p (s <> t) ≡ s <> t
trim_right-append p String.[] t h e = rw (nil-append t) e
trim_right-append p (String.◌∷◌ c s) t h e =
    rw (cons-append c s t)
      (trim_right-cons p c (s <> t) (append-not_empty s t h) (trim_right-append p s t h e))
