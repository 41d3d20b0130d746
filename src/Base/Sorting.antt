-- ===== src/Base/Sorting.antt =====
-- `sort.SliceStable` with a `less` function, as a stable insertion sort; `sort.Slice` is read as
-- the same function, so entries that compare equal keep their order. And Go's order on strings.
use Prim.Native.Nat.{ℕ, Ordering}
use Prim.Native.Nat.{compare as compare_ℕ}
use Prim.Native.Char.{code}
use Prim.Native.String.{String, compare, then as and_then}
use Prim.Native.String.compare
use mathlib.Core.Path.{◌≡◌, refl, sym, ◌∙◌, ap, ap₂}
use mathlib.Core.Bool.{Bool, true, false}
use mathlib.Core.Logic.{inl, inr}
use mathlib.Core.List.{List, [], ◌∷◌, Perm}
use mathlib.Core.List.Perm
use native.Mathlib.Omega.{arith}
use text.Mathlib.Text.{is_lt}
use amarre.Base.Tests.{if◌then◌else◌, Bool-cases}
use amarre.Base.Lists.{All}

module _ {ℓ} {A : Type ℓ} (less : A → A → Bool) where
  unfoldable pub insert_sorted : A → List A → List A
  insert_sorted x [] = x ∷ []
  insert_sorted x (y ∷ ys) =
      let rest = insert_sorted x ys in if less y x then y ∷ rest else x ∷ y ∷ ys

  unfoldable pub sort_by : List A → List A
  unfolding insert_sorted
  sort_by [] = []
  sort_by (x ∷ xs) = insert_sorted x (sort_by xs)

  -- No entry is less than the one before it.
  abbrev pub IsSorted : List A → Type 0
  IsSorted [] = Unit {0}
  IsSorted (x ∷ []) = Unit {0}
  IsSorted (x ∷ y ∷ ys) = (less y x ≡ false) × IsSorted (y ∷ ys)

  insert_sorted-perm : (x : A) (xs : List A) → Perm (insert_sorted x xs) (x ∷ xs)
  unfolding insert_sorted
  insert_sorted-perm x [] = Perm.rfl
  insert_sorted-perm x (y ∷ ys) = elim (Bool-cases (less y x)) [
    | inl behind ↦ rw behind (Perm.trans (Perm.cons y (insert_sorted-perm x ys)) (Perm.swap x y ys))
    | inr here ↦ rw here Perm.rfl
  ]

  pub sort_by-perm : (xs : List A) → Perm (sort_by xs) xs
  unfolding sort_by
  sort_by-perm [] = Perm.rfl
  sort_by-perm (x ∷ xs) =
      Perm.trans (insert_sorted-perm x (sort_by xs)) (Perm.cons x (sort_by-perm xs))

  -- What all entries satisfy, all sorted entries satisfy.
  insert_sorted-All {κ} :
      (P : A → Type κ) (x : A) (xs : List A) → P x → All P xs → All P (insert_sorted x xs)
  unfolding insert_sorted
  insert_sorted-All P x [] h k = (h, tt)
  insert_sorted-All P x (y ∷ ys) h (k, ks) = elim (Bool-cases (less y x)) [
    | inl behind ↦ rw behind (k, insert_sorted-All P x ys h ks)
    | inr here ↦ rw here (h, (k, ks))
  ]

  pub sort_by-All {κ} : (P : A → Type κ) (xs : List A) → All P xs → All P (sort_by xs)
  unfolding sort_by
  sort_by-All P [] h = tt
  sort_by-All P (x ∷ xs) (h, hs) = insert_sorted-All P x (sort_by xs) h (sort_by-All P xs hs)

  -- The entry in front of an insertion.
  insert_sorted-IsSorted_behind :
      ((x y : A) → less x y ≡ true → less y x ≡ false)
      → (y x : A) (ys : List A) → less y x ≡ true
      → IsSorted (y ∷ ys)
      → IsSorted (insert_sorted x ys)
      → IsSorted (y ∷ insert_sorted x ys)
  unfolding insert_sorted
  insert_sorted-IsSorted_behind asym y x [] p h k = (asym y x p, tt)
  insert_sorted-IsSorted_behind asym y x (z ∷ zs) p h k = elim (Bool-cases (less z x)) [
    | inl behind ↦ rw behind (h.0, rw behind at k)
    | inr here ↦ rw here (asym y x p, rw here at k)
  ]

  insert_sorted-IsSorted :
      ((x y : A) → less x y ≡ true → less y x ≡ false)
      → (x : A) (xs : List A) → IsSorted xs
      → IsSorted (insert_sorted x xs)
  unfolding insert_sorted
  insert_sorted-IsSorted asym x [] h = tt
  insert_sorted-IsSorted asym x (y ∷ ys) h = elim (Bool-cases (less y x)) [
    | inl behind ↦ rw behind (
        insert_sorted-IsSorted_behind asym y x ys behind h
          (insert_sorted-IsSorted asym x ys (IsSorted-tail y ys h)))
    | inr here ↦ rw here (here, h)
  ]
    where
      IsSorted-tail : (a : A) (as' : List A) → IsSorted (a ∷ as') → IsSorted as'
      IsSorted-tail a [] s = tt
      IsSorted-tail a (b ∷ bs) s = s.1

  pub sort_by-IsSorted :
      ((x y : A) → less x y ≡ true → less y x ≡ false) → (xs : List A) → IsSorted (sort_by xs)
  unfolding sort_by
  sort_by-IsSorted asym [] = tt
  sort_by-IsSorted asym (x ∷ xs) =
      insert_sorted-IsSorted asym x (sort_by xs) (sort_by-IsSorted asym xs)

-- Each entry and the one directly below it.
abbrev pub Adjacent {ℓ} : {A : Type ℓ} → (A → A → Type 0) → List A → Type 0
Adjacent R [] = Unit {0}
Adjacent R (x ∷ []) = Unit {0}
Adjacent R (x ∷ y ∷ ys) = R x y × Adjacent R (y ∷ ys)

pub Adjacent-IsSorted {ℓ} :
    {A : Type ℓ} (less : A → A → Bool) (R : A → A → Type 0)
    → ((x y : A) → less y x ≡ false → R x y)
    → (l : List A) → IsSorted less l
    → Adjacent R l
Adjacent-IsSorted less R h [] s = tt
Adjacent-IsSorted less R h (x ∷ []) s = tt
Adjacent-IsSorted less R h (x ∷ y ∷ ys) (e, s) = (h x y e, Adjacent-IsSorted less R h (y ∷ ys) s)

-- Go's `<` on strings: the order of their bytes, which is that of their code points.
abbrev pub str_lt : String → String → Bool
str_lt s t = is_lt (compare s t)

flip : Ordering → Ordering
flip Ordering.lt = Ordering.gt
flip Ordering.eq = Ordering.eq
flip Ordering.gt = Ordering.lt

compare_ℕ-flip : (m n : ℕ) → compare_ℕ n m ≡ flip (compare_ℕ m n)
unfolding flip
compare_ℕ-flip m n = ground arith

flip-then : (o r : Ordering) → flip (and_then o r) ≡ and_then (flip o) (flip r)
unfolding flip
flip-then Ordering.lt r = refl
flip-then Ordering.eq r = refl
flip-then Ordering.gt r = refl

compare-flip : (s t : String) → compare t s ≡ flip (compare s t)
unfolding flip
compare-flip String.[] String.[] = rw compare.nil-nil
compare-flip String.[] (String.◌∷◌ d t) = rw (compare.cons-nil d t, compare.nil-cons d t)
compare-flip (String.◌∷◌ c s) String.[] = rw (compare.cons-nil c s, compare.nil-cons c s)
compare-flip (String.◌∷◌ c s) (String.◌∷◌ d t) =
    compare.cons-cons d c t s
    ∙ ap₂ and_then (compare_ℕ-flip (code c) (code d)) (compare-flip s t)
    ∙ sym (flip-then (compare_ℕ (code c) (code d)) (compare s t))
    ∙ ap flip (sym (compare.cons-cons c d s t))

pub str_lt_asymm : (s t : String) → str_lt s t ≡ true → str_lt t s ≡ false
unfolding flip
str_lt_asymm s t h = ground (arith, compare-flip s t)
