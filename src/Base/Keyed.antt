-- ===== src/Base/Keyed.antt =====
-- Lists of records that have a name: the first entry of a name, names that stand once, and the
-- map that a loop `for _, x := range xs { m[x.Name] = x }` builds.
use Prim.Native.String.{String}
use mathlib.Core.Path.{◌≡◌, refl, subst}
use mathlib.Core.Bool.{Bool, true, false}
use mathlib.Core.Logic.{inl, inr}
use mathlib.Core.List.{List, [], ◌∷◌, ◌++◌, map}
use mathlib.Core.Option
use mathlib.Core.Option.{Option, none, some}
use native.Mathlib.Omega.{arith}
use text.Mathlib.TextPositions.{compare_refl}
use amarre.Base.Tests.{if◌then◌else◌, str_eq, str_eq_iff, Bool-cases}
use amarre.Base.Maps.{Dict, lookup, insert, lookup-insert_self, lookup-insert_ne}
use amarre.Base.Sorting.{insert_sorted, sort_by, str_lt}

str_lt_irrefl : (s : String) → str_lt s s ≡ false
str_lt_irrefl s = rw (compare_refl s)

abbrev pub or_else {ℓ} : {A : Type ℓ} → Option A → Option A → Option A
or_else (some a) o = some a
or_else none o = o

module _ {ℓ} {A : Type ℓ} (key : A → String) where
  unfoldable pub find_by : String → List A → Option A
  find_by k [] = none
  find_by k (x ∷ xs) = if str_eq (key x) k then some x else find_by k xs

  abbrev pub by_key : A → A → Bool
  by_key x y = str_lt (key x) (key y)

  abbrev pub Unique : List A → Type ℓ
  Unique [] = Unit
  Unique (x ∷ xs) = (find_by (key x) xs ≡ none) × Unique xs

  pub find_by-append :
      (k : String) (xs ys : List A) → find_by k (xs ++ ys) ≡ or_else (find_by k xs) (find_by k ys)
  unfolding find_by
  find_by-append k [] ys = refl
  find_by-append k (x ∷ xs) ys = ground (arith, find_by-append k xs ys)

  find_by-insert_sorted :
      (k : String) (x : A) (xs : List A)
      → find_by k (insert_sorted by_key x xs) ≡ (if str_eq (key x) k then some x else find_by k xs)
  unfolding find_by insert_sorted
  find_by-insert_sorted k x [] = refl
  find_by-insert_sorted k x (y ∷ ys) = elim (Bool-cases (by_key y x)) [
    | inr here ↦ rw here
    | inl behind ↦ rw behind (elim (Bool-cases (str_eq (key y) k)) [
      | inl hit ↦ rw hit (rw (other behind hit))
      | inr miss ↦ rw miss (find_by-insert_sorted k x ys)
    ])
  ]
    where
      other : by_key y x ≡ true → str_eq (key y) k ≡ true → str_eq (key x) k ≡ false
      other b h =
          let irr = str_lt_irrefl (key y) in
          elim (Bool-cases (str_eq (key x) k)) [
            | inr e ↦ e
            | inl e ↦
                let p : key x ≡ k = (str_eq_iff (key x) k).0 e in
                let q : key y ≡ k = (str_eq_iff (key y) k).0 h in
                let z : key x ≡ key y = rw (p, q) in
                absurd (cc (subst (λ t. str_lt (key y) t ≡ true) z b, irr))
          ]

  pub find_by-sort_by : (k : String) (xs : List A) → find_by k (sort_by by_key xs) ≡ find_by k xs
  unfolding find_by sort_by
  find_by-sort_by k [] = refl
  find_by-sort_by k (x ∷ xs) =
      rw (find_by-insert_sorted k x (sort_by by_key xs), find_by-sort_by k xs)

  insert_sorted-Unique :
      (x : A) (xs : List A)
      → find_by (key x) xs ≡ none
      → Unique xs
      → Unique (insert_sorted by_key x xs)
  unfolding insert_sorted find_by
  insert_sorted-Unique x [] e u = (refl, tt)
  insert_sorted-Unique x (y ∷ ys) e u = elim (Bool-cases (by_key y x)) [
    | inr here ↦ rw here (e, u)
    | inl behind ↦ rw behind (
      rw (find_by-insert_sorted (key y) x ys, fresh) u.0,
      insert_sorted-Unique x ys (tail_free) u.1,
    )
  ]
    where
      fresh : str_eq (key x) (key y) ≡ false
      fresh = ground (arith, str_eq_iff (key x) (key y), str_eq_iff (key y) (key x))

      tail_free : find_by (key x) ys ≡ none
      tail_free = ground arith

  pub sort_by-Unique : (xs : List A) → Unique xs → Unique (sort_by by_key xs)
  unfolding sort_by
  sort_by-Unique [] u = tt
  sort_by-Unique (x ∷ xs) u =
      insert_sorted-Unique x (sort_by by_key xs) (rw (find_by-sort_by (key x) xs) u.0)
        (sort_by-Unique xs u.1)

  unfoldable pub index_from : Dict A → List A → Dict A
  index_from m [] = m
  index_from m (x ∷ xs) = index_from (insert (key x) x m) xs

  pub lookup-index_from :
      (k : String) (m : Dict A) (xs : List A)
      → Unique xs
      → lookup k (index_from m xs) ≡ or_else (find_by k xs) (lookup k m)
  unfolding index_from find_by
  lookup-index_from k m [] u = refl
  lookup-index_from k m (x ∷ xs) u = elim (Bool-cases (str_eq (key x) k)) [
    | inl hit ↦
        let p : key x ≡ k = (str_eq_iff (key x) k).0 hit in
        rw (hit, lookup-index_from k (insert (key x) x m) xs u.1)
          (rw (subst (λ t. find_by t xs ≡ none) p u.0) (
            subst (λ t. lookup t (insert (key x) x m) ≡ some x) p (lookup-insert_self (key x) x m)))
    | inr miss ↦
        rw (miss, lookup-index_from k (insert (key x) x m) xs u.1)
          (rw (lookup-insert_ne k (key x) x m (λ e. ground (arith, str_eq_iff (key x) k))))
  ]

module _ {ℓ κ} {A : Type ℓ} {B : Type κ} (key : A → String) (key' : B → String) (f : A → B) where
  pub find_by-map :
      ((x : A) → key' (f x) ≡ key x)
      → (k : String) (xs : List A) → find_by key' k (map f xs) ≡ Option.map f (find_by key k xs)
  unfolding find_by
  find_by-map same k [] = refl
  find_by-map same k (x ∷ xs) = ground (arith, same x, find_by-map same k xs)

  pub map-Unique :
      ((x : A) → key' (f x) ≡ key x) → (xs : List A) → Unique key xs → Unique key' (map f xs)
  map-Unique same [] u = tt
  map-Unique same (x ∷ xs) u =
      (rw (same x, find_by-map same (key x) xs, u.0), map-Unique same xs u.1)
