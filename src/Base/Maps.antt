-- ===== src/Base/Maps.antt =====
-- A Go map with string keys, as the list of its entries in the order in which a `range` visits
-- them. `insert` writes over an entry in place, `erase` is the builtin `delete`.
use Prim.Native.String.{String}
use mathlib.Core.Path.{◌≡◌, refl}
use mathlib.Core.Logic.{◌≢◌}
use mathlib.Core.List.{List, [], ◌∷◌}
use mathlib.Core.Option.{Option, none, some}
use native.Mathlib.Omega.{arith}
use amarre.Base.Tests.{if◌then◌else◌, str_eq, str_eq_iff}

abbrev pub Dict {ℓ} : Type ℓ → Type ℓ
Dict V = List (String × V)

module _ {ℓ} {V : Type ℓ} where
  abbrev pub lookup : String → Dict V → Option V
  lookup k [] = none
  lookup k ((j, v) ∷ d) = if str_eq k j then some v else lookup k d

  abbrev pub insert : String → V → Dict V → Dict V
  insert k v [] = (k, v) ∷ []
  insert k v ((j, w) ∷ d) = if str_eq k j then (j, v) ∷ d else (j, w) ∷ insert k v d

  abbrev pub erase : String → Dict V → Dict V
  erase k [] = []
  erase k ((j, w) ∷ d) = if str_eq k j then d else (j, w) ∷ erase k d

  pub lookup-insert_self : (k : String) (v : V) (d : Dict V) → lookup k (insert k v d) ≡ some v
  lookup-insert_self k v [] = ground (arith, str_eq_iff k k)
  lookup-insert_self k v ((j, w) ∷ d) = ground (arith, str_eq_iff k j, lookup-insert_self k v d)

  pub lookup-insert_ne :
      (j k : String) (v : V) (d : Dict V) → j ≢ k → lookup j (insert k v d) ≡ lookup j d
  lookup-insert_ne j k v [] h = ground (arith, str_eq_iff j k)
  lookup-insert_ne j k v ((i, w) ∷ d) h =
      ground (arith, str_eq_iff j i, str_eq_iff k i, lookup-insert_ne j k v d)

  pub lookup-erase_ne : (j k : String) (d : Dict V) → j ≢ k → lookup j (erase k d) ≡ lookup j d
  lookup-erase_ne j k [] h = refl
  lookup-erase_ne j k ((i, w) ∷ d) h =
      ground (arith, str_eq_iff j i, str_eq_iff k i, lookup-erase_ne j k d)

  -- A key stands in at most one entry, as in every Go map.
  abbrev pub IsMap : Dict V → Type ℓ
  IsMap [] = Unit
  IsMap ((j, w) ∷ d) = (lookup j d ≡ none) × IsMap d

  pub insert-IsMap : (k : String) (v : V) (d : Dict V) → IsMap d → IsMap (insert k v d)
  insert-IsMap k v [] h = (refl, tt)
  insert-IsMap k v ((j, w) ∷ d) h =
      ground
        (arith, str_eq_iff j k, str_eq_iff k j, lookup-insert_ne j k v d, insert-IsMap k v d h.1)

  pub erase-IsMap : (k : String) (d : Dict V) → IsMap d → IsMap (erase k d)
  erase-IsMap k [] h = tt
  erase-IsMap k ((j, w) ∷ d) h =
      ground (arith, str_eq_iff j k, str_eq_iff k j, lookup-erase_ne j k d, erase-IsMap k d h.1)

  pub lookup-erase_self : (k : String) (d : Dict V) → IsMap d → lookup k (erase k d) ≡ none
  lookup-erase_self k [] h = refl
  lookup-erase_self k ((j, w) ∷ d) h = ground (arith, str_eq_iff k j, lookup-erase_self k d h.1)
