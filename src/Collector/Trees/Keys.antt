-- ===== src/Collector/Trees/Keys.antt =====
-- The two maps of the store of trees: their keys, and the sum of the counts.
use amarre.Base.{
  ℕ, ◌+◌, ◌≤◌, ◌≡◌, ◌≢◌, refl, ◌∙◌, String, none, some, [], ◌∷◌, arith, str_eq_iff, Time, length,
  Dict, lookup, insert, erase, IsMap, lookup-erase_ne,
}
use amarre.Fleet.Tree.{Tree}
use amarre.Collector.Trees.{count_of}

-- The sum of the counts of the trees.
abbrev pub total : Dict Tree → ℕ
total [] = 0
total ((k, t) ∷ d) = t.count + total d

-- The two maps have the same keys, none of them empty.
abbrev pub SameKeys : Dict Tree → Dict Time → Type 0
SameKeys [] [] = Unit {0}
SameKeys [] (y ∷ u) = ⊥
SameKeys (x ∷ d) [] = ⊥
SameKeys ((j, t) ∷ d) ((k, at) ∷ u) = (j ≡ k) × (j ≢ "") × SameKeys d u

pub total-erase : (k : String) (d : Dict Tree) → total (erase k d) + count_of (lookup k d) ≡ total d
total-erase k [] = refl
total-erase k ((j, t) ∷ d) = ground (arith, total-erase k d)

pub total-insert :
    (k : String) (t : Tree) (d : Dict Tree)
    → lookup k d ≡ none
    → total (insert k t d) ≡ total d + t.count
total-insert k t [] h = omega arith
total-insert k t ((j, s) ∷ d) h = ground (arith, total-insert k t d)

pub erase-SameKeys :
    (k : String) (d : Dict Tree) (u : Dict Time) → SameKeys d u → SameKeys (erase k d) (erase k u)
erase-SameKeys k [] [] h = tt
erase-SameKeys k [] (y ∷ u) h = absurd h
erase-SameKeys k (x ∷ d) [] h = absurd h
erase-SameKeys k ((j, t) ∷ d) ((i, at) ∷ u) h =
    ground (arith, str_eq_iff k j, str_eq_iff k i, erase-SameKeys k d u)

pub insert-SameKeys :
    (k : String) (t : Tree) (at : Time) (d : Dict Tree) (u : Dict Time)
    → k ≢ ""
    → SameKeys d u
    → SameKeys (insert k t d) (insert k at u)
insert-SameKeys k t at [] [] ne h = (refl, ne, tt)
insert-SameKeys k t at [] (y ∷ u) ne h = absurd h
insert-SameKeys k t at (x ∷ d) [] ne h = absurd h
insert-SameKeys k t at ((j, s) ∷ d) ((i, w) ∷ u) ne h =
    ground (arith, str_eq_iff k j, str_eq_iff k i, insert-SameKeys k t at d u ne)

pub touch-SameKeys :
    (k : String) (t : Tree) (at : Time) (d : Dict Tree) (u : Dict Time)
    → lookup k d ≡ some t
    → SameKeys d u
    → SameKeys d (insert k at u)
touch-SameKeys k t at [] [] e h = absurd (cc e)
touch-SameKeys k t at [] (y ∷ u) e h = absurd h
touch-SameKeys k t at (x ∷ d) [] e h = absurd h
touch-SameKeys k t at ((j, s) ∷ d) ((i, w) ∷ u) e h =
    ground (arith, str_eq_iff k j, str_eq_iff k i, touch-SameKeys k t at d u)

-- Every entry of the first map is one of the second.
abbrev pub Within : Dict Tree → Dict Tree → Type 0
Within [] e = Unit {0}
Within ((k, t) ∷ d) e = (lookup k e ≡ some t) × Within d e

Within-cons :
    (j : String) (s : Tree) (d e : Dict Tree)
    → lookup j d ≡ none
    → Within d e
    → Within d ((j, s) ∷ e)
Within-cons j s [] e h w = tt
Within-cons j s ((k, t) ∷ d) e h w =
    (ground (arith, str_eq_iff k j, str_eq_iff j k, w.0), Within-cons j s d e (ground arith) w.1)

pub Within-refl : (d : Dict Tree) → IsMap d → Within d d
Within-refl [] m = tt
Within-refl ((k, t) ∷ d) m =
    (ground (arith, str_eq_iff k k), Within-cons k t d d m.0 (Within-refl d m.1))

pub Within-erase :
    (j : String) (d e : Dict Tree) → lookup j d ≡ none → Within d e → Within d (erase j e)
Within-erase j [] e h w = tt
Within-erase j ((k, t) ∷ d) e h w = (
  lookup-erase_ne k j e (λ p. ground (arith, str_eq_iff j k, p)) ∙ w.0,
  Within-erase j d e (ground arith) w.1,
)

pub length-erase_le : (k : String) (d : Dict Tree) → length (erase k d) ≤ length d
length-erase_le k [] = omega arith
length-erase_le k ((j, t) ∷ d) = ground (arith, length-erase_le k d)
