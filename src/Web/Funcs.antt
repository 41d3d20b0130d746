-- ===== src/Web/Funcs.antt =====
-- The functions of the templates, funcs.go, that do not draw and do not round: `combined`, `add`,
-- `dict`, `bytes`, `since`, `join`, `short`, `outcomeShort`, `outcomeClass`, `stateLabel` and
-- `sparklineFromChecks` up to the drawing. The two terms of the quotient of `bytes` are kept.
pub mod Amounts
pub mod Shortened
mod Tests
use Prim.Native.Char.{Char}
use amarre.Base.{
  ℕ, zero, suc, ◌+◌, ◌-◌, ◌*◌, ◌/◌, Bool, true, false, not, ◌&&◌, String, Option, none, some, List,
  [], ◌∷◌, map, if◌then◌else◌, str_eq, leb, ltb, ◌==◌, ℤ, pos, negsuc, ltb_ℤ, mul64, Time, Duration,
  is_zero, sub_time, Dict, insert, ◌<>◌, concat, count_of, decimal,
}
use amarre.Store.Checks.{Check}
use amarre.Collector.View.{HostView}
use amarre.Collector.Sante.Board.{Sante, Overall, combined}

-- `combined`: a host without findings has the `Sante` of an absent entry, whose name is empty.
abbrev pub combined_row : HostView → Sante → Overall
combined_row v s = combined v s (not (str_eq s.name ""))

-- What `bytes` writes: a number of octets, a quotient of two numbers with its unit, or the panic of
-- the index of the unit.
pub data Amount : Type 0 where
  octets : ℤ → Amount
  scaled : ℕ → ℤ → String → Amount
  panic : Amount

-- `"kMGTP"[exp]`, with the letter that follows it
abbrev pub unit_of : ℕ → Option String
unit_of zero = some "ko"
unit_of (suc zero) = some "Mo"
unit_of (suc (suc zero)) = some "Go"
unit_of (suc (suc (suc zero))) = some "To"
unit_of (suc (suc (suc (suc zero)))) = some "Po"
unit_of (suc (suc (suc (suc (suc e))))) = none

abbrev pub scaled_by : ℕ → ℤ → Option String → Amount
scaled_by n div none = panic
scaled_by n div (some unit) = scaled n div unit

-- The loop: `m` is what is left of `n`.
unfoldable pub scale : ℕ → ℕ → ℕ → ℤ → ℕ → Amount
unfolding mul64
scale zero n m div e = scaled_by n div (unit_of e)
scale (suc fuel) n m div e =
    let rest = scale fuel n (m / 1024) (mul64 div (pos 1024)) (e + 1) in
    if leb 1024 m then rest else scaled_by n div (unit_of e)

-- `bytes`; an int64 is divided six times at most.
unfoldable pub bytes : ℤ → Amount
unfolding scale
bytes (negsuc n) = octets (negsuc n)
bytes (pos n) = if ltb n 1024 then octets (pos n) else scale 7 n (n / 1024) (pos 1024) 0

-- `since` at a reading of the clock.
abbrev pub since : Time → Time → Duration
since now t = if is_zero t then pos 0 else sub_time now t

-- `strings.Join(ss, "  ")`
abbrev pub join : List String → String
join [] = ""
join (s ∷ []) = s
join (s ∷ t ∷ ss) = s <> ("  " <> join (t ∷ ss))

-- `r[:n]` for an `n` of at most the number of runes.
unfoldable pub first_runes : ℕ → String → String
first_runes zero s = ""
first_runes (suc n) String.[] = ""
first_runes (suc n) (String.◌∷◌ c s) = String.◌∷◌ c (first_runes n s)

-- `short`: `none` is the panic of the slice.
abbrev pub cut_to : ℤ → String → Option String
cut_to (pos (suc n)) s = some (first_runes n s <> "…")
cut_to (pos zero) s = none
cut_to (negsuc n) s = none

unfoldable pub short : ℤ → String → Option String
unfolding first_runes
short n s = if ltb_ℤ n (pos (count_of s)) then cut_to n s else some s

-- `strings.HasPrefix`
unfoldable pub has_prefix : String → String → Bool
has_prefix s String.[] = true
has_prefix String.[] (String.◌∷◌ d p) = false
has_prefix (String.◌∷◌ c s) (String.◌∷◌ d p) =
    let rest = has_prefix s p in if str_eq (String.◌∷◌ c "") (String.◌∷◌ d "") then rest else false

-- `outcomeShort`; its case for a prefix "échec" gives what its default gives.
abbrev pub outcome_short : String → String
outcome_short s =
    if str_eq s "succès"
    then "succès"
    else if str_eq s "demandé"
    then "demandé"
    else if has_prefix s "refusé"
    then "refusé"
    else "échec"

abbrev pub outcome_class : String → String
outcome_class s =
    if str_eq s "succès"
    then "o-ok"
    else if str_eq s "demandé"
    then "o-mute"
    else if has_prefix s "refusé"
    then "o-warn"
    else "o-crit"

abbrev pub state_label : String → String
state_label s =
    if str_eq s "ok"
    then "à jour"
    else if str_eq s "overdue"
    then "échéance dépassée"
    else if str_eq s "nobackup"
    then "aucune sauvegarde"
    else "injoignable"

-- An argument of `dict`: a string, or a value of another type.
pub data Argument {ℓ} (A : Type ℓ) : Type ℓ where
  key : String → Argument A
  other : A → Argument A

abbrev pub put_pair {ℓ} :
    {A : Type ℓ} → Dict (Argument A) → Argument A → Argument A → Dict (Argument A)
put_pair m (key k) v = insert k v m
put_pair m (other a) v = m

-- `dict`: the pairs in order; the last one is left out where it is not whole.
unfoldable pub dict_onto {ℓ} :
    {A : Type ℓ} → Dict (Argument A) → List (Argument A) → Dict (Argument A)
dict_onto m [] = m
dict_onto m (k ∷ []) = m
dict_onto m (k ∷ v ∷ kv) = dict_onto (put_pair m k v) kv

abbrev pub dict {ℓ} : {A : Type ℓ} → List (Argument A) → Dict (Argument A)
dict kv = dict_onto [] kv

abbrev pub sizes_of : List Check → List ℤ
sizes_of cs = map (λ c. c.size_bytes) cs
