-- ===== src/Web/Funcs/Tests.antt =====
-- The functions of the templates at concrete values.
use amarre.Base.{ℕ, ◌^◌, ◌≤◌, ◌≡◌, ◌↔◌, refl, arith, some, List, [], ◌∷◌, pos}
use amarre.Web.Funcs.{
  octets, scaled, panic, bytes, short, Argument, key, other, dict, dict_onto, has_prefix,
  outcome_class,
}
use amarre.Web.Funcs.Amounts.{Scaled, bytes-Scaled}

few : bytes (pos 1023) ≡ octets (pos 1023)
unfolding bytes
few = refl

mega : bytes (pos 1572864) ≡ scaled 1572864 (pos 1048576) "Mo"
unfolding bytes
mega = refl

exa : bytes (pos (2 ^ 60)) ≡ panic
unfolding bytes
exa = refl

bytes-Scaled_example :
    Scaled 1572864 (bytes (pos 1572864)) × ((bytes (pos 1572864) ≡ panic) ↔ (2 ^ 60 ≤ 1572864))
bytes-Scaled_example = bytes-Scaled 1572864 (omega arith) (omega arith)

five_runes : short (pos 5) "échéance" ≡ some "éché…"
unfolding short
five_runes = refl

refusal : outcome_class "refusé : occupé" ≡ "o-warn"
unfolding has_prefix
refusal = refl

abbrev arguments : List (Argument ℕ)
arguments = key "Host" ∷ other 3 ∷ other 1 ∷ other 2 ∷ key "odd" ∷ []

pairs : dict arguments ≡ ("Host", other 3) ∷ []
unfolding dict_onto
pairs = refl
