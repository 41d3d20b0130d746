-- ===== src/Collector/Cache.antt =====
-- The cache of cache.go: each method holds the lock throughout, and is a function of the map. The
-- clock is an argument. Two texts are compared by their bytes; a text is a byte prefix of another
-- exactly when it is one by characters.
pub mod Forgets
use text.Mathlib.Text.{starts_with}
use amarre.Base.{
  Bool, true, false, not, ◌&&◌, ◌||◌, String, Option, none, some, [], ◌∷◌, if◌then◌else◌, str_eq,
  ltb_ℤ, Time, Duration, sub_time, Dict, lookup, insert,
}

-- An entry: the value and when it was put.
abbrev pub Entry {ℓ} : Type ℓ → Type ℓ
Entry V = V × Time

-- `len(k) > len(host) && k[:len(host)] == host`
abbrev pub is_under : String → String → Bool
is_under host k = starts_with k host && not (str_eq k host)

module _ {ℓ} {V : Type ℓ} where
  -- `!ok || time.Since(e.at) > c.ttl`
  abbrev pub fresh : Duration → Time → Option (Entry V) → Option V
  fresh ttl now none = none
  fresh ttl now (some (v, at)) = if ltb_ℤ ttl (sub_time now at) then none else some v

  unfoldable pub get : Duration → Dict (Entry V) → String → Time → Option V
  get ttl m key now = fresh ttl now (lookup key m)

  unfoldable pub get_long : Dict (Entry V) → String → Duration → Time → Option V
  get_long m key ttl now = fresh ttl now (lookup key m)

  unfoldable pub put : Dict (Entry V) → String → V → Time → Dict (Entry V)
  put m key v now = insert key (v, now) m

  unfoldable pub invalidate : Dict (Entry V) → String → Dict (Entry V)
  invalidate [] host = []
  invalidate ((k, e) ∷ m) host =
      let rest = invalidate m host in if is_under host k then rest else (k, e) ∷ rest
