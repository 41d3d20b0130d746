-- ===== src/Collector/Cache/Forgets.antt =====
-- What an entry of the cache answers, and what an action on a host makes it forget.
use Prim.Native.String.{◌++◌ as text_append, len}
use text.Mathlib.TextPositions.{len-append, starts_with-append}
use text.Mathlib.TextLemmas.{append_assoc}
use amarre.Base.{
  ◌<◌, ◌≡◌, refl, sym, subst, ap, ◌∙◌, Bool, true, false, String, Option, none, some, [], ◌∷◌,
  arith, if◌then◌else◌, str_eq, str_eq_iff, ltb_ℤ, Time, Duration, sub_time, Dict, lookup, insert,
  lookup-insert_self, lookup-insert_ne, Bool-cases, inl, inr,
}
use amarre.Collector.Cache.{Entry, fresh, get, put, is_under, invalidate}

longer : (host t : String) → 0 < len t → str_eq (text_append host t) host ≡ false
longer host t h = elim (Bool-cases (str_eq (text_append host t) host)) [
  | inr e ↦ e
  | inl e ↦
      let same = ap len ((str_eq_iff (text_append host t) host).0 e) in
      absurd (omega (arith, len-append host t))
]

under-append : (host t : String) → 0 < len t → is_under host (text_append host t) ≡ true
under-append host t h = rw (starts_with-append host t, longer host t h) refl

entry_under :
    (host rest kind : String)
    → is_under host (text_append (text_append host rest) (text_append "|" kind)) ≡ true
entry_under host rest kind =
    subst (λ k. is_under host k ≡ true) (sym (append_assoc host rest (text_append "|" kind)))
      (under-append host (text_append rest (text_append "|" kind))
        (omega (arith, len-append rest (text_append "|" kind), len-append "|" kind)))

module _ {ℓ} {V : Type ℓ} where
  -- What was put last under a key is read for `ttl`, and then no longer; other keys are read as
  -- before.
  pub get-put :
      (ttl : Duration) (m : Dict (Entry V)) (key k : String) (v : V) (at now : Time)
      → get ttl (put m key v at) k now ≡ (
          if str_eq k key
          then (if ltb_ℤ ttl (sub_time now at) then none else some v)
          else get ttl m k now)
  unfolding get put
  get-put ttl m key k v at now = elim (Bool-cases (str_eq k key)) [
    | inl same ↦ rw same (
        ap (fresh ttl now) (
          ap (λ j. lookup j (insert key (v, at) m)) ((str_eq_iff k key).0 same)
          ∙ lookup-insert_self key (v, at) m))
    | inr other ↦ rw other (
        ap (fresh ttl now)
          (lookup-insert_ne k key (v, at) m (λ e. cc (other, (str_eq_iff k key).1 e))))
  ]

  lookup-invalidate :
      (m : Dict (Entry V)) (host k : String)
      → lookup k (invalidate m host) ≡ (if is_under host k then none else lookup k m)
  unfolding invalidate
  lookup-invalidate [] host k = ground arith
  lookup-invalidate ((j, e) ∷ m) host k = elim (Bool-cases (str_eq k j)) [
    | inl same ↦
        subst
          (λ i.
            lookup k (invalidate ((i, e) ∷ m) host)
            ≡ (if is_under host k then none else lookup k ((i, e) ∷ m)))
          ((str_eq_iff k j).0 same) (ground (arith, str_eq_iff k k, lookup-invalidate m host k))
    | inr other ↦ elim (Bool-cases (is_under host j)) [
      | inl gone ↦ rw (gone, other) (lookup-invalidate m host k)
      | inr kept ↦ rw (kept, other) (lookup-invalidate m host k)
    ]
  ]

  -- An action on a host leaves the entries whose key is not a proper extension of its name as
  -- they were and empties the others: what is kept under the host, and so also what is kept under
  -- every host whose name begins with its name.
  pub get-invalidate :
      (ttl : Duration) (m : Dict (Entry V)) (host k rest kind : String) (now : Time)
      → (get ttl (invalidate m host) k now ≡ (if is_under host k then none else get ttl m k now))
        × (get ttl
              (invalidate m host)
              (text_append (text_append host rest) (text_append "|" kind))
              now
            ≡ none)
  unfolding get
  get-invalidate ttl m host k rest kind now = (
    ap (fresh ttl now) (lookup-invalidate m host k) ∙ fresh_if (is_under host k) _,
    ap (fresh ttl now)
          (lookup-invalidate m host (text_append (text_append host rest) (text_append "|" kind)))
        ∙ fresh_if (is_under host (text_append (text_append host rest) (text_append "|" kind))) _
        ∙ gone,
  )
    where
      fresh_if :
          (b : Bool) (o : Option (Entry V))
          → fresh ttl now (if b then none else o) ≡ (if b then none else fresh ttl now o)
      fresh_if true o = refl
      fresh_if false o = refl

      gone :
          (if is_under host (text_append (text_append host rest) (text_append "|" kind))
            then none
            else fresh ttl now
                (lookup (text_append (text_append host rest) (text_append "|" kind)) m))
          ≡ none
      gone = rw (entry_under host rest kind) refl
