-- ===== src/Web/Crumbs/Trail.antt =====
-- What the trail of a path leads to.
use Prim.Native.String.{String}
use text.Mathlib.TextLemmas.{nil-append, cons-append, append-nil, append_assoc}
use amarre.Base.{
  ◌≡◌, ◌≢◌, refl, sym, ap, ◌∙◌, true, false, List, [], ◌∷◌, ◌++◌, map, arith, str_eq, All, ◌<>◌,
  is_code, is_empty, lacks, heads_off, split_at, trim_left, trim_right, trim_by, split_at-piece,
  trim_left_off, trim_right-every, trim_right-cons, trim_right-append, split_at-lacks,
  cons-ne_empty,
}
use amarre.Web.Crumbs.{Crumb, walk, root, crumbs}

-- The name of a file or of a directory: not empty, without `/`.
abbrev pub IsSegment : String → Type 0
IsSegment s = (s ≢ "") × (lacks b'/' s ≡ true)

-- The absolute path of some names.
abbrev pub path_of : List String → String
path_of [] = ""
path_of (s ∷ ss) = String.◌∷◌ "/" (s <> path_of ss)

-- The beginnings of a list that are not empty, after `done`.
abbrev pub beginnings : List String → List String → List (List String × String)
beginnings done [] = []
beginnings done (s ∷ ss) = (done ++ s ∷ [], s) ∷ beginnings (done ++ s ∷ []) ss

abbrev pub crumb_to : List String × String → Crumb
crumb_to (names, last) = record { name = last; path = path_of names }

path_of-append : (as' bs : List String) → path_of (as' ++ bs) ≡ path_of as' <> path_of bs
path_of-append [] bs = sym (nil-append (path_of bs))
path_of-append (a ∷ as') bs = rw (path_of-append as' bs) (
    ap (λ t. String.◌∷◌ "/" t) (sym (append_assoc a (path_of as') (path_of bs)))
    ∙ sym (cons-append "/" (a <> path_of as') (path_of bs)))

path_of-one : (s : String) → path_of (s ∷ []) ≡ "/" <> s
path_of-one s =
    ap (λ t. String.◌∷◌ "/" t) (append-nil s ∙ sym (nil-append s)) ∙ sym (cons-append "/" "" s)

segment-not_empty : (s : String) → s ≢ "" → str_eq s "" ≡ false
segment-not_empty String.[] n = absurd (n refl)
segment-not_empty (String.◌∷◌ c s) n = cons-ne_empty c s

walk-beginnings :
    (done ss : List String)
    → All IsSegment ss
    → walk (path_of done) ss ≡ map crumb_to (beginnings done ss)
unfolding walk
walk-beginnings done [] h = refl
walk-beginnings done (s ∷ ss) ((n, l), hs) =
    let step : path_of done <> ("/" <> s) ≡ path_of (done ++ s ∷ []) =
      ap (λ t. path_of done <> t) (sym (path_of-one s)) ∙ sym (path_of-append done (s ∷ [])) in
    rw (segment-not_empty s n, step)
      (ap (λ l. crumb_to (done ++ s ∷ [], s) ∷ l) (walk-beginnings (done ++ s ∷ []) ss hs))

segment-empty : (s t : String) → s ≢ "" → is_empty (s <> t) ≡ false
segment-empty String.[] t n = absurd (n refl)
segment-empty (String.◌∷◌ c s) t n = rw (cons-append c s t) refl

segment-heads : (s t : String) → IsSegment s → heads_off (is_code b'/') (s <> t) ≡ true
segment-heads String.[] t (n, h) = absurd (n refl)
segment-heads (String.◌∷◌ c s) t (n, h) = rw (cons-append c s t) (ground (arith, h))

path-trim_right :
    (s : String) (ss : List String)
    → All IsSegment (s ∷ ss)
    → trim_right (is_code b'/') (s <> path_of ss) ≡ s <> path_of ss
path-trim_right s [] ((n, l), hs) = rw (append-nil s) (trim_right-every (is_code b'/') s l)
path-trim_right s (u ∷ us) ((n, l), (hu, hus)) =
    let more = path-trim_right u us (hu, hus) in
    trim_right-append (is_code b'/') s (String.◌∷◌ "/" (u <> path_of us)) refl (
      trim_right-cons (is_code b'/') "/" (u <> path_of us) (segment-empty u (path_of us) hu.0) more)

path-trimmed :
    (s : String) (ss : List String)
    → All IsSegment (s ∷ ss)
    → trim_by (is_code b'/') (path_of (s ∷ ss)) ≡ s <> path_of ss
path-trimmed s ss (h, hs) =
    ap (λ t. trim_right (is_code b'/') t)
      (slash (s <> path_of ss)
        ∙ trim_left_off (is_code b'/') (s <> path_of ss) (segment-heads s (path_of ss) h))
    ∙ path-trim_right s ss (h, hs)
  where
    slash : (t : String) → trim_left (is_code b'/') (String.◌∷◌ "/" t) ≡ trim_left (is_code b'/') t
    slash t = unfold trim_left in refl

path-split_at :
    (s : String) (ss : List String)
    → All IsSegment (s ∷ ss)
    → split_at b'/' (s <> path_of ss) ≡ s ∷ ss
path-split_at s [] ((n, l), hs) = rw (append-nil s) (split_at-lacks b'/' s l)
path-split_at s (u ∷ us) ((n, l), hs) =
    split_at-piece b'/' "/" s (u <> path_of us) l refl ∙ ap (λ l. s ∷ l) (path-split_at u us hs)

crumbs-root : crumbs "" ≡ root ∷ []
unfolding crumbs split_at trim_left trim_right
crumbs-root = refl

-- The trail of the absolute path of some directories begins at the root and then has one crumb for
-- each of them, in order, with its name, and with the path of the directories up to it.
pub crumbs-path_of :
    (ss : List String)
    → All IsSegment ss
    → crumbs (path_of ss) ≡ root ∷ map crumb_to (beginnings [] ss)
crumbs-path_of [] h = crumbs-root
crumbs-path_of (s ∷ ss) h = go
  where
    segments : split_at b'/' (trim_by (is_code b'/') (path_of (s ∷ ss))) ≡ s ∷ ss
    segments = ap (λ t. split_at b'/' t) (path-trimmed s ss h) ∙ path-split_at s ss h

    go : crumbs (path_of (s ∷ ss)) ≡ root ∷ map crumb_to (beginnings [] (s ∷ ss))
    go =
        unfold crumbs in
        ap (λ l. root ∷ walk "" l) segments ∙ ap (λ l. root ∷ l) (walk-beginnings [] (s ∷ ss) h)
