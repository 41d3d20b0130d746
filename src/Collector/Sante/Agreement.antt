-- ===== src/Collector/Sante/Agreement.antt =====
-- The two pages agree: the colour of a host on the front page is its state on the page of findings.
use mathlib.Core.List.{Perm}
use amarre.Base.{
  ◌+◌, ◌<◌, ◌≡◌, ◌≢◌, true, false, Option, List, [], ◌∷◌, ◌++◌, map, arith, str_lt_asymm, length,
  Time, sort_by-perm, sort_by-IsSorted, IsSorted,
}
use amarre.Config.{Config}
use amarre.Fleet.Health.{Health}
use amarre.Store.Tables.{Db}
use amarre.Collector.View.{HostView, State, fleet}
use amarre.Collector.Sante.{Alerte, Probe, Texts}
use amarre.Collector.Sante.Evaluate.{evaluate, backup_alertes}
use amarre.Collector.Sante.Board.{
  Sante, Decoders, count_crits, count_warns, judged, sante_of, graver, sante_fleet, state, combined,
}

pub count_crits-append :
    (xs ys : List Alerte) → count_crits (xs ++ ys) ≡ count_crits xs + count_crits ys
unfolding count_crits
count_crits-append [] ys = omega arith
count_crits-append (x ∷ xs) ys = ground (arith, count_crits-append xs ys)

counts : (xs : List Alerte) → count_crits xs + count_warns xs ≡ length xs
unfolding count_crits count_warns
counts [] = omega arith
counts (x ∷ xs) = ground (arith, counts xs)

pub backup_crit :
    (t : Texts) (v : HostView) → v.state ≢ State.ok → count_crits (backup_alertes t v v.expect) ≡ 1
unfolding backup_alertes count_crits
backup_crit t v h = ground arith

-- A view that is not up to date has a critical finding.
evaluate-crit :
    (t : Texts) (now : Time) (v : HostView) (h : Option Health) (p : Option Probe)
    → v.state ≢ State.ok
    → 0 < count_crits (evaluate t now v h p v.expect)
unfolding evaluate
evaluate-crit t now v h p ne =
    omega (arith, backup_crit t v ne, count_crits-append (backup_alertes t v v.expect) _)

-- Whatever the report and the probe of a host are, the front page and the page of findings give
-- it the same state.
pub combined-state :
    (t : Texts) (now : Time) (v : HostView) (h : Option Health) (p : Option Probe)
    → combined v (judged t now v h p) true ≡ state (judged t now v h p)
unfolding combined state judged
combined-state t now v h p = ground (arith, evaluate-crit t now v h p)

-- Every finding is counted once.
pub judged-counts :
    (t : Texts) (now : Time) (v : HostView) (h : Option Health) (p : Option Probe)
    → let s = judged t now v h p in s.crits + s.warns ≡ length s.alertes
unfolding judged
judged-counts t now v h p = counts (evaluate t now v h p v.expect)

graver_asymm : (a b : Sante) → graver a b ≡ true → graver b a ≡ false
unfolding graver
graver_asymm a b h = ground (arith, str_lt_asymm a.name b.name)

-- The page shows every host once, and none above a graver one.
pub sante_fleet-IsSorted :
    (t : Texts) (d : Decoders) (c : Config) (db : Db) (now : Time)
    → IsSorted graver (sante_fleet t d c db now)
      × Perm (sante_fleet t d c db now) (map (sante_of t d db now) (fleet c db now))
unfolding sante_fleet
sante_fleet-IsSorted t d c db now = (
  sort_by-IsSorted graver graver_asymm (map (sante_of t d db now) (fleet c db now)),
  sort_by-perm graver (map (sante_of t d db now) (fleet c db now)),
)
