-- ===== src/Collector/Sante/Findings.antt =====
-- Which reports raise a critical finding, a warning or none.
use amarre.Base.{
  ◌+◌, ◌≡◌, ◌≢◌, refl, ◌⊎◌, inl, inr, Bool, true, false, not, ◌&&◌, ◌||◌, String, Option, none,
  some, List, [], ◌∷◌, ◌++◌, arith, if◌then◌else◌, Bool-cases, str_eq, str_eq_iff, pos, ltb_ℤ, ◌≤ℤ◌,
  Time,
}
use amarre.Fleet.Health.{Health, BackupStatus, TimerState, Filesystem}
use amarre.Collector.View.{HostView, State}
use amarre.Collector.Sante.{Alerte, Probe, Texts, check_kind}
use amarre.Collector.Sante.Evaluate.{
  evaluate, backup_alertes, health_alertes, failed_check, failed_deep, check_alertes, deep_alertes,
  timer_alertes, disk_alertes, unit_alertes, error_alertes, upgrade_alertes, is_stale,
}
use amarre.Collector.Sante.Board.{Overall, count_crits, count_warns, judged, state, critical, watch}
use amarre.Collector.Sante.Agreement.{count_crits-append}

-- The causes that say nothing of the data: a lock, or a cause that is not known.
abbrev pub is_harmless : String → Bool
is_harmless kind = str_eq kind "verrou" || str_eq kind "indetermine"

failed_check-crits :
    (kind error : String)
    → count_crits (failed_check kind error) ≡ (if is_harmless kind then 0 else 1)
unfolding failed_check count_crits
failed_check-crits kind error = ground (
  arith,
  str_eq_iff kind "verrou",
  str_eq_iff kind "absent",
  str_eq_iff kind "indetermine",
  str_eq_iff "absent" "indetermine",
)

failed_deep-crits :
    (kind error : String)
    → count_crits (failed_deep kind error) ≡ (if is_harmless kind then 0 else 1)
unfolding failed_deep count_crits
failed_deep-crits kind error = ground (
  arith,
  str_eq_iff kind "verrou",
  str_eq_iff kind "absent",
  str_eq_iff kind "motdepasse",
  str_eq_iff kind "indetermine",
  str_eq_iff "absent" "indetermine",
  str_eq_iff "motdepasse" "indetermine",
)

check_alertes-crits :
    (t : Texts) (bs : BackupStatus)
    → count_crits (check_alertes t bs) ≡ (
        if ltb_ℤ (pos 0) bs.check_at && not bs.check_ok
        then (if is_harmless (check_kind t bs.check_kind bs.check_error) then 0 else 1)
        else 0)
unfolding check_alertes count_crits
check_alertes-crits t bs = elim (Bool-cases (ltb_ℤ (pos 0) bs.check_at && not bs.check_ok)) [
  | inl failed ↦
      rw failed (failed_check-crits (check_kind t bs.check_kind bs.check_error) bs.check_error)
  | inr fine ↦ rw fine
]

deep_alertes-crits :
    (t : Texts) (bs : BackupStatus)
    → count_crits (deep_alertes t bs) ≡ (
        if ltb_ℤ (pos 0) bs.deep_at && not bs.deep_ok
        then (if is_harmless (check_kind t bs.deep_kind bs.deep_error) then 0 else 1)
        else 0)
unfolding deep_alertes count_crits
deep_alertes-crits t bs = elim (Bool-cases (ltb_ℤ (pos 0) bs.deep_at && not bs.deep_ok)) [
  | inl failed ↦
      rw failed (failed_deep-crits (check_kind t bs.deep_kind bs.deep_error) bs.deep_error)
  | inr fine ↦ rw fine
]

-- The two verifications of the repository raise as many critical findings as there are failures
-- whose cause is neither a lock nor unknown: a locked repository is never announced as a
-- corrupted one, and every other failure is critical.
pub integrity-crits :
    (t : Texts) (bs : BackupStatus)
    → count_crits (check_alertes t bs ++ deep_alertes t bs)
      ≡ (if ltb_ℤ (pos 0) bs.check_at && not bs.check_ok
          then (if is_harmless (check_kind t bs.check_kind bs.check_error) then 0 else 1)
          else 0)
        + (if ltb_ℤ (pos 0) bs.deep_at && not bs.deep_ok
            then (if is_harmless (check_kind t bs.deep_kind bs.deep_error) then 0 else 1)
            else 0)
integrity-crits t bs = rw (
  count_crits-append (check_alertes t bs) (deep_alertes t bs),
  check_alertes-crits t bs,
  deep_alertes-crits t bs,
)

-- All timers of the report are active.
abbrev pub AllActive : List (String × TimerState) → Type 0
AllActive [] = Unit {0}
AllActive ((name, t) ∷ ts) = (t.active ≡ true) × AllActive ts

timer_alertes-crits :
    (ts : List (String × TimerState)) → count_crits (timer_alertes ts) ≡ 0 → AllActive ts
unfolding timer_alertes count_crits
timer_alertes-crits [] h = tt
timer_alertes-crits ((name, t) ∷ ts) h = ground (arith, timer_alertes-crits ts)

-- No filesystem is filled to 92 percent.
abbrev pub AllRoomy : List Filesystem → Type 0
AllRoomy [] = Unit {0}
AllRoomy (f ∷ fs) = (f.pct ≤ℤ pos 91) × AllRoomy fs

disk_alertes-crits : (fs : List Filesystem) → count_crits (disk_alertes fs) ≡ 0 → AllRoomy fs
unfolding disk_alertes count_crits
disk_alertes-crits [] h = tt
disk_alertes-crits (f ∷ fs) h = ground (arith, disk_alertes-crits fs)

-- A report without a critical finding: what it promises of the host.
pub record IsSound (now : Time) (h : Health) : Type 0 where
  pub planned : AllActive h.timers
  pub roomy : AllRoomy h.filesystems
  pub running : h.failed_units ≡ []
  pub readable : h.io_errors_7d ≤ℤ pos 0
  pub patched : (h.updates_security ≤ℤ pos 0) ⊎ (is_stale now h.last_upgrade ≡ false)

unit_alertes-crits : (us : List String) → count_crits (unit_alertes us) ≡ 0 → us ≡ []
unfolding unit_alertes count_crits
unit_alertes-crits [] h = refl
unit_alertes-crits (u ∷ us) h = absurd (ground arith)

error_alertes-crits : (h : Health) → count_crits (error_alertes h) ≡ 0 → h.io_errors_7d ≤ℤ pos 0
unfolding error_alertes count_crits
error_alertes-crits h e = ground arith

upgrade_alertes-crits :
    (t : Texts) (now : Time) (h : Health)
    → count_crits (upgrade_alertes t now h) ≡ 0
    → (h.updates_security ≤ℤ pos 0) ⊎ (is_stale now h.last_upgrade ≡ false)
unfolding upgrade_alertes count_crits
upgrade_alertes-crits t now h e = elim (Bool-cases (ltb_ℤ (pos 0) h.updates_security)) [
  | inr none_left ↦ inl (ground arith)
  | inl some_left ↦ elim (Bool-cases (is_stale now h.last_upgrade)) [
    | inr recent ↦ inr recent
    | inl stale ↦ absurd (ground (arith, some_left, stale))
  ]
]

health_alertes-crits :
    (t : Texts) (now : Time) (h : Health)
    → count_crits (health_alertes t now (some h)) ≡ 0
    → IsSound now h
unfolding health_alertes
health_alertes-crits t now h e =
    let n = simp count_crits-append at e in
    record {
      planned = timer_alertes-crits h.timers (omega arith);
      roomy = disk_alertes-crits h.filesystems (omega arith);
      running = unit_alertes-crits h.failed_units (omega arith);
      readable = error_alertes-crits h (omega arith);
      patched = upgrade_alertes-crits t now h (omega arith);
    }

fresh_backup :
    (t : Texts) (v : HostView) → count_crits (backup_alertes t v v.expect) ≡ 0 → v.state ≡ State.ok
unfolding backup_alertes count_crits
fresh_backup t v h = ground arith

quiet-fresh :
    (t : Texts) (now : Time) (v : HostView) (o : Option Health) (p : Option Probe)
    → count_crits (evaluate t now v o p v.expect) ≡ 0
    → v.state ≡ State.ok
unfolding evaluate
quiet-fresh t now v o p e =
    let split = simp count_crits-append at e in fresh_backup t v (omega arith)

quiet-IsSound :
    (t : Texts) (now : Time) (v : HostView) (h : Health) (p : Option Probe)
    → count_crits (evaluate t now v (some h) p v.expect) ≡ 0
    → (v.state ≡ State.ok) × IsSound now h
unfolding evaluate
quiet-IsSound t now v h p e =
    let split = simp count_crits-append at e in
    (fresh_backup t v (omega arith), health_alertes-crits t now h (omega arith))

-- What is known of a host with its report; a host without one is at least shown as to watch.
abbrev pub Vouched : Time → Option Health → Overall → Type 0
Vouched now none s = s ≡ watch
Vouched now (some h) s = IsSound now h

count_warns-append :
    (xs ys : List Alerte) → count_warns (xs ++ ys) ≡ count_warns xs + count_warns ys
unfolding count_warns
count_warns-append [] ys = omega arith
count_warns-append (x ∷ xs) ys = ground (arith, count_warns-append xs ys)

missing_report :
    (t : Texts) (now : Time) (v : HostView) (p : Option Probe)
    → count_warns (evaluate t now v none p v.expect) ≢ 0
unfolding evaluate health_alertes count_warns
missing_report t now v p e =
    let split = simp count_warns-append at e in absurd (omega (arith, split))

-- A host that is not shown as critical has a fresh backup; with a health report, it has every timer
-- active, no filesystem at 92 percent or more, no failed unit, no disk error, and no security
-- update waiting while the upgrades have stopped; and without one it is shown as to watch.
pub not-critical-IsSound :
    (t : Texts) (now : Time) (v : HostView) (o : Option Health) (p : Option Probe)
    → state (judged t now v o p) ≢ critical
    → (v.state ≡ State.ok) × Vouched now o (state (judged t now v o p))
unfolding state judged
not-critical-IsSound t now v (some h) p ne =
    let none_left : count_crits (evaluate t now v (some h) p v.expect) ≡ 0 = ground arith in
    quiet-IsSound t now v h p none_left
not-critical-IsSound t now v none p ne =
    let none_left : count_crits (evaluate t now v none p v.expect) ≡ 0 = ground arith in
    (quiet-fresh t now v none p none_left, ground (arith, none_left, missing_report t now v p))
