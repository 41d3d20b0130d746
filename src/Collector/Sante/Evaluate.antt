-- ===== src/Collector/Sante/Evaluate.antt =====
-- `Evaluate` of sante.go, part by part and as a whole; `Sante`, its counts, `State`, `Summary` and
-- `Combined`; and `SanteFleet`. The clock is read once, where the code reads it at each age.
use amarre.Base.{
  concat, ℕ, ◌*◌, Bool, not, ◌&&◌, ◌||◌, String, Option, none, some, List, [], ◌∷◌, ◌++◌,
  if◌then◌else◌, str_eq, pos, ltb_ℤ, mul64, is_zero_ℤ, Time, Duration, hour, is_zero, sub_time,
}
use amarre.Fleet.Health.{
  Health, BackupStatus, Filesystem, LastUpgrade, LocalProbe, TimerState, age, eol_date,
}
use amarre.Collector.View.{HostView, State}
use amarre.Collector.Sante.{crit, warn, Alerte, alerte, Probe, Texts, itoa, join, check_kind}

abbrev pub day : ℕ
day = 24 * hour

-- The switch on the state of the view.
unfoldable pub backup_alertes : Texts → HostView → Duration → List Alerte
backup_alertes t v expect = elim v.state [
  | State.overdue ↦
      alerte crit "Sauvegarde en retard"
        (concat ("Aucun snapshot dans la fenêtre attendue de " ∷ t.duration_text expect ∷ "." ∷ []))
  | State.no_backup ↦ alerte crit "Aucune sauvegarde" "Le dépôt ne contient aucun snapshot."
  | State.unknown ↦ alerte crit "Hôte injoignable" v.error
  | State.ok ↦ []
]

-- The switch on the cause of a failed check.
unfoldable pub failed_check : String → String → List Alerte
failed_check kind error =
    if str_eq kind "verrou"
    then alerte warn "Vérification impossible : dépôt verrouillé"
        "Un verrou orphelin bloque le contrôle. Le bouton « Déverrouiller » le retire ; rien n'indique une corruption."
    else if str_eq kind "absent"
    then alerte crit "Dépôt introuvable au moment du contrôle" error
    else if str_eq kind "indetermine"
    then alerte warn "Vérification structurelle en échec"
        (concat ("Cause non déterminée : " ∷ error ∷ []))
    else alerte crit "Intégrité structurelle en échec" error

unfoldable pub check_alertes : Texts → BackupStatus → List Alerte
unfolding failed_check check_kind
check_alertes t bs =
    if ltb_ℤ (pos 0) bs.check_at && not bs.check_ok
    then failed_check (check_kind t bs.check_kind bs.check_error) bs.check_error
    else []

unfoldable pub failed_deep : String → String → List Alerte
failed_deep kind error =
    if str_eq kind "verrou"
    then alerte warn "Relecture impossible : dépôt verrouillé"
        "La vérification approfondie n'a pas pu démarrer. Ce n'est pas un signe de corruption."
    else if str_eq kind "absent"
    then alerte crit "Dépôt introuvable à la relecture" error
    else if str_eq kind "motdepasse"
    then alerte crit "Mot de passe de dépôt refusé" "Le dépôt existe mais ne s'ouvre pas."
    else if str_eq kind "indetermine"
    then alerte warn "Relecture en échec"
        (concat ("Cause non déterminée, relevé antérieur au diagnostic détaillé : " ∷ error ∷ []))
    else alerte crit "Corruption détectée à la relecture" error

unfoldable pub deep_alertes : Texts → BackupStatus → List Alerte
unfolding failed_deep check_kind
deep_alertes t bs =
    if ltb_ℤ (pos 0) bs.deep_at && not bs.deep_ok
    then failed_deep (check_kind t bs.deep_kind bs.deep_error) bs.deep_error
    else []

unfoldable pub never_checked : BackupStatus → List Alerte
never_checked bs =
    if is_zero_ℤ bs.check_at
    then alerte warn "Intégrité jamais vérifiée"
        "Aucune vérification depuis le raccordement de cet hôte."
    else []

unfoldable pub timer_alertes : List (String × TimerState) → List Alerte
timer_alertes [] = []
timer_alertes ((name, t) ∷ ts) =
    (if t.active
      then []
      else alerte crit "Planification désactivée"
          (concat (name ∷ " n'est pas actif : la sauvegarde a cessé d'exister." ∷ [])))
    ++ timer_alertes ts

unfoldable pub disk_alertes : List Filesystem → List Alerte
disk_alertes [] = []
disk_alertes (f ∷ fs) =
    (if ltb_ℤ (pos 91) f.pct
      then alerte crit "Disque presque plein" (
          concat
            (f.mount ∷ " à " ∷ itoa f.pct ∷ " % — la sauvegarde échouera avant d'écrire." ∷ []))
      else if ltb_ℤ (pos 84) f.pct
      then alerte warn "Disque à surveiller" (concat (f.mount ∷ " à " ∷ itoa f.pct ∷ " %." ∷ []))
      else [])
    ++ disk_alertes fs

unfoldable pub memory_alertes : Health → List Alerte
memory_alertes h =
    if ltb_ℤ (pos 0) h.mem_total && ltb_ℤ (mul64 h.mem_available (pos 10)) h.mem_total
    then alerte warn "Mémoire disponible faible" "Moins de 10 % de mémoire réellement disponible."
    else []

unfoldable pub unit_alertes : List String → List Alerte
unit_alertes [] = []
unit_alertes (u ∷ us) = alerte crit "Unité systemd en échec" (join (u ∷ us))

unfoldable pub error_alertes : Health → List Alerte
error_alertes h =
    (if ltb_ℤ (pos 0) h.oom_7d
      then alerte warn "Processus tués faute de mémoire" (
          concat (
            itoa h.oom_7d
            ∷ " occurrences sur 7 jours — un OOM pendant une sauvegarde laisse un verrou orphelin."
            ∷ []))
      else [])
    ++ (if ltb_ℤ (pos 0) h.io_errors_7d
        then alerte crit "Erreurs d'entrée-sortie" (
            concat (
              itoa h.io_errors_7d
              ∷ " sur 7 jours — vérifier le disque avant toute autre chose."
              ∷ []))
        else [])

unfoldable pub reboot_alertes : Health → List Alerte
reboot_alertes h =
    if h.reboot_required
    then alerte warn "Redémarrage requis" (
        concat (
          "Le système tourne sur du code qui n'est plus celui installé : "
          ∷ join h.reboot_packages
          ∷ []))
    else []

-- No upgrade is known, or the last one is more than thirty days old.
abbrev pub is_stale : Time → LastUpgrade → Bool
is_stale now u = is_zero_ℤ u.at || ltb_ℤ (pos (30 * day)) (age now u)

unfoldable pub upgrade_alertes : Texts → Time → Health → List Alerte
upgrade_alertes t now h =
    let u = h.last_upgrade in
    let days = itoa (t.days (age now u)) in
    let since =
      if ltb_ℤ (pos 0) u.at then concat ("il y a " ∷ days ∷ " jours" ∷ []) else "jamais" in
    if ltb_ℤ (pos 0) h.updates_security && is_stale now u
    then alerte crit "Correctifs de sécurité non appliqués" (
        concat (
          itoa h.updates_security
          ∷ " en attente, et plus rien d'installé "
          ∷ since
          ∷ " — les mises à jour automatiques ne passent plus."
          ∷ []))
    else if ltb_ℤ (pos 0) h.updates_security
    then alerte warn "Correctifs de sécurité en attente" (
        concat (
          itoa h.updates_security
          ∷ " paquets. La dernière mise à jour date d'il y a "
          ∷ days
          ∷ " jours."
          ∷ []))
    else if is_stale now u && ltb_ℤ (pos 0) u.at
    then alerte warn "Aucune mise à jour depuis longtemps" (
        concat (
          "Dernière installation il y a " ∷ days
          ∷ " jours. Vérifier que unattended-upgrades tourne encore." ∷ []))
    else []

-- The switch on the time until the end of support.
unfoldable pub eol_switch : Texts → String → Time → Duration → List Alerte
eol_switch t os eol d =
    if ltb_ℤ d (pos 0)
    then alerte crit "Système en fin de vie"
        (concat (os ∷ " n'est plus maintenu depuis le " ∷ t.date_text eol ∷ "." ∷ []))
    else if ltb_ℤ d (pos (90 * day))
    then alerte crit "Fin de support imminente"
        (concat (os ∷ " cesse d'être maintenu le " ∷ t.date_text eol ∷ "." ∷ []))
    else if ltb_ℤ d (pos (180 * day))
    then alerte warn "Fin de support approchante"
        (concat (os ∷ " jusqu'au " ∷ t.date_text eol ∷ "." ∷ []))
    else []

unfoldable pub eol_alertes : Texts → Time → Health → List Alerte
unfolding eol_switch
eol_alertes t now h = elim (eol_date t.parse_date h) [
  | none ↦ []
  | some eol ↦ eol_switch t h.os eol (sub_time eol now)
]

unfoldable pub local_alertes : Option LocalProbe → List Alerte
local_alertes none = []
local_alertes (some lp) =
    if not (str_eq lp.url "") && not lp.up
    then alerte crit "Application sans réponse" (
        concat (
          lp.url
          ∷ " — "
          ∷ lp.error
          ∷ " (sondé depuis l'hôte, après "
          ∷ itoa lp.attempts
          ∷ " tentatives)"
          ∷ []))
    else []

-- The switch on the time until the certificate expires.
unfoldable pub cert_switch : Texts → Time → Duration → List Alerte
cert_switch t expiry d =
    if ltb_ℤ d (pos 0)
    then alerte crit "Certificat expiré" (concat ("Depuis le " ∷ t.date_text expiry ∷ "." ∷ []))
    else if ltb_ℤ d (pos (15 * day))
    then alerte crit "Certificat proche de l'expiration" (
        concat
          ("Le " ∷ t.date_text expiry ∷ " — le renouvellement automatique a-t-il échoué ?" ∷ []))
    else []

unfoldable pub probe_alertes : Texts → Time → Option Probe → List Alerte
unfolding cert_switch
probe_alertes t now none = []
probe_alertes t now (some p) =
    (if p.up
      then []
      else alerte crit "Site indisponible" (
          concat (
            p.url
            ∷ " — "
            ∷ p.error
            ∷ " (après "
            ∷ itoa (pos p.attempts)
            ∷ " tentatives espacées)"
            ∷ [])))
    ++ (if is_zero p.cert_expiry
        then []
        else cert_switch t p.cert_expiry (sub_time p.cert_expiry now))

-- The alerts of a report, or of its absence.
unfoldable pub health_alertes : Texts → Time → Option Health → List Alerte
health_alertes t now none =
    alerte warn "Relevé de santé indisponible" "L'hôte n'a pas encore répondu au relevé."
health_alertes t now (some h) =
    check_alertes t h.backup_status
    ++ (deep_alertes t h.backup_status
        ++ (never_checked h.backup_status
            ++ (timer_alertes h.timers
                ++ (disk_alertes h.filesystems
                    ++ (memory_alertes h
                        ++ (unit_alertes h.failed_units
                            ++ (error_alertes h
                                ++ (reboot_alertes h
                                    ++ (upgrade_alertes t now h ++ eol_alertes t now h)))))))))

abbrev pub local_probe_of : Option Health → Option LocalProbe
local_probe_of none = none
local_probe_of (some h) = h.local_probe

-- The alerts that `Evaluate(expect)` adds, in their order.
unfoldable pub evaluate :
    Texts → Time → HostView → Option Health → Option Probe → Duration → List Alerte
evaluate t now v h p expect =
    backup_alertes t v expect
    ++ (health_alertes t now h ++ (local_alertes (local_probe_of h) ++ probe_alertes t now p))
