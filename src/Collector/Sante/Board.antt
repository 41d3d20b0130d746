-- ===== src/Collector/Sante/Board.antt =====
-- The page of findings of sante.go: `Sante`, `SanteFleet`, `State`, `Summary` and `Combined`.
use amarre.Base.{
  concat, ℕ, ◌+◌, Bool, String, Option, none, some, List, [], ◌∷◌, map, take, ltb, ◌==◌,
  if◌then◌else◌, str_eq, str_lt, Time, sort_by, ok, err,
}
use amarre.Config.{Config}
use amarre.Fleet.Health.{Health}
use amarre.Store.Tables.{Db}
use amarre.Store.Meta.{get_meta}
use amarre.Collector.View.{HostView, State, fleet}
use amarre.Collector.Sante.{crit, warn, Alerte, Probe, Texts}
use amarre.Collector.Sante.Evaluate.{evaluate}

pub record Sante : Type 0 where
  pub name : String
  pub crits : ℕ
  pub warns : ℕ
  pub health : Option Health
  pub probe : Option Probe
  pub view : HostView
  pub alertes : List Alerte

-- `json.Unmarshal` into a `Health` and into a `Probe`.
pub record Decoders : Type 0 where
  pub health_of : String → Option Health
  pub probe_of : String → Option Probe

-- The loop of `SanteFleet` that counts.
unfoldable pub count_crits : List Alerte → ℕ
count_crits [] = 0
count_crits (a ∷ as') = elim a.niveau [ crit ↦ count_crits as' + 1 | warn ↦ count_crits as' ]

unfoldable pub count_warns : List Alerte → ℕ
count_warns [] = 0
count_warns (a ∷ as') = elim a.niveau [ crit ↦ count_warns as' | warn ↦ count_warns as' + 1 ]

-- `loadMeta(name, "health", …)` and, for a probe, its address that is not empty.
unfoldable pub load_health : Decoders → Db → String → Option Health
unfolding get_meta
load_health d db name = elim (get_meta db name "health") [ err e ↦ none | ok r ↦ d.health_of r.0 ]

abbrev pub with_url : Option Probe → Option Probe
with_url none = none
with_url (some p) = if str_eq p.url "" then none else some p

unfoldable pub load_probe : Decoders → Db → String → Option Probe
unfolding get_meta
load_probe d db name = elim (get_meta db name "probe") [
  | err e ↦ none
  | ok r ↦ with_url (d.probe_of r.0)
]

-- A view with its report, its probe and their findings.
unfoldable pub judged : Texts → Time → HostView → Option Health → Option Probe → Sante
unfolding count_crits count_warns
judged t now v h p =
    let found = evaluate t now v h p v.expect in
    record {
      name = v.name;
      crits = count_crits found;
      warns = count_warns found;
      health = h;
      probe = p;
      view = v;
      alertes = found;
    }

-- The body of the loop of `SanteFleet`.
unfoldable pub sante_of : Texts → Decoders → Db → Time → HostView → Sante
unfolding load_health load_probe
sante_of t d db now v = judged t now v (load_health d db v.name) (load_probe d db v.name)

-- More serious first: by critical findings, then by warnings, then by name.
unfoldable pub graver : Sante → Sante → Bool
graver a b =
    if a.crits == b.crits
    then (if a.warns == b.warns then str_lt a.name b.name else ltb b.warns a.warns)
    else ltb b.crits a.crits

unfoldable pub sante_fleet : Texts → Decoders → Config → Db → Time → List Sante
unfolding sante_of graver
sante_fleet t d c db now = sort_by graver (map (sante_of t d db now) (fleet c db now))

-- The states "ok", "warn" and "crit" of the history and of the pages.
pub data Overall : Type 0 where
  fine watch critical : Overall

-- `Sante.State`
unfoldable pub state : Sante → Overall
state s = if ltb 0 s.crits then critical else if ltb 0 s.warns then watch else fine

abbrev pub overall_text : Overall → String
overall_text fine = "ok"
overall_text watch = "warn"
overall_text critical = "crit"

abbrev pub subjects : List Alerte → List String
subjects = map (λ a. a.sujet)

abbrev pub joined : List String → String
joined [] = ""
joined (s ∷ []) = s
joined (s ∷ t ∷ ts) = concat (s ∷ " · " ∷ joined (t ∷ ts) ∷ [])

-- `Sante.Summary`
unfoldable pub summary : Sante → String
summary s = joined (take 3 (subjects s.alertes))

unfoldable pub combined : HostView → Sante → Bool → Overall
combined v s known = elim v.state [
  | State.overdue ↦ critical
  | State.no_backup ↦ critical
  | State.unknown ↦ critical
  | State.ok ↦
      if known
      then (if ltb 0 s.crits then critical else if ltb 0 s.warns then watch else fine)
      else fine
]
