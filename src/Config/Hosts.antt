-- ===== src/Config/Hosts.antt =====
-- What a validated configuration says of its hosts.
use amarre.Base.{
  ℕ, ◌+◌, ◌≡◌, ◌≢◌, refl, false, String, List, [], ◌∷◌, ◌++◌, map, arith, inl, inr, str_eq_iff,
  is_zero_ℤ, All, Result, ok, Result-cases,
}
use amarre.Config.Net.{Prefix}
use amarre.Config.{
  HostConfig, Config, ConfigError, Parsers, member, parse_sources, with_defaults, check_hosts,
  validate,
}

-- The names are not empty, and none was seen before.
abbrev pub Distinct : List String → List HostConfig → Type 0
Distinct seen [] = Unit {0}
Distinct seen (h ∷ hs) = (h.name ≢ "") × (member h.name seen ≡ false) × Distinct (h.name ∷ seen) hs

-- What the rest of the console relies on: somewhere to connect to, and a delay to watch.
pub record IsReady (h : HostConfig) : Type 0 where
  pub named : h.name ≢ ""
  pub addressed : h.addr ≢ ""
  pub logged_in : h.user ≢ ""
  pub has_port : is_zero_ℤ h.port ≡ false
  pub expects : is_zero_ℤ h.expect ≡ false

check_hosts-ok :
    (i : ℕ) (seen : List String) (hs : List HostConfig)
    → Distinct seen hs
    → check_hosts i seen hs ≡ ok (map with_defaults hs)
unfolding check_hosts
check_hosts-ok i seen [] d = refl
check_hosts-ok i seen (h ∷ hs) d =
    ground (arith, str_eq_iff h.name "", check_hosts-ok (i + 1) (h.name ∷ seen) hs d.2)

check_hosts_sound :
    (i : ℕ) (seen : List String) (hs hs' : List HostConfig)
    → check_hosts i seen hs ≡ ok hs'
    → Distinct seen hs × (hs' ≡ map with_defaults hs)
unfolding check_hosts
check_hosts_sound i seen [] hs' e = (tt, cc)
check_hosts_sound i seen (h ∷ hs) hs' e = elim (Result-cases rest) [
  | inl (qs, r) ↦
      ground (arith, r, str_eq_iff h.name "", check_hosts_sound (i + 1) (h.name ∷ seen) hs qs)
  | inr (x, r) ↦ ground (arith, r)
]
  where
    rest : Result ConfigError (List HostConfig)
    rest = check_hosts (i + 1) (h.name ∷ seen) hs

with_defaults-IsReady : (h : HostConfig) → h.name ≢ "" → IsReady (with_defaults h)
unfolding with_defaults
with_defaults-IsReady h n = record {
  named = n;
  addressed = ground (arith, str_eq_iff h.addr "");
  logged_in = ground (arith, str_eq_iff h.user "", str_eq_iff "root" "");
  has_port = ground arith;
  expects = ground arith;
}

map-IsReady :
    (seen : List String) (hs : List HostConfig)
    → Distinct seen hs
    → All IsReady (map with_defaults hs)
map-IsReady seen [] d = tt
map-IsReady seen (h ∷ hs) d = (with_defaults-IsReady h d.0, map-IsReady (h.name ∷ seen) hs d.2)

-- A configuration that is accepted has a fleet key, distinct names that are not empty, and its
-- hosts are the declared ones with the defaults filled in, each of them ready to be collected.
pub validate_hosts :
    (net : Parsers) (c c' : Config)
    → validate net c ≡ ok c'
    → (c.fleet_key ≢ "")
      × Distinct [] c.hosts
      × (c'.hosts ≡ map with_defaults c.hosts)
      × All IsReady c'.hosts
unfolding validate
validate_hosts net c c' e = elim (Result-cases (parse_sources net c.allowed_cidrs)) [
  | inr (x, p) ↦ ground (arith, p)
  | inl (ps, p) ↦ elim (Result-cases (check_hosts 0 [] c.hosts)) [
    | inr (x, q) ↦ ground (arith, p, q)
    | inl (hs, q) ↦
        let (d, m) = check_hosts_sound 0 [] c.hosts hs q in
        let same : c'.hosts ≡ map with_defaults c.hosts = ground (arith, p, q, m) in
        (ground (arith, p, str_eq_iff c.fleet_key ""), d, same, rw same (map-IsReady [] c.hosts d))
  ]
]

-- Nothing else is refused: with a fleet key, sources that parse and distinct names that are not
-- empty, the configuration is accepted.
pub validate_accepts :
    (net : Parsers) (c : Config) (ps : List Prefix)
    → c.fleet_key ≢ ""
    → parse_sources net c.allowed_cidrs ≡ ok ps
    → Distinct [] c.hosts
    → validate net c
      ≡ ok (record c { allowed = c.allowed ++ ps; hosts = map with_defaults c.hosts })
unfolding validate
validate_accepts net c ps key p d =
    ground (arith, p, str_eq_iff c.fleet_key "", check_hosts-ok 0 [] c.hosts d)
