-- ===== src/Commands/Starts.antt =====
-- What holds when `serve` comes as far as the listener.
use amarre.Base.{
  ◌≡◌, ◌≢◌, ◌↔◌, refl, sym, ap, ◌∙◌, Bool, true, false, not, ◌&&◌, Bool-cases, inl, inr, arith,
  String, [], ◌∷◌, ◌++◌, List, str_eq, str_eq_iff, length, ◌==◌, Result, Result-cases, ok, err, All,
}
use amarre.Config.{Config, Parsers, parse_source, parse_sources, check_hosts, validate, ip_allowed}
use amarre.Config.Net.{Addr, Prefix, unmap}
use amarre.Config.Sources.{Admits, ip_allowed-validate}
use amarre.Config.Hosts.{IsReady, validate_hosts}
use amarre.Store.Tables.{Db}
use amarre.Commands.{running, with_config, with_accounts, with_client, start}

-- One prefix at least comes of one source at least.
parse_sources-some :
    (net : Parsers) (ss : List String) (ps : List Prefix)
    → ss ≢ []
    → parse_sources net ss ≡ ok ps
    → ps ≢ []
unfolding parse_sources
parse_sources-some net [] ps some e = absurd (some refl)
parse_sources-some net (s ∷ ss) ps some e = elim (Result-cases (parse_source net s)) [
  | inr (x, p) ↦ ground (arith, p, e)
  | inl (a, p) ↦ elim (Result-cases (parse_sources net ss)) [
    | inr (x, q) ↦ ground (arith, p, q, e)
    | inl (more, q) ↦ ground (arith, p, q, e)
  ]
]

append-some : (xs ys : List Prefix) → ys ≢ [] → xs ++ ys ≢ []
append-some [] ys h e = h e
append-some (x ∷ xs) ys h e = absurd (ground (arith, e))

validate-allowed :
    (net : Parsers) (raw c : Config)
    → validate net raw ≡ ok c
    → c.allowed_cidrs ≢ []
    → c.allowed ≢ []
unfolding validate
validate-allowed net raw c e some = elim (Result-cases (parse_sources net raw.allowed_cidrs)) [
  | inr (x, p) ↦ ground (arith, p, e)
  | inl (ps, p) ↦ elim (Result-cases (check_hosts 0 [] raw.hosts)) [
    | inr (x, q) ↦ ground (arith, p, q, e)
    | inl (hs, q) ↦
        let sources : c.allowed_cidrs ≡ raw.allowed_cidrs = ground (arith, p, q, e) in
        let allowed : c.allowed ≡ raw.allowed ++ ps = ground (arith, p, q, e) in
        let full = parse_sources-some net raw.allowed_cidrs ps (λ h. some (sources ∙ h)) p in
        λ h. append-some raw.allowed ps full (sym allowed ∙ h)
  ]
]

validate-cidrs :
    (net : Parsers) (raw c : Config) → validate net raw ≡ ok c → c.allowed_cidrs ≡ raw.allowed_cidrs
unfolding validate
validate-cidrs net raw c e = elim (Result-cases (parse_sources net raw.allowed_cidrs)) [
  | inr (x, p) ↦ absurd (ground (arith, p, e))
  | inl (ps, p) ↦ elim (Result-cases (check_hosts 0 [] raw.hosts)) [
    | inr (x, q) ↦ absurd (ground (arith, p, q, e))
    | inl (hs, q) ↦ ground (arith, p, q, e)
  ]
]

-- What `serve` has before it listens.
abbrev pub Serves : Parsers → Config → Config → Db → Bool → Type 0
Serves net raw c db tls =
    (validate net raw ≡ ok c)
    × (raw.fleet_key ≢ "")
    × (raw.allowed_cidrs ≢ [])
    × (c.allowed ≢ [])
    × ((a : Addr) → (ip_allowed c a ≡ true) ↔ Admits net (unmap a) raw.allowed_cidrs)
    × All IsReady c.hosts
    × (db.users ≢ [])
    × ((tls ≡ true) ↔ ((c.tls.cert_file ≢ "") × (c.tls.key_file ≢ "")))

with_client-running :
    (a c : Config) (d db : Db) (server client : Result String (Unit {0})) (tls : Bool)
    → with_client a d server client ≡ running c db tls
    → (a ≡ c)
      × (d ≡ db)
      × ((not (str_eq a.tls.cert_file "") && not (str_eq a.tls.key_file "")) ≡ tls)
with_client-running a c d db server (err e) tls h = absurd (ground (arith, h))
with_client-running a c d db (err e) (ok u) tls h = absurd (ground (arith, h))
with_client-running a c d db (ok v) (ok u) tls h = ground (arith, h)

-- What the checks before the listener have seen.
abbrev Checked : Config → Config → Db → Bool → Type 0
Checked a c db tls =
    (a ≡ c)
    × (db.users ≢ [])
    × ((not (str_eq c.tls.cert_file "") && not (str_eq c.tls.key_file "")) ≡ tls)

with_accounts-running :
    (a c : Config) (opened : Result String Db) (client server : Result String (Unit {0})) (db : Db)
    (tls : Bool)
    → with_accounts a client server opened ≡ running c db tls
    → Checked a c db tls
with_accounts-running a c (err e) client server db tls h = absurd (ground (arith, h))
with_accounts-running a c (ok d) client server db tls h = elim (Bool-cases (length d.users == 0)) [
  | inl empty ↦ absurd (ground (arith, h, empty))
  | inr full ↦
      let reached : with_client a d server client ≡ running c db tls = ground (arith, h, full) in
      let (same, store, files) = with_client-running a c d db server client tls reached in
      (
        same,
        λ none. kept d db full store none,
        ap (λ x. not (str_eq x.tls.cert_file "") && not (str_eq x.tls.key_file "")) (sym same)
            ∙ files,
      )
]
  where
    kept : (d db : Db) → (length d.users == 0) ≡ false → d ≡ db → db.users ≡ [] → ⊥
    kept d db full store none =
        let empty : length d.users ≡ 0 = ap (λ x. length x.users) store ∙ ap length none in
        ground (arith, full, empty)

with_config-running :
    (a c : Config) (opened : Result String Db) (client server : Result String (Unit {0})) (db : Db)
    (tls : Bool)
    → with_config opened client server (ok a) ≡ running c db tls
    → (a ≡ c)
      × (c.allowed_cidrs ≢ [])
      × (db.users ≢ [])
      × ((not (str_eq c.tls.cert_file "") && not (str_eq c.tls.key_file "")) ≡ tls)
with_config-running a c opened client server db tls h =
    elim (Bool-cases (length a.allowed_cidrs == 0)) [
      | inl empty ↦ absurd (ground (arith, h, empty))
      | inr full ↦
          let reached : with_accounts a client server opened ≡ running c db tls =
            ground (arith, h, full) in
          let (same, accounts, files) =
            with_accounts-running a c opened client server db tls reached in
          (same, λ none. kept full same none, accounts, files)
    ]
  where
    kept : (length a.allowed_cidrs == 0) ≡ false → a ≡ c → c.allowed_cidrs ≡ [] → ⊥
    kept full same none =
        let empty : length a.allowed_cidrs ≡ 0 =
          ap (λ x. length x.allowed_cidrs) same ∙ ap length none in
        ground (arith, full, empty)

named_iff :
    (s t : String) (b : Bool)
    → (not (str_eq s "") && not (str_eq t "")) ≡ b
    → (b ≡ true) ↔ ((s ≢ "") × (t ≢ ""))
named_iff s t b h = ground (arith, h, str_eq_iff s "", str_eq_iff t "")

-- A console that gets as far as its listener has a configuration that was accepted, with the key of
-- the fleet and a declared source at least; it lets in the clients whose address a declared source
-- holds, and no others; every host is ready to be collected, and there is an account; and it serves
-- by TLS if and only if the configuration names both files. The file itself holds no prefixes.
pub start-Serves :
    (net : Parsers) (raw c : Config) (opened : Result String Db)
    (client server : Result String (Unit {0})) (db : Db) (tls : Bool)
    → raw.allowed ≡ []
    → start net (ok raw) opened client server ≡ running c db tls
    → Serves net raw c db tls
unfolding start
start-Serves net raw c opened client server db tls fresh h =
    elim (Result-cases (validate net raw)) [
      | inr (x, p) ↦ absurd (ground (arith, p, h))
      | inl (a, p) ↦
          let reached : with_config opened client server (ok a) ≡ running c db tls =
            ap (with_config opened client server) (sym p) ∙ h in
          let (same, sources, accounts, files) =
            with_config-running a c opened client server db tls reached in
          let accepted : validate net raw ≡ ok c = p ∙ ap (λ x. ok x) same in
          let (key, distinct, filled, ready) = validate_hosts net raw c accepted in
          (
            accepted,
            key,
            λ none. sources (validate-cidrs net raw c accepted ∙ none),
            validate-allowed net raw c accepted sources,
            λ address. ip_allowed-validate net raw c address fresh accepted,
            ready,
            accounts,
            named_iff c.tls.cert_file c.tls.key_file tls files,
          )
    ]
