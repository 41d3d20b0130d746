-- ===== src/Config.antt =====
-- internal/config/config.go: `Config`, `HostConfig`, `validate` and `IPAllowed`. Reading the file
-- and the YAML is not modelled; the parsers of netip are arguments.
pub mod Net
pub mod Hosts
pub mod Sources
mod Tests
use amarre.Base.{
  ℕ, ◌+◌, Bool, true, false, String, Option, none, some, List, [], ◌∷◌, ◌++◌, ◌==◌, if◌then◌else◌,
  str_eq, ℤ, pos, is_zero_ℤ, Duration, hour, ◌*◌, Result, ok, err, ◌>>=◌,
}
use Net.{Addr, Prefix, bit_len, unmap, contains}

pub record HostConfig : Type 0 where
  pub name : String
  pub http_check : String
  pub http_expect : ℤ
  pub addr : String
  pub user : String
  pub port : ℤ
  pub expect : Duration
  pub disabled : Bool

pub record TlsConfig : Type 0 where
  pub cert_file : String
  pub key_file : String

pub record Config : Type 0 where
  pub listen : String
  pub state_db : String
  pub fleet_key : String
  pub interval : Duration
  pub allowed_cidrs : List String
  pub tls : TlsConfig
  pub hosts : List HostConfig
  pub allowed : List Prefix

pub data ConfigError : Type 0 where
  no_fleet_key : ConfigError
  bad_source : String → ConfigError
  no_name : ℕ → ConfigError
  declared_twice : String → ConfigError

-- `netip.ParsePrefix` and `netip.ParseAddr`.
pub record Parsers : Type 0 where
  pub parse_prefix : String → Option Prefix
  pub parse_addr : String → Option Addr

unfoldable pub member : String → List String → Bool
member s [] = false
member s (t ∷ ts) = let rest = member s ts in if str_eq s t then true else rest

-- One round of the loop over `AllowedCIDRs`: a prefix, or a bare address as a prefix of its length.
unfoldable pub parse_source : Parsers → String → Result ConfigError Prefix
parse_source net s = elim (net.parse_prefix s) [
  | some p ↦ ok p
  | none ↦ elim (net.parse_addr s) [
    | some a ↦ ok (record { addr = a; bits = bit_len a })
    | none ↦ err (bad_source s)
  ]
]

unfoldable pub parse_sources : Parsers → List String → Result ConfigError (List Prefix)
unfolding parse_source
parse_sources net [] = ok []
parse_sources net (s ∷ ss) = do p ← parse_source net s; ps ← parse_sources net ss; ok (p ∷ ps)

-- The defaults that the loop over `Hosts` writes into an entry: the name for the address, root,
-- port 22, 26 hours.
unfoldable pub with_defaults : HostConfig → HostConfig
with_defaults h = record h {
  addr = if str_eq h.addr "" then h.name else h.addr;
  user = if str_eq h.user "" then "root" else h.user;
  port = if is_zero_ℤ h.port then pos 22 else h.port;
  expect = if is_zero_ℤ h.expect then pos (26 * hour) else h.expect;
}

-- The loop over `Hosts`, from index `i`, with the names seen so far.
unfoldable pub check_hosts :
    ℕ → List String → List HostConfig → Result ConfigError (List HostConfig)
unfolding with_defaults member
check_hosts i seen [] = ok []
check_hosts i seen (h ∷ hs) =
    let rest = check_hosts (i + 1) (h.name ∷ seen) hs in
    if str_eq h.name ""
    then err (no_name i)
    else if member h.name seen
    then err (declared_twice h.name)
    else (rest >>= λ hs'. ok (with_defaults h ∷ hs'))

unfoldable pub validate : Parsers → Config → Result ConfigError Config
unfolding parse_sources check_hosts
validate net c = if str_eq c.fleet_key "" then err no_fleet_key else (do
  ps ← parse_sources net c.allowed_cidrs
  hs ← check_hosts 0 [] c.hosts
  ok (record c { allowed = c.allowed ++ ps; hosts = hs }))

unfoldable pub any_contains : List Prefix → Addr → Bool
any_contains [] a = false
any_contains (p ∷ ps) a = let rest = any_contains ps a in if contains p a then true else rest

unfoldable pub ip_allowed : Config → Addr → Bool
unfolding unmap any_contains
ip_allowed c a = any_contains c.allowed (unmap a)
