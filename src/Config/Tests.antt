-- ===== src/Config/Tests.antt =====
-- Concrete configurations.
use amarre.Base.{
  ◌+◌, ◌*◌, ◌≡◌, ◌↔◌, refl, true, false, String, none, some, List, [], ◌∷◌, map, arith,
  if◌then◌else◌, str_eq, pos, minute, ok, err, str_eq_iff,
}
use amarre.Config.Net.{v4, v6, Prefix, mapped_base, unmap, contains_addr}
use amarre.Config.{
  HostConfig, Config, Parsers, member, with_defaults, validate, ip_allowed, declared_twice,
}
use amarre.Config.Hosts.{Distinct}
use amarre.Config.Sources.{Admits, ip_allowed-validate, mapped_source_admits_nobody}

-- "office" is 10.1.0.0/16 and "home" is the bare address 192.0.2.7.
abbrev net : Parsers
net = record {
  parse_prefix =
      λ s. if str_eq s "office" then some (record { addr = v4 0x0a010000; bits = 16 }) else none;
  parse_addr = λ s. if str_eq s "home" then some (v4 0xc0000207) else none;
}

abbrev host_named : String → HostConfig
host_named name = record {
  name = name;
  http_check = "";
  http_expect = pos 0;
  addr = "";
  user = "";
  port = pos 0;
  expect = pos 0;
  disabled = false;
}

abbrev declared : List String → List HostConfig → Config
declared cidrs hosts = record {
  listen = "127.0.0.1:8443";
  state_db = "amarre.db";
  fleet_key = "/etc/amarre/key";
  interval = pos (15 * minute);
  allowed_cidrs = cidrs;
  tls = record { cert_file = ""; key_file = "" };
  hosts = hosts;
  allowed = [];
}

abbrev two_hosts : List HostConfig
two_hosts = host_named "web" ∷ host_named "db" ∷ []

abbrev sources : List String
sources = "office" ∷ "home" ∷ []

abbrev prefixes : List Prefix
prefixes =
    record { addr = v4 0x0a010000; bits = 16 } ∷ record { addr = v4 0xc0000207; bits = 32 } ∷ []

loaded : Config
loaded = record (declared sources two_hosts) {
  allowed = prefixes;
  hosts = map with_defaults two_hosts;
}

twice :
    validate net (declared sources (host_named "web" ∷ host_named "web" ∷ []))
    ≡ err (declared_twice "web")
unfolding validate
twice = refl

two_hosts-Distinct : Distinct [] two_hosts
unfolding member
two_hosts-Distinct = (
  λ e. ground (arith, str_eq_iff "web" ""),
  refl,
  (λ e. ground (arith, str_eq_iff "db" ""), refl, tt),
)

validate-two_hosts : validate net (declared sources two_hosts) ≡ ok loaded
unfolding validate loaded
validate-two_hosts = refl

ip_allowed-validate_example :
    (ip_allowed loaded (v4 0x0a010203) ≡ true) ↔ Admits net (unmap (v4 0x0a010203)) sources
ip_allowed-validate_example =
    ip_allowed-validate net (declared sources two_hosts) loaded (v4 0x0a010203) refl
      validate-two_hosts

office_allowed : ip_allowed loaded (v4 0x0a010203) ≡ true
unfolding ip_allowed loaded contains_addr
office_allowed = refl

-- A parser that reads each text as the IPv6 form of 0.0.0.7.
abbrev mapped_net : Parsers
mapped_net = record { parse_prefix = λ s. none; parse_addr = λ s. some (v6 (mapped_base + 7)) }

abbrev closed_console : Config
closed_console = record (declared ("seven" ∷ []) two_hosts) {
  allowed = record { addr = v6 (mapped_base + 7); bits = 128 } ∷ [];
  hosts = map with_defaults two_hosts;
}

validate-closed_console :
    validate mapped_net (declared ("seven" ∷ []) two_hosts) ≡ ok closed_console
unfolding validate
validate-closed_console = refl

mapped_source_admits_nobody_example : ip_allowed closed_console (v6 (mapped_base + 7)) ≡ false
mapped_source_admits_nobody_example =
    mapped_source_admits_nobody mapped_net (declared ("seven" ∷ []) two_hosts) closed_console
      (v6 (mapped_base + 7)) refl ((refl, (7, omega arith, refl)), tt) validate-closed_console
