-- ===== src/Config/Net.antt =====
-- What config.go and server.go use of Go's net/netip: addresses, prefixes, `Unmap`, `Contains`
-- and `PrefixFrom`. An address is its family and its value; zones do not occur.
use amarre.Base.{ℕ, ◌-◌, ◌*◌, ◌/◌, ◌^◌, Bool, false, ◌&&◌, leb, ◌==◌, if◌then◌else◌}

pub data Addr : Type 0 where
  v4 : ℕ → Addr
  v6 : ℕ → Addr

pub record Prefix : Type 0 where
  pub addr : Addr
  pub bits : ℕ

abbrev pub bit_len : Addr → ℕ
bit_len (v4 a) = 32
bit_len (v6 a) = 128

-- `::ffff:0.0.0.0`, where the IPv4 addresses are mapped.
abbrev pub mapped_base : ℕ
mapped_base = 0xffff * 2 ^ 32

-- `addr.Unmap()`
unfoldable pub unmap : Addr → Addr
unmap (v4 a) = v4 a
unmap (v6 a) = if a / 2 ^ 32 == 0xffff then v4 (a - mapped_base) else v6 a

-- `p.Contains(ip)`: the same family, and the same leading bits.
unfoldable pub contains_addr : Addr → ℕ → Addr → Bool
contains_addr (v4 p) bits (v4 a) = leb bits 32 && (p / 2 ^ (32 - bits) == a / 2 ^ (32 - bits))
contains_addr (v6 p) bits (v6 a) = leb bits 128 && (p / 2 ^ (128 - bits) == a / 2 ^ (128 - bits))
contains_addr _ bits _ = false

abbrev pub contains : Prefix → Addr → Bool
contains p a = contains_addr p.addr p.bits a
