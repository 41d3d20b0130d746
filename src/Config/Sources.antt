-- ===== src/Config/Sources.antt =====
-- Which sources the allowlist lets in.
use amarre.Base.{
  ℕ, ◌+◌, ◌-◌, ◌/◌, ◌^◌, ◌<◌, ◌≡◌, refl, sym, subst, ◌↔◌, ◌⊎◌, true, false, String, none, some,
  List, [], ◌∷◌, arith, Bool-cases, All, inl, inr, ok, Result-cases,
}
use amarre.Config.Net.{Addr, v4, v6, Prefix, bit_len, mapped_base, unmap, contains, contains_addr}
use amarre.Config.{
  Config, Parsers, parse_source, parse_sources, validate, any_contains, ip_allowed, check_hosts,
}

-- An IPv4 client that connects over IPv6 is judged by its IPv4 address.
pub ip_allowed-mapped :
    (c : Config) (a : ℕ) → a < 2 ^ 32 → ip_allowed c (v6 (mapped_base + a)) ≡ ip_allowed c (v4 a)
unfolding ip_allowed
ip_allowed-mapped c a h =
    let q : (mapped_base + a) / 2 ^ 32 ≡ 0xffff = omega arith in
    let m : mapped_base + a - mapped_base ≡ a = omega arith in rw (q, m)

-- Some declared source, as a prefix, holds the address.
abbrev pub Admits : Parsers → Addr → List String → Type 0
Admits net a [] = ⊥
Admits net a (s ∷ ss) =
    ((p : Prefix) × (parse_source net s ≡ ok p) × (contains p a ≡ true)) ⊎ Admits net a ss

any_contains-cons :
    (p : Prefix) (ps : List Prefix) (a : Addr)
    → (any_contains (p ∷ ps) a ≡ true) ↔ ((contains p a ≡ true) ⊎ (any_contains ps a ≡ true))
unfolding any_contains
any_contains-cons p ps a = elim (Bool-cases (contains p a)) [
  | inl here ↦ rw here (λ h. inl refl, λ h. refl)
  | inr there ↦ rw there (λ h. inr h, λ h. elim h [ inl e ↦ cc | inr e ↦ e ])
]

parse_sources_iff :
    (net : Parsers) (a : Addr) (ss : List String) (ps : List Prefix)
    → parse_sources net ss ≡ ok ps
    → (any_contains ps a ≡ true) ↔ Admits net a ss
unfolding parse_sources any_contains
parse_sources_iff net a [] ps e = let n : ps ≡ [] = ground arith in rw n (λ h. cc, λ h. absurd h)
parse_sources_iff net a (s ∷ ss) ps e = elim (Result-cases (parse_source net s)) [
  | inr (x, p) ↦ absurd (ground (arith, p))
  | inl (q, p) ↦ elim (Result-cases (parse_sources net ss)) [
    | inr (x, r) ↦ absurd (ground (arith, p, r))
    | inl (qs, r) ↦
        let ih = parse_sources_iff net a ss qs r in
        let n : ps ≡ q ∷ qs = ground (arith, p, r) in
        let both = any_contains-cons q qs a in
        rw n (
          λ h. elim (both.0 h) [ inl c ↦ inl (q, p, c) | inr c ↦ inr (ih.0 c) ],
          λ h. elim h [
            | inl (q', p', c) ↦
                both.1 (inl (subst (λ z. contains z a ≡ true) (ground (arith, p, p')) c))
            | inr later ↦ both.1 (inr (ih.1 later))
          ],
        )
  ]
]

-- After validation a client is let in exactly when some declared source, read as a prefix or as a
-- bare address, holds its unmapped address; with no declared source nobody is let in.
pub ip_allowed-validate :
    (net : Parsers) (c c' : Config) (a : Addr)
    → c.allowed ≡ []
    → validate net c ≡ ok c'
    → (ip_allowed c' a ≡ true) ↔ Admits net (unmap a) c.allowed_cidrs
unfolding validate ip_allowed
ip_allowed-validate net c c' a fresh e = elim (Result-cases (parse_sources net c.allowed_cidrs)) [
  | inr (x, p) ↦ absurd (ground (arith, p))
  | inl (ps, p) ↦ elim (Result-cases (check_hosts 0 [] c.hosts)) [
    | inr (x, q) ↦ absurd (ground (arith, p, q))
    | inl (hs, q) ↦
        let same : c'.allowed ≡ ps = ground (arith, p, q, fresh) in
        rw same (parse_sources_iff net (unmap a) c.allowed_cidrs ps p)
  ]
]

mapped_source-contains :
    (m : ℕ) (a : Addr)
    → m < 2 ^ 32
    → contains
        (record { addr = v6 (mapped_base + m); bits = bit_len (v6 (mapped_base + m)) })
        (unmap a)
      ≡ false
unfolding contains_addr unmap
mapped_source-contains m (v4 x) h = refl
mapped_source-contains m (v6 x) h = ground arith

-- A source that netip reads as a bare address, in the IPv6 form of an IPv4 address.
abbrev pub IsMapped : Parsers → String → Type 0
IsMapped net s =
    (net.parse_prefix s ≡ none)
    × ((m : ℕ) × (m < 2 ^ 32) × (net.parse_addr s ≡ some (v6 (mapped_base + m))))

parse_source-IsMapped :
    (net : Parsers) (s : String) (p : Prefix) (a : Addr)
    → IsMapped net s
    → parse_source net s ≡ ok p
    → contains p (unmap a) ≡ false
unfolding parse_source
parse_source-IsMapped net s p a (no_prefix, (m, small, addr)) e =
    let same : p ≡ record { addr = v6 (mapped_base + m); bits = 128 } =
      ground (arith, no_prefix, addr, e) in
    subst (λ q. contains q (unmap a) ≡ false) (sym same) (mapped_source-contains m a small)

Admits-none :
    (net : Parsers) (a : Addr) (ss : List String)
    → All (IsMapped net) ss
    → Admits net (unmap a) ss
    → ⊥
Admits-none net a [] all h = h
Admits-none net a (s ∷ ss) (here, all) (inl (p, e, c)) =
    let no_hit = parse_source-IsMapped net s p a here e in cc (c, no_hit)
Admits-none net a (s ∷ ss) (here, all) (inr later) = Admits-none net a ss all later

-- A configuration whose sources are all bare addresses in the IPv6 form of an IPv4 address is
-- accepted or not as any other, but where it is, it lets no client in, not even the one with that
-- very address: the client's address is unmapped, the declared one is not.
pub mapped_source_admits_nobody :
    (net : Parsers) (c c' : Config) (a : Addr)
    → c.allowed ≡ []
    → All (IsMapped net) c.allowed_cidrs
    → validate net c ≡ ok c'
    → ip_allowed c' a ≡ false
mapped_source_admits_nobody net c c' a fresh all e = elim (Bool-cases (ip_allowed c' a)) [
  | inr out ↦ out
  | inl in_ ↦
      absurd
        (Admits-none net a c.allowed_cidrs all ((ip_allowed-validate net c c' a fresh e).0 in_))
]
