-- ===== src/Netmatch.antt =====
-- Address matching, internal/netmatch/netmatch.go. An address is Go's `netip.Addr`: none, a number of
-- 32 bits, or a number of 128 bits with an IPv6 zone. The tests that the code takes from `net/netip`
-- are written out as that package documents them.
pub mod Ranges
pub mod Policy
use splitdns.Prelude.{
  ℕ, zero, suc, ◌+◌, ◌-◌, ◌*◌, ◌/◌, ◌%◌, ◌^◌, Bool, true, false, ◌&&◌, ◌||◌, not, Option, none,
  some, List, [], ◌∷◌, if◌then◌else◌, ltb, leb, ◌==◌, any,
}

-- `netip.Addr`
pub data Addr : Type 0 where
  invalid : Addr
  v4 : ℕ → Addr
  v6 : ℕ → List ℕ → Addr

-- `netip.Prefix`, valid
pub record Prefix : Type 0 where
  pub is6 : Bool
  pub base : ℕ
  pub bits : ℕ

abbrev pub pow96 : ℕ
pow96 = 79228162514264337593543950336

abbrev pub pow32 : ℕ
pow32 = 4294967296

-- 2^128
abbrev pub pow128 : ℕ
pow128 = pow96 * pow32

-- `Addr.Is4In6`: ::ffff:0:0/96
abbrev pub is_4in6 : ℕ → Bool
is_4in6 n = n / pow32 == 0xffff

-- `Addr.Unmap`
unfoldable pub unmap : Addr → Addr
unmap invalid = invalid
unmap (v4 n) = v4 n
unmap (v6 n z) = if is_4in6 n then v4 (n % pow32) else v6 n z

-- the number of addresses of a prefix
abbrev pub block : ℕ → ℕ → ℕ
block width bits = 2 ^ (width - bits)

abbrev pub no_zone : List ℕ → Bool
no_zone [] = true
no_zone (_ ∷ _) = false

-- `Prefix.Contains`: of the same family, without a zone, and equal in the leading bits
unfoldable pub contains : Prefix → Addr → Bool
contains p invalid = false
contains p (v4 n) = not p.is6 && (n / block 32 p.bits == p.base / block 32 p.bits)
contains p (v6 n z) = p.is6 && (no_zone z && (n / block 128 p.bits == p.base / block 128 p.bits))

-- `Prefix.Masked`
unfoldable pub masked : Prefix → Prefix
masked p = let b = block (if p.is6 then 128 else 32) p.bits in record p { base = p.base / b * b }

-- `Set`; the nil set is `none`
abbrev pub PrefixSet : Type 0
PrefixSet = Option (List Prefix)

-- the loop of `ParseSet`; `parse` is `netip.ParsePrefix` on the trimmed text, and an empty text is
-- skipped
unfoldable pub parse_set : (List ℕ → Option Prefix) → List (List ℕ) → Option (List Prefix)
unfolding masked
parse_set parse [] = some []
parse_set parse ([] ∷ cidrs) = parse_set parse cidrs
parse_set parse ((c ∷ cs) ∷ cidrs) = elim (parse (c ∷ cs)) [
  | none ↦ none
  | some p ↦ elim (parse_set parse cidrs) [ none ↦ none | some ps ↦ some (masked p ∷ ps) ]
]

any_contains : List Prefix → Addr → Bool
unfolding contains
any_contains ps a = any (λ p. contains p a) ps

-- `Set.Contains`
unfoldable pub set_contains : PrefixSet → Addr → Bool
unfolding any_contains unmap
set_contains none a = false
set_contains (some ps) a = any_contains ps (unmap a)

-- `Access`
pub record Access : Type 0 where
  pub allow : PrefixSet
  pub refuse : PrefixSet

-- `Access.Allowed`; a nil set contains nothing
unfoldable pub allowed : Access → Addr → Bool
allowed a addr = if set_contains a.refuse addr then false else set_contains a.allow addr

-- `Addr.IsLoopback`: 127.0.0.0/8 and ::1
unfoldable pub is_loopback : Addr → Bool
is_loopback invalid = false
is_loopback (v4 n) = n / 16777216 == 127
is_loopback (v6 n z) = n == 1

-- `Addr.IsPrivate`: 10.0.0.0/8, 172.16.0.0/12, 192.168.0.0/16 and fc00::/7
unfoldable pub is_private : Addr → Bool
is_private invalid = false
is_private (v4 n) = n / 16777216 == 10 || (n / 1048576 == 2753 || n / 65536 == 49320)
is_private (v6 n z) = n / 2 ^ 121 == 126

-- `Addr.IsLinkLocalUnicast`: 169.254.0.0/16 and fe80::/10
unfoldable pub is_link_local_unicast : Addr → Bool
is_link_local_unicast invalid = false
is_link_local_unicast (v4 n) = n / 65536 == 43518
is_link_local_unicast (v6 n z) = n / 2 ^ 118 == 1018

-- `Addr.IsMulticast`: 224.0.0.0/4 and ff00::/8
unfoldable pub is_multicast : Addr → Bool
is_multicast invalid = false
is_multicast (v4 n) = n / 268435456 == 14
is_multicast (v6 n z) = n / 2 ^ 120 == 255

-- `Addr.IsGlobalUnicast`
unfoldable pub is_global_unicast : Addr → Bool
unfolding is_loopback is_multicast is_link_local_unicast
is_global_unicast invalid = false
is_global_unicast (v4 n) =
    not (n == 0 || n == 4294967295)
    && (not (is_loopback (v4 n))
        && (not (is_multicast (v4 n)) && not (is_link_local_unicast (v4 n))))
is_global_unicast (v6 n z) =
    not (n == 0 && no_zone z)
    && (not (is_loopback (v6 n z))
        && (not (is_multicast (v6 n z)) && not (is_link_local_unicast (v6 n z))))

abbrev pub is_valid : Addr → Bool
is_valid invalid = false
is_valid _ = true

-- `IsLocalScope`
unfoldable pub is_local_scope : Addr → Bool
unfolding is_loopback is_private is_link_local_unicast unmap
is_local_scope a = let u = unmap a in is_loopback u || (is_private u || is_link_local_unicast u)

abbrev pub prefix4 : ℕ → ℕ → Prefix
prefix4 base bits = record { is6 = false; base = base; bits = bits }

abbrev pub prefix6 : ℕ → ℕ → Prefix
prefix6 base bits = record { is6 = true; base = base; bits = bits }

-- `forwardBlock`
abbrev pub forward_block : List Prefix
forward_block =
    prefix4 0x0a000000 8
    ∷ prefix4 0xac100000 12
    ∷ prefix4 0xc0a80000 16
    ∷ prefix4 0xa9fe0000 16
    ∷ prefix4 0xc0000000 24
    ∷ prefix4 0xc6120000 15
    ∷ prefix6 0xfc000000000000000000000000000000 7
    ∷ prefix6 0xfe800000000000000000000000000000 10
    ∷ prefix6 1 128
    ∷ prefix6 0 128
    ∷ []

-- `IsForwardBlocked`
unfoldable pub is_forward_blocked : Addr → Bool
unfolding any_contains unmap
is_forward_blocked a =
    let u = unmap a in if not (is_valid u) then false else any_contains forward_block u

-- `nonRoutableSpecial`
abbrev pub non_routable_special : List Prefix
non_routable_special =
    prefix4 0x64400000 10
    ∷ prefix4 0xc0000200 24
    ∷ prefix4 0xc6336400 24
    ∷ prefix4 0xcb007100 24
    ∷ prefix6 0x20010db8000000000000000000000000 32
    ∷ []

-- `IsDDNSEligible`
unfoldable pub is_ddns_eligible : Addr → Bool
unfolding any_contains unmap is_global_unicast is_private
is_ddns_eligible a =
    let u = unmap a in
    if not (is_valid u) || not (is_global_unicast u)
    then false
    else if is_private u || (is_link_local_unicast u || is_loopback u)
    then false
    else not (any_contains non_routable_special u)
