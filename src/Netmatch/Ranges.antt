-- ===== src/Netmatch/Ranges.antt =====
-- The address ranges of internal/netmatch/netmatch.go as ranges of numbers.
use splitdns.Prelude.{
  ℕ, ◌<◌, ◌≤◌, ◌≡◌, ◌≢◌, ◌⊎◌, ◌↔◌, refl, Bool, true, false, List, [], ◌∷◌, ◌||◌, not, if◌then◌else◌,
  arith,
}
use splitdns.Netmatch.{
  Addr, invalid, v4, v6, any_contains, unmap, is_private, is_loopback, is_link_local_unicast,
  is_global_unicast, is_forward_blocked, is_ddns_eligible, forward_block, non_routable_special,
  is_valid,
}

-- An IPv4 address is private or link-local: 10/8, 172.16/12, 192.168/16, 169.254/16.
abbrev pub LocalV4 : ℕ → Type 0
LocalV4 n =
    ((0x0a000000 ≤ n) × (n < 0x0b000000))
    ⊎ ((0xac100000 ≤ n) × (n < 0xac200000))
    ⊎ ((0xc0a80000 ≤ n) × (n < 0xc0a90000))
    ⊎ ((0xa9fe0000 ≤ n) × (n < 0xa9ff0000))

-- 192.0.0/24 and 198.18/15
abbrev pub SpecialV4 : ℕ → Type 0
SpecialV4 n = ((0xc0000000 ≤ n) × (n < 0xc0000100)) ⊎ ((0xc6120000 ≤ n) × (n < 0xc6140000))

-- fc00::/7, fe80::/10, ::1 and ::
abbrev pub BlockedV6 : ℕ → Type 0
BlockedV6 n =
    ((0xfc000000000000000000000000000000 ≤ n) × (n < 0xfe000000000000000000000000000000))
    ⊎ ((0xfe800000000000000000000000000000 ≤ n) × (n < 0xfec00000000000000000000000000000))
    ⊎ (n < 2)

-- the ranges of the blocklist
abbrev pub Blocked : Addr → Type 0
Blocked invalid = ⊥
Blocked (v4 n) = LocalV4 n ⊎ SpecialV4 n
Blocked (v6 n z) = BlockedV6 n × (z ≡ [])

blocked_v4 : (n : ℕ) → (any_contains forward_block (v4 n) ≡ true) ↔ (LocalV4 n ⊎ SpecialV4 n)
unfolding any_contains
blocked_v4 n = (λ h. ground arith, λ h. ground arith)

blocked_v6 : (n : ℕ) → (any_contains forward_block (v6 n []) ≡ true) ↔ BlockedV6 n
unfolding any_contains
blocked_v6 n = (λ h. ground arith, λ h. ground arith)

blocked_zone : (n c : ℕ) (z : List ℕ) → any_contains forward_block (v6 n (c ∷ z)) ≡ false
unfolding any_contains
blocked_zone n c z = ground arith

-- The filter of the forward path blocks an address exactly when it is, once an IPv4-mapped one is
-- turned to IPv4, in one of the ranges that its comments name: 10/8, 172.16/12, 192.168/16,
-- 169.254/16, 192.0.0/24, 198.18/15 or, without a zone, fc00::/7, fe80::/10, ::1 or ::.
pub is_forward_blocked_iff : (a : Addr) → (is_forward_blocked a ≡ true) ↔ Blocked (unmap a)
unfolding is_forward_blocked
is_forward_blocked_iff a =
    elim (unmap a)
      as (λ u.
        ((if not (is_valid u) then false else any_contains forward_block u) ≡ true) ↔ Blocked u) [
          | invalid ↦ (λ h. absurd (ground arith), λ h. absurd h)
          | v4 n ↦ blocked_v4 n
          | v6 n [] ↦ (λ h. ((blocked_v6 n).0 h, refl), λ h. (blocked_v6 n).1 h.0)
          | v6 n (c ∷ z) ↦ (λ h. absurd (ground (arith, blocked_zone n c z)), λ h. absurd (cc h.1))
        ]

-- not in the range from lo to hi - 1
abbrev pub Outside : ℕ → ℕ → ℕ → Type 0
Outside lo hi n = (n < lo) ⊎ (hi ≤ n)

-- outside the ranges that are not public, as the code has them
abbrev pub Public : Addr → Type 0
Public invalid = ⊥
Public (v4 n) =
    (0 < n)
    × Outside 0x0a000000 0x0b000000 n
    × Outside 0x64400000 0x64800000 n
    × Outside 0x7f000000 0x80000000 n
    × Outside 0xa9fe0000 0xa9ff0000 n
    × Outside 0xac100000 0xac200000 n
    × Outside 0xc0000200 0xc0000300 n
    × Outside 0xc0a80000 0xc0a90000 n
    × Outside 0xc6336400 0xc6336500 n
    × Outside 0xcb007100 0xcb007200 n
    × Outside 0xe0000000 0xf0000000 n
    × (n ≢ 0xffffffff)
Public (v6 n z) =
    (1 < n ⊎ ((n ≡ 0) × (z ≢ [])))
    × Outside 0xfc000000000000000000000000000000 0xfe000000000000000000000000000000 n
    × Outside 0xfe800000000000000000000000000000 0xfec00000000000000000000000000000 n
    × Outside 0xff000000000000000000000000000000 0x100000000000000000000000000000000 n
    × (Outside 0x20010db8000000000000000000000000 0x20010db9000000000000000000000000 n ⊎ (z ≢ []))

-- `IsDDNSEligible` once the address is unmapped
eligible : Addr → Bool
unfolding any_contains is_global_unicast is_private
eligible u =
    if not (is_valid u) || not (is_global_unicast u)
    then false
    else if is_private u || (is_link_local_unicast u || is_loopback u)
    then false
    else not (any_contains non_routable_special u)

eligible_v4 : (n : ℕ) → (eligible (v4 n) ≡ true) ↔ Public (v4 n)
unfolding eligible
eligible_v4 n = (λ h. ground arith, λ h. ground arith)

eligible_v6 : (n : ℕ) → (eligible (v6 n []) ≡ true) ↔ Public (v6 n [])
unfolding eligible
eligible_v6 n = (λ h. ground arith, λ h. ground arith)

eligible_zone : (n c : ℕ) (z : List ℕ) → (eligible (v6 n (c ∷ z)) ≡ true) ↔ Public (v6 n (c ∷ z))
unfolding eligible
eligible_zone n c z = (λ h. ground arith, λ h. ground arith)

-- An address may be written to public DNS exactly when it is, once an IPv4-mapped one is turned to IPv4,
-- outside the unspecified, loopback, private, link-local, multicast, carrier-grade NAT and
-- documentation ranges and is not the IPv4 broadcast address; for `IsGlobalUnicast` a zone makes an address
-- differ from the unspecified one, and an address with a zone is in no documentation range.
pub is_ddns_eligible_iff : (a : Addr) → (is_ddns_eligible a ≡ true) ↔ Public (unmap a)
unfolding is_ddns_eligible eligible
is_ddns_eligible_iff a = elim (unmap a) as (λ u. (eligible u ≡ true) ↔ Public u) [
  | invalid ↦ (λ h. absurd (ground arith), λ h. absurd h)
  | v4 n ↦ eligible_v4 n
  | v6 n [] ↦ eligible_v6 n
  | v6 n (c ∷ z) ↦ eligible_zone n c z
]

-- The writer of public DNS accepts the whole of 198.18/15, the range for benchmarks, though the
-- filter of the forward path takes it for non-public.
pub benchmark_eligible :
    (n : ℕ)
    → 0xc6120000 ≤ n
    → n < 0xc6140000
    → (is_ddns_eligible (v4 n) ≡ true) × (is_forward_blocked (v4 n) ≡ true)
unfolding is_ddns_eligible is_forward_blocked
benchmark_eligible n lo hi = (ground arith, ground arith)
