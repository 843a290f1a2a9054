-- ===== src/Netmatch/Policy.antt =====
-- The access policy of internal/netmatch/netmatch.go.
use splitdns.Prelude.{
  ℕ, ◌+◌, ◌*◌, ◌<◌, ◌≡◌, inl, inr, refl, true, false, none, some, List, if◌then◌else◌, arith,
  Bool-cases,
}
use splitdns.Netmatch.{
  Addr, v4, v6, PrefixSet, pow32, unmap, any_contains, set_contains, Access, allowed,
}

-- An address that is written as an IPv4-mapped IPv6 address, with any zone, is treated as the IPv4 address.
unmap_mapped : (n : ℕ) (z : List ℕ) → n < pow32 → unmap (v6 (0xffff * pow32 + n) z) ≡ unmap (v4 n)
unfolding unmap
unmap_mapped n z h = ground arith

set_contains-unmap :
    (s : PrefixSet) (a b : Addr) → unmap a ≡ unmap b → set_contains s a ≡ set_contains s b
unfolding set_contains
set_contains-unmap none a b h = refl
set_contains-unmap (some ps) a b h = λ i. any_contains ps (h i)

-- The policy refuses what it refuses, whatever it allows, and allows what is in the set of allowed
-- prefixes only; a client that comes by an IPv4-mapped IPv6 address is judged as its IPv4 address.
pub allowed_lem :
    (a : Access) (addr : Addr)
    → (set_contains a.refuse addr ≡ true → allowed a addr ≡ false)
      × (allowed a addr ≡ true
          → (set_contains a.allow addr ≡ true) × (set_contains a.refuse addr ≡ false))
      × ((n : ℕ) (z : List ℕ)
          → n < pow32
          → allowed a (v6 (0xffff * pow32 + n) z) ≡ allowed a (v4 n))
unfolding allowed
allowed_lem a addr = (
  λ h. ground arith,
  λ h. elim (Bool-cases (set_contains a.refuse addr)) [
    | inl r ↦ absurd (ground arith)
    | inr r ↦ (ground arith, r)
  ],
  λ n z h.
      let same = unmap_mapped n z h in
      λ i.
        if set_contains-unmap a.refuse _ _ same i
        then false
        else set_contains-unmap a.allow _ _ same i,
)
