-- ===== src/Tests/Netmatch.antt =====
-- Runs of internal/netmatch/netmatch.go at concrete addresses.
use splitdns.Prelude.{◌+◌, ◌*◌, ◌≡◌, ◌↔◌, refl, true, false, some, [], ◌∷◌}
use splitdns.Netmatch.{
  Addr, v4, v6, pow32, prefix4, unmap, set_contains, Access, allowed, is_forward_blocked,
  is_ddns_eligible,
}
use splitdns.Netmatch.Ranges.{Blocked, Public, is_forward_blocked_iff, is_ddns_eligible_iff}

-- allows 10.0.0.0/8 but for 10.1.0.0/16
abbrev policy : Access
policy = record {
  allow = some (prefix4 0x0a000000 8 ∷ []);
  refuse = some (prefix4 0x0a010000 16 ∷ []);
}

-- 10.2.0.1 and 10.1.0.1
abbrev inside : Addr
inside = v4 0x0a020001

abbrev refused : Addr
refused = v4 0x0a010001

-- ::ffff:192.168.0.1
abbrev mapped : Addr
mapped = v6 (0xffff * pow32 + 0xc0a80001) []

allowed-inside : allowed policy inside ≡ true
unfolding allowed set_contains
allowed-inside = refl

allowed-refused : allowed policy refused ≡ false
unfolding allowed set_contains
allowed-refused = refl

is_forward_blocked-mapped : is_forward_blocked mapped ≡ true
unfolding is_forward_blocked
is_forward_blocked-mapped = refl

is_forward_blocked_iff_example : (is_forward_blocked mapped ≡ true) ↔ Blocked (unmap mapped)
is_forward_blocked_iff_example = is_forward_blocked_iff mapped

is_ddns_eligible_iff_example : (is_ddns_eligible inside ≡ true) ↔ Public (unmap inside)
is_ddns_eligible_iff_example = is_ddns_eligible_iff inside
