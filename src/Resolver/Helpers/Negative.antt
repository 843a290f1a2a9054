-- ===== src/Resolver/Helpers/Negative.antt =====
-- For how long a negative may be kept: `setNegativeSOA` of internal/resolver/helpers.go.
use splitdns.Prelude.{ℕ, ◌≤◌, ◌≡◌, ◌≢◌, ◌⊎◌}
use splitdns.Model.{ModelRr}
use splitdns.Resolver.Helpers.{soa_minimum}

-- The TTL of a negative is the lesser of the TTL and the minimum of the SOA record, if it has a
-- minimum that is not 0, and else the TTL of the SOA record.
abbrev pub IsNegativeTtl : ModelRr → ℕ → Type 0
IsNegativeTtl soa ttl =
    (ttl ≤ soa.ttl)
    × (soa_minimum soa ≢ 0 → ttl ≤ soa_minimum soa)
    × ((ttl ≡ soa.ttl) ⊎ (ttl ≡ soa_minimum soa))
    × (soa_minimum soa ≡ 0 → ttl ≡ soa.ttl)
