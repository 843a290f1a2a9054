-- ===== src/Resolver/Zone/Negatives.antt =====
-- When the authoritative answer of internal/resolver/zone.go denies that a name exists.
use splitdns.Prelude.{ℕ, ◌≡◌, refl, false, [], ◌∷◌}
use splitdns.Dns.{Name}
use splitdns.Model.{get, member, ByType, of_type, rrsets, Zone}
use splitdns.Resolver.Helpers.{is_empty}
use splitdns.Resolver.Zone.{star, exists_at}

-- The name does not exist: its owner has no record and no flattened address, is no empty
-- non-terminal, and the zone has no wildcard.
abbrev pub IsAbsent : Zone → Name → Type 0
IsAbsent zone owner =
    (exists_at zone owner ≡ false)
    × (member owner zone.ent ≡ false)
    × (zone.wildcards ≡ [])
    × (rrsets (get star zone.tunnel_addr) ≡ [])

of_type-nil : (t : ℕ) (m : ByType) → is_empty (of_type t m) ≡ false → is_empty m ≡ false
unfolding of_type
of_type-nil t [] h = h
of_type-nil t (_ ∷ _) h = refl
