-- ===== src/Tests/Zones.antt =====
-- The building of a zone and the poller of internal/mirror on concrete inputs.
use splitdns.Prelude.{ℕ, ◌≡◌, ◌↔◌, refl, true, false, Option, none, some, List, [], ◌∷◌, pos}
use splitdns.Dns.{Name, name_eq}
use splitdns.Model.{Zone}
use splitdns.Resolver.Helpers.Suffix.{IsKey}
use splitdns.Mirror.Zones.{derive_ent}
use splitdns.Mirror.Zones.Interior.{IsIn, IsAbove, IsInner, derive_ent_iff}
use splitdns.Mirror.Poller.{Poller, observed, needed, cycle}
use splitdns.Mirror.Poller.Changes.{IsDistinct, needed-cycle}
use splitdns.Tests.Resolver.{zone}

-- one owner, a.b
abbrev deep : Zone
deep = record zone { records = ((b'a' ∷ b'.' ∷ b'b' ∷ []), []) ∷ []; ent = [] }

b_is_empty_non_terminal : (derive_ent deep).ent ≡ (b'b' ∷ []) ∷ []
unfolding derive_ent name_eq
b_is_empty_non_terminal = refl

derive_ent_iff_example : IsIn (b'b' ∷ []) (derive_ent deep).ent ↔ (
    (owner : Name) × IsKey owner deep.records
    × IsAbove (b'b' ∷ []) owner
    × IsInner deep.records (b'b' ∷ []))
derive_ent_iff_example = derive_ent_iff deep (b'b' ∷ []) refl

abbrev poller : Poller
poller = record {
  states =
      ((b'x' ∷ []), record { last = 7; fetched = true })
      ∷ ((b'y' ∷ []), record { last = 4; fetched = true })
      ∷ [];
  forced = pos 100;
  last_full = 5;
}

-- y does not answer, and the serial of x went on
abbrev serials : List (Name × Option ℕ)
serials = ((b'x' ∷ []), some 9) ∷ ((b'y' ∷ []), none) ∷ []

serials-IsDistinct : IsDistinct (observed serials)
unfolding observed
serials-IsDistinct = (tt, tt)

x_is_needed : needed poller.states (observed serials) ≡ true
unfolding needed observed name_eq
x_is_needed = refl

needed-cycle_example :
    ((cycle poller serials 6 true 8).refreshed ≡ true)
    × (needed (cycle poller serials 6 true 8).poller.states (observed serials) ≡ false)
needed-cycle_example = needed-cycle poller serials 6 true 8 serials-IsDistinct x_is_needed
