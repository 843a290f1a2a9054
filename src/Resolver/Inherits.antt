-- ===== src/Resolver/Inherits.antt =====
-- What a name with addresses of its own inherits from the wildcard of its zone: `mdnsZoneReply` and
-- `vhostReply` of internal/resolver/resolver.go.
use splitdns.Prelude.{
  ℕ, ◌≡◌, ◌≢◌, refl, ap, ◌∙◌, Bool, any, true, false, not, some, List, [], ◌∷◌, if◌then◌else◌, ◌==◌,
  arith, Bool-cases, Option-cases, inl, inr,
}
use splitdns.Dns.{Name, Msg, type_any}
use splitdns.Model.{member, ModelRr, ByType, of_type, Zone, Snapshot, MdnsView}
use splitdns.Model.Render.{Library}
use splitdns.Resolver.Helpers.{authoritative_reply, append_matching, is_empty}
use splitdns.Resolver.Zone.{exists_at, type_a, type_aaaa, is_address, append_all}
use splitdns.Resolver.Scope.{is_binding, override_stripped, mdns_zone_reply}
use splitdns.Resolver.Local.{
  recover_local_host, recovered_reply, local_recovered_zone_reply, nxdomain_zone_soa,
}
use splitdns.Resolver.Resolve.{recovered_or_zone}
use splitdns.Resolver.Vhost.{vhost_nodata, vhost_any, vhost_inherited, vhost_reply}

-- A, AAAA, CNAME, HTTPS and SVCB: the types that lead to an address
abbrev pub leads : ℕ → Bool
leads t = any (λ u. t == u) (1 ∷ 28 ∷ 5 ∷ 65 ∷ 64 ∷ [])

-- What the code strips is what leads to an address.
override_stripped-leads : (t : ℕ) → override_stripped t ≡ leads t
unfolding override_stripped
override_stripped-leads t = ground arith

-- a map of RRsets without those that lead to an address
unfoldable pub harmless : ByType → ByType
harmless [] = []
harmless ((t, rrs) ∷ rest) =
    let later = harmless rest in if leads t then later else (t, rrs) ∷ later

of_type-harmless : (t : ℕ) (m : ByType) → leads t ≡ false → of_type t (harmless m) ≡ of_type t m
unfolding of_type harmless
of_type-harmless t [] h = refl
of_type-harmless t ((u, rrs) ∷ rest) h =
    let later = of_type-harmless t rest h in
    elim (Bool-cases (leads u)) [
      | inl s ↦
          let differ : t == u ≡ false = elim (Bool-cases (t == u)) [
            | inl e ↦ let same : t ≡ u = ground arith in absurd (cc (ap leads same, s, h))
            | inr e ↦ e
          ] in
          rw (s, differ, harmless, of_type) later
      | inr s ↦ elim (Bool-cases (t == u)) [
        | inl e ↦ rw (s, e, harmless, of_type) refl
        | inr e ↦ rw (s, e, harmless, of_type) later
      ]
    ]

append_all-harmless :
    (lib : Library) (resp : Msg) (m : ByType) (name : Name)
    → append_all lib resp override_stripped (harmless m) name
      ≡ append_all lib resp override_stripped m name
unfolding append_all harmless
append_all-harmless lib resp [] name = refl
append_all-harmless lib resp ((t, rrs) ∷ rest) name =
    let strip = override_stripped-leads t in
    elim (Bool-cases (leads t)) [
      | inl l ↦
          let s : override_stripped t ≡ true = strip ∙ l in
          let gone : harmless ((t, rrs) ∷ rest) ≡ harmless rest = rw (l, harmless) refl in
          rw gone (rw (s, append_all) (append_all-harmless lib resp rest name))
      | inr l ↦
          let s : override_stripped t ≡ false = strip ∙ l in
          let kept : harmless ((t, rrs) ∷ rest) ≡ (t, rrs) ∷ harmless rest =
            rw (l, harmless) refl in
          rw kept (
            rw (s, append_all)
              (append_all-harmless lib (append_matching lib resp rrs name t) rest name))
    ]

-- the zone with the harmless RRsets of its wildcard only, and without flattened addresses, those of the
-- wildcard among them
abbrev pub tamed : Zone → Zone
tamed zone = record zone { wildcards = harmless zone.wildcards; tunnel_addr = [] }

-- A name that an mDNS host overlays never gets the public endpoint of the zone's wildcard: its answer,
-- for any type, is the one it would get if the wildcard had no A, AAAA, CNAME, HTTPS or SVCB records,
-- and the zone no flattened addresses.
pub mdns_zone_reply-tamed :
    (lib : Library) (zone : Zone) (req : Msg) (name : Name) (qtype : ℕ) (recs : List ModelRr)
    → mdns_zone_reply lib (tamed zone) req name qtype recs
      ≡ mdns_zone_reply lib zone req name qtype recs
unfolding mdns_zone_reply override_stripped
mdns_zone_reply-tamed lib zone req name qtype recs = elim (Bool-cases (qtype == type_any)) [
  | inl a ↦
      rw (a, mdns_zone_reply)
        (append_all-harmless lib
          (append_matching lib (authoritative_reply lib req) recs name type_any) zone.wildcards
          name)
  | inr a ↦ elim (Bool-cases (is_address qtype)) [
    | inl d ↦ rw (a, d, mdns_zone_reply) refl
    | inr d ↦ elim (Bool-cases (is_binding qtype)) [
      | inl b ↦ rw (a, d, b, mdns_zone_reply) refl
      | inr b ↦
          let stays : leads qtype ≡ false = ground (arith, d, b) in
          rw (a, d, b, of_type-harmless qtype zone.wildcards stays, mdns_zone_reply) refl
    ]
  ]
]

vhost_any-harmless :
    (lib : Library) (snap : Snapshot) (resp : Msg) (name : Name) (m : ByType)
    → vhost_any lib snap resp name (harmless m) ≡ vhost_any lib snap resp name m
unfolding vhost_any
vhost_any-harmless lib snap resp name m = append_all-harmless lib _ m name

-- Nor does a virtual host, or www, when it is redirected to the reverse proxy: a name under the apex
-- gets the answer that it would get if the wildcard had none of these records.
pub vhost_reply-tamed :
    (lib : Library) (snap : Snapshot) (req : Msg) (name owner : Name) (qtype : ℕ) (zone : Zone)
    → owner ≢ []
    → vhost_reply lib snap req name owner qtype (some (tamed zone))
      ≡ vhost_reply lib snap req name owner qtype (some zone)
unfolding vhost_reply vhost_inherited vhost_nodata
vhost_reply-tamed lib snap req name [] qtype zone under = absurd (under refl)
vhost_reply-tamed lib snap req name (c ∷ cs) qtype zone under =
    let resp = authoritative_reply lib req in
    elim (Bool-cases (is_address qtype)) [
      | inl d ↦ elim (Bool-cases (qtype == type_a)) [
        | inl a ↦ rw (a, vhost_reply) refl
        | inr a ↦
            let six : qtype == type_aaaa ≡ true = ground arith in rw (a, six, vhost_reply) refl
      ]
      | inr d ↦
          let a : qtype == type_a ≡ false = ground arith in
          let six : qtype == type_aaaa ≡ false = ground arith in
          elim (Bool-cases (is_binding qtype)) [
            | inl b ↦ rw (a, six, b, vhost_reply) refl
            | inr b ↦ elim (Bool-cases (qtype == type_any)) [
              | inl n ↦
                  rw (a, six, b, n, vhost_reply)
                    (ap (λ m. if not (is_empty m.answer) then m else vhost_nodata lib m (some zone))
                      (vhost_any-harmless lib snap resp name zone.wildcards))
              | inr n ↦
                  let stays : leads qtype ≡ false = ground (arith, d, b) in
                  rw (a, six, b, n, of_type-harmless qtype zone.wildcards stays, vhost_reply) refl
            ]
          ]
    ]

-- A name under a mirrored zone that carries a local suffix, and that the zone does not publish, has
-- nothing from the wildcard at all: whatever the records of the wildcard and the flattened addresses
-- of the zone are, those of the wildcard among them, the answer is the same, while they do not
-- publish the name.
pub recovered_or_zone-tainted :
    (lib : Library) (snap : Snapshot) (view : MdnsView) (req : Msg) (name owner : Name) (qtype : ℕ)
    (zone : Zone) (other : ByType) (flat : List (Name × ByType))
    → (recover_local_host snap name).1 ≡ true
    → exists_at zone owner ≡ false
    → exists_at (record zone { wildcards = other; tunnel_addr = flat }) owner ≡ false
    → member owner zone.ent ≡ false
    → recovered_or_zone lib snap view req name owner qtype
        (record zone { wildcards = other; tunnel_addr = flat })
      ≡ recovered_or_zone lib snap view req name owner qtype zone
unfolding recovered_or_zone local_recovered_zone_reply recovered_reply nxdomain_zone_soa
recovered_or_zone-tainted lib snap view req name owner qtype zone other flat tainted gone gone'
      no_ent =
    elim (Option-cases ((recover_local_host snap name).0)) [
      | inl n ↦ rw (tainted, gone, gone', no_ent, n, recovered_or_zone) refl
      | inr (host, n) ↦ rw (tainted, gone, gone', no_ent, n, recovered_or_zone) refl
    ]
