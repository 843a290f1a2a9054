-- ===== src/Resolver/Resolve/Shielded.antt =====
-- Multicast announcements and managed names: what `Resolve` answers when the mDNS view changes.
use splitdns.Prelude.{
  ℕ, ◌≡◌, ◌≢◌, refl, ap, inl, inr, true, false, ◌&&◌, ◌||◌, not, none, some, if◌then◌else◌, ltb,
  ◌==◌, length, arith, Bool-cases, Option-cases,
}
use splitdns.Dns.{Name, Msg, type_any}
use splitdns.Model.{get, member, Zone, Snapshot, MdnsView}
use splitdns.Model.Render.{Library}
use splitdns.Resolver.Helpers.{
  stubbed, to_upstream, authoritative_reply, answered, is_arpa, is_empty, longest_zone_suffix,
  relative_owner,
}
use splitdns.Resolver.Zone.{exists_at, answer_authoritative}
use splitdns.Resolver.Local.{recover_local_host, restricted_label, local_label}
use splitdns.Resolver.Local.Trust.{
  trusted_of, local_host_addrs-trusted, local_recovered_zone_reply-trusted,
}
use splitdns.Resolver.Vhost.{is_vhost_candidate}
use splitdns.Resolver.Resolve.{
  answer_static, answer_found, answer_host, answer_local, recovered_or_zone, overlay_or_zone,
  pointer, answer_zone_or_vhost, stub_match, resolve_public, resolve_planes, is_adn, resolve_adn,
  resolve_name,
}
use splitdns.Resolver.Ddr.{in_resolver_arpa, minimal_any}

-- The host that is recovered from a name of the local plane is restricted, and two views hold the same
-- trusted records of it.
abbrev pub IsTrustedAlike : Snapshot → MdnsView → MdnsView → Name → Type 0
IsTrustedAlike snap v w name =
    (host : Name)
    → (recover_local_host snap name).0 ≡ some host
    → (restricted_label snap host ≡ true) × (trusted_of v host ≡ trusted_of w host)

-- A name under a mirrored zone has records there, or is written by dynamic DNS.
abbrev pub IsManaged : Snapshot → Name → Type 0
IsManaged snap name =
    (zone : Zone)
    → pointer (get (longest_zone_suffix name snap.zones) snap.zones) ≡ some zone
    → exists_at zone (relative_owner name (longest_zone_suffix name snap.zones))
        || member name snap.ddns_eligible
      ≡ true

module _ (lib : Library) (snap : Snapshot) (v w : MdnsView) (req : Msg) (name : Name)
    (qtype : ℕ) where
  answer_local-alike :
      (label : Name)
      → snap.serve_dnssd ≡ false
      → IsTrustedAlike snap v w name
      → answer_local lib snap v req name label qtype ≡ answer_local lib snap w req name label qtype
  unfolding answer_local answer_host
  answer_local-alike label off alike = elim (Option-cases ((recover_local_host snap name).0)) [
    | inl n ↦ rw (off, n, answer_local) refl
    | inr (host, n) ↦
        let (r, same) = alike host n in
        rw (off, n, answer_local)
          (ap (answer_found lib (authoritative_reply lib req) name host qtype)
            (local_host_addrs-trusted lib snap v w host false r same))
  ]

  recovered_or_zone-alike :
      (owner : Name) (zone : Zone)
      → ((recover_local_host snap name).1 ≡ true → IsTrustedAlike snap v w name)
      → recovered_or_zone lib snap v req name owner qtype zone
        ≡ recovered_or_zone lib snap w req name owner qtype zone
  unfolding recovered_or_zone
  recovered_or_zone-alike owner zone alike = elim (Bool-cases (recover_local_host snap name).1) [
    | inr t ↦ rw (t, recovered_or_zone) refl
    | inl t ↦ elim (Option-cases ((recover_local_host snap name).0)) [
      | inl n ↦ rw (t, n, recovered_or_zone) refl
      | inr (host, n) ↦
          let (r, same) = alike t host n in
          rw (t, n, recovered_or_zone)
            (ap
              (λ m.
                if not (exists_at zone owner) && not (member owner zone.ent)
                then m
                else answer_authoritative lib req (some zone) name owner qtype)
              (local_recovered_zone_reply-trusted lib snap v w req name host qtype zone r same))
    ]
  ]

  overlay_or_zone-alike :
      (owner : Name) (zone : Zone)
      → exists_at zone owner || member name snap.ddns_eligible ≡ true
      → ((recover_local_host snap name).1 ≡ true → IsTrustedAlike snap v w name)
      → overlay_or_zone lib snap v req name owner qtype zone
        ≡ overlay_or_zone lib snap w req name owner qtype zone
  unfolding overlay_or_zone
  overlay_or_zone-alike owner zone managed alike =
      let off : not (exists_at zone owner) && not (member name snap.ddns_eligible) ≡ false =
        ground arith in
      rw (off, overlay_or_zone) (recovered_or_zone-alike owner zone alike)

  resolve_public-alike :
      IsManaged snap name
      → ((recover_local_host snap name).1 ≡ true → IsTrustedAlike snap v w name)
      → resolve_public lib snap v req name qtype ≡ resolve_public lib snap w req name qtype
  unfolding resolve_public answer_zone_or_vhost
  resolve_public-alike managed alike =
      let apex = longest_zone_suffix name snap.zones in
      let owner = relative_owner name apex in
      let same : answer_zone_or_vhost lib snap v req name apex qtype
          ≡ answer_zone_or_vhost lib snap w req name apex qtype =
        elim (Bool-cases (is_vhost_candidate snap apex owner)) [
          | inl c ↦ rw (c, answer_zone_or_vhost) refl
          | inr c ↦ elim (Option-cases (pointer (get apex snap.zones))) [
            | inl n ↦ rw (c, n, answer_zone_or_vhost) refl
            | inr (zone, n) ↦
                rw (c, n, answer_zone_or_vhost)
                  (overlay_or_zone-alike owner zone (managed zone n) alike)
          ]
        ] in
      ap
        (λ m.
          if ltb 0 (length (stub_match snap name))
          then stubbed (stub_match snap name)
          else if not (is_empty apex)
          then answered m
          else if qtype == type_any
          then answered (minimal_any lib req name)
          else to_upstream)
        same

  -- What an mDNS announcement that is not trusted changes of a managed name: nothing, with DNS-SD off.
  -- Two views give the same outcome for a name that is not a reverse one, if it has records in its
  -- mirrored zone or is written by dynamic DNS, and if, where it is a name of the local plane or
  -- carries a local suffix, the host recovered from it is restricted and both views hold the same
  -- trusted records of that host.
  pub resolve_name-shielded :
      snap.serve_dnssd ≡ false
      → is_arpa name ≡ false
      → IsManaged snap name
      → ((recover_local_host snap name).1 ≡ true → IsTrustedAlike snap v w name)
      → (local_label snap name ≢ none → IsTrustedAlike snap v w name)
      → resolve_name lib snap v req name qtype ≡ resolve_name lib snap w req name qtype
  unfolding resolve_name resolve_adn resolve_planes
  resolve_name-shielded off no_arpa managed tainted_alike local_alike =
      let public = resolve_public-alike managed tainted_alike in
      let planes : resolve_planes lib snap v req name qtype
          ≡ resolve_planes lib snap w req name qtype =
        elim (Option-cases (answer_static lib snap req name qtype)) [
          | inr (out, s) ↦ rw (s, resolve_planes) refl
          | inl s ↦ elim (Option-cases (local_label snap name)) [
            | inl l ↦ rw (s, no_arpa, l, resolve_planes) public
            | inr (lbl, l) ↦
                rw (s, no_arpa, l, resolve_planes)
                  (answer_local-alike lbl off (local_alike (λ e. cc (e, l))))
          ]
        ] in
      elim (Bool-cases (in_resolver_arpa name)) [
        | inl a ↦ rw (a, resolve_name) refl
        | inr a ↦ elim (Option-cases snap.ddr) [
          | inl d ↦ rw (a, d, resolve_name, resolve_adn) planes
          | inr (d, e) ↦ elim (Bool-cases (is_adn d name)) [
            | inl f ↦ rw (a, e, f, resolve_name, resolve_adn) refl
            | inr f ↦ rw (a, e, f, resolve_name, resolve_adn) planes
          ]
        ]
      ]
