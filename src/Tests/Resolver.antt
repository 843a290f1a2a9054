-- ===== src/Tests/Resolver.antt =====
-- The resolver on concrete snapshots, views and queries.
use splitdns.Prelude.{
  ℕ, ◌≡◌, ◌↔◌, ◌≤◌, ◌+◌, ◌*◌, refl, true, false, none, some, List, [], ◌∷◌, ◌++◌, length, arith,
  ◌==◌, Bool-cases, inl, inr,
}
use splitdns.Netmatch.{invalid}
use splitdns.Dns.{Name, Question, Msg, Rr, to_lower, name_eq, rcode_success}
use splitdns.Model.{ModelRr, Zone, Snapshot, MdnsView}
use splitdns.Model.Render.{decimal, ensure_dot, space, parse_srv_content}
use splitdns.Model.Render.RoundTrip.{parse_srv_content-rdata}
use splitdns.Resolver.Helpers.{
  is_suffix_label, longest_zone_suffix, matching, relative_owner, is_empty,
}
use splitdns.Resolver.Helpers.Suffix.{IsUnder, IsKey, longest_zone_suffix_lem}
use splitdns.Resolver.Zone.{target_of, rrset, tunnel, chase_cname, answer_authoritative}
use splitdns.Resolver.Zone.Chain.{
  Leads, ends, hops, answer_authoritative-Leads, length-chase_cname-le,
}
use splitdns.Resolver.Local.{recover_local_host}
use splitdns.Resolver.Local.Recovery.{IsHost, recover_local_host-IsHost}
use splitdns.Resolver.Resolve.{resolve}
use splitdns.Resolver.Resolve.Public.{IsPublic}
use splitdns.Resolver.Resolve.Forwards.{resolve-forward_iff}
use splitdns.Tests.Library.{library, library-IsLibrary, made}

abbrev pub rr : ℕ → ℕ → Name → ModelRr
rr rtype ttl content = record {
  name = [];
  rtype = rtype;
  ttl = ttl;
  class = 1;
  content = content;
  priority = 0;
  weight = 0;
  port = 0;
  target = [];
  trusted = false;
}

abbrev pub soa : ModelRr
soa = rr 6 3600 (
    b'e' ∷ b'.' ∷ b' ' ∷ b'h' ∷ b'.' ∷ b'e' ∷ b'.' ∷ b' ' ∷ b'1' ∷ b' ' ∷ b'7' ∷ b'2' ∷ b'0' ∷ b'0'
    ∷ b' ' ∷ b'3' ∷ b'6' ∷ b'0' ∷ b'0' ∷ b' ' ∷ b'1' ∷ b'2' ∷ b'0' ∷ b'9' ∷ b'6' ∷ b'0' ∷ b'0'
    ∷ b' ' ∷ b'3' ∷ b'0' ∷ b'0' ∷ [])

-- a has an address, b and c lead to it, d leads to itself, w.x is an empty non-terminal's child
abbrev pub zone : Zone
zone = record {
  apex = (b'e' ∷ b'.' ∷ []);
  soa = soa;
  records =
      ((b'a' ∷ []), (1, rr 1 60 (b'7' ∷ []) ∷ []) ∷ [])
      ∷ ((b'b' ∷ []), (5, rr 5 60 (b'a' ∷ b'.' ∷ b'e' ∷ b'.' ∷ []) ∷ []) ∷ [])
      ∷ ((b'c' ∷ []), (5, rr 5 60 (b'b' ∷ b'.' ∷ b'e' ∷ b'.' ∷ []) ∷ []) ∷ [])
      ∷ ((b'd' ∷ []), (5, rr 5 60 (b'd' ∷ b'.' ∷ b'e' ∷ b'.' ∷ []) ∷ []) ∷ [])
      ∷ [];
  wildcards = [];
  ent = (b'x' ∷ []) ∷ [];
  tunnel_addr = [];
}

abbrev pub snap : Snapshot
snap = record {
  zones = ((b'e' ∷ b'.' ∷ []), some zone) ∷ [];
  stub_zones = [];
  reverse_z = [];
  vhosts = [];
  excluded = [];
  static = [];
  ddns_eligible = (b'm' ∷ b'.' ∷ b'e' ∷ b'.' ∷ []) ∷ [];
  local_domain = (b'l' ∷ b'a' ∷ b'n' ∷ []);
  serve_dnssd = false;
  vhost_v4 = invalid;
  vhost_v6 = invalid;
  ddr = none;
}

abbrev pub view : MdnsView
view = record { forward = []; reverse = []; services = [] }

abbrev pub ask : Name → ℕ → Msg
ask name qtype = record {
  id = 1;
  truncated = false;
  authoritative = false;
  recursion_available = false;
  rcode = 0;
  question = record { name = name; qtype = qtype; qclass = 1 } ∷ [];
  answer = [];
  ns = [];
  extra = [];
}

address_of_a :
    (resolve library snap view (ask (b'A' ∷ b'.' ∷ b'e' ∷ b'.' ∷ []) 1)).msg
    ≡ some (record (ask (b'A' ∷ b'.' ∷ b'e' ∷ b'.' ∷ []) 1) {
      authoritative = true;
      recursion_available = true;
      answer = made (b'a' ∷ b'.' ∷ b'e' ∷ b'.' ∷ []) 60 1 ∷ [];
    })
unfolding resolve library answer_authoritative matching rrset
address_of_a = refl

pub by_key : IsKey [] snap.zones → ⊥
by_key (inl e) = cc e
by_key (inr b) = b

pub no_reverse : IsKey [] snap.reverse_z → ⊥
no_reverse b = b

resolve-forward_iff_example :
    ((resolve library snap view (ask (b'q' ∷ b'.' ∷ b'r' ∷ b'.' ∷ []) 1)).forward ≡ true) ↔ (
      (q : Question) × ((ask (b'q' ∷ b'.' ∷ b'r' ∷ b'.' ∷ []) 1).question ≡ q ∷ [])
      × IsPublic snap (to_lower (library.fqdn q.name)) q.qtype)
resolve-forward_iff_example =
    resolve-forward_iff library snap view (ask (b'q' ∷ b'.' ∷ b'r' ∷ b'.' ∷ []) 1) by_key no_reverse

chain_of_c : Leads library zone 1 (b'c' ∷ []) (b'a' ∷ b'.' ∷ b'e' ∷ b'.' ∷ []) 1
unfolding library rrset tunnel relative_owner is_suffix_label target_of
chain_of_c =
    hops {target = (b'b' ∷ b'.' ∷ b'e' ∷ b'.' ∷ [])}
      (rr 5 60 (b'b' ∷ b'.' ∷ b'e' ∷ b'.' ∷ []), [], refl, refl, refl) refl refl
      (ends (rr 5 60 (b'a' ∷ b'.' ∷ b'e' ∷ b'.' ∷ []), [], refl, refl, refl) refl)

no_address : is_empty (rrset zone (b'c' ∷ []) 1) ≡ true
unfolding rrset name_eq
no_address = refl

no_tunnel : is_empty (tunnel zone (b'c' ∷ []) 1) ≡ true
unfolding tunnel
no_tunnel = refl

answer_authoritative-Leads_example :
    ((answer_authoritative library
        (ask (b'c' ∷ b'.' ∷ b'e' ∷ b'.' ∷ []) 1)
        (some zone)
        (b'c' ∷ b'.' ∷ b'e' ∷ b'.' ∷ [])
        (b'c' ∷ [])
        1).rcode
      ≡ rcode_success)
    × ((links : List Rr) × ((answer_authoritative library
            (ask (b'c' ∷ b'.' ∷ b'e' ∷ b'.' ∷ []) 1)
            (some zone)
            (b'c' ∷ b'.' ∷ b'e' ∷ b'.' ∷ [])
            (b'c' ∷ [])
            1).answer
          ≡ links
            ++ matching library
                (rrset zone (relative_owner (b'a' ∷ b'.' ∷ b'e' ∷ b'.' ∷ []) zone.apex) 1)
                (b'a' ∷ b'.' ∷ b'e' ∷ b'.' ∷ [])
                1))
answer_authoritative-Leads_example =
    answer_authoritative-Leads library library-IsLibrary (ask (b'c' ∷ b'.' ∷ b'e' ∷ b'.' ∷ []) 1)
      zone (b'c' ∷ b'.' ∷ b'e' ∷ b'.' ∷ []) (b'c' ∷ []) (b'a' ∷ b'.' ∷ b'e' ∷ b'.' ∷ []) 1 1 refl
      no_address no_tunnel chain_of_c (omega arith)

abbrev looped : Zone
looped = record zone {
  records = ((b'd' ∷ []), (5, rr 5 60 (b'd' ∷ b'.' ∷ b'e' ∷ b'.' ∷ []) ∷ []) ∷ []) ∷ [];
}

looped_small :
    (o : Name) (t : ℕ) → (length (rrset looped o t) ≤ 1) × (length (tunnel looped o t) ≤ 1)
unfolding rrset tunnel
looped_small o t = elim (Bool-cases (name_eq o (b'd' ∷ []))) [
  | inl e ↦ elim (Bool-cases (t == 5)) [
    | inl f ↦ rw (e, f) (omega arith, omega arith)
    | inr f ↦ rw (e, f) (omega arith, omega arith)
  ]
  | inr e ↦ rw e (omega arith, omega arith)
]

length-chase_cname-le_example :
    length
      (chase_cname library
        (ask (b'd' ∷ b'.' ∷ b'e' ∷ b'.' ∷ []) 1)
        looped
        (b'd' ∷ [])
        (b'd' ∷ b'.' ∷ b'e' ∷ b'.' ∷ [])
        1).answer
    ≤ 0 + 10 * 1
length-chase_cname-le_example =
    length-chase_cname-le library (ask (b'd' ∷ b'.' ∷ b'e' ∷ b'.' ∷ []) 1) looped (b'd' ∷ [])
      (b'd' ∷ b'.' ∷ b'e' ∷ b'.' ∷ []) 1 1 looped_small

longest_zone_suffix_lem_example :
    ((apex : Name)
      → IsKey apex snap.zones
      → IsUnder (b'a' ∷ b'.' ∷ b'e' ∷ b'.' ∷ []) apex
      → ((other : Name)
          → IsKey other snap.zones
          → IsUnder (b'a' ∷ b'.' ∷ b'e' ∷ b'.' ∷ []) other
          → length other ≤ length apex)
      → longest_zone_suffix (b'a' ∷ b'.' ∷ b'e' ∷ b'.' ∷ []) snap.zones ≡ apex)
    × (((other : Name)
          → IsKey other snap.zones
          → IsUnder (b'a' ∷ b'.' ∷ b'e' ∷ b'.' ∷ []) other
          → ⊥)
        → longest_zone_suffix (b'a' ∷ b'.' ∷ b'e' ∷ b'.' ∷ []) snap.zones ≡ [])
longest_zone_suffix_lem_example =
    longest_zone_suffix_lem (b'a' ∷ b'.' ∷ b'e' ∷ b'.' ∷ []) snap.zones

recovered :
    (recover_local_host snap (b'h' ∷ b'.' ∷ b'l' ∷ b'a' ∷ b'n' ∷ b'.' ∷ b'e' ∷ b'.' ∷ [])).0
    ≡ some (b'h' ∷ [])
unfolding recover_local_host
recovered = refl

recover_local_host-IsHost_example :
    ((rest : Name) × ((b'h' ∷ b'.' ∷ b'l' ∷ b'a' ∷ b'n' ∷ b'.' ∷ b'e' ∷ b'.' ∷ [])
        ≡ (b'h' ∷ []) ++ (b'.' ∷ rest)))
    × IsHost snap (b'h' ∷ [])
recover_local_host-IsHost_example =
    recover_local_host-IsHost snap (b'h' ∷ b'.' ∷ b'l' ∷ b'a' ∷ b'n' ∷ b'.' ∷ b'e' ∷ b'.' ∷ [])
      (b'h' ∷ []) recovered

parse_srv_content-rdata_example :
    parse_srv_content
      (decimal 5 ++ (space ++ (decimal 443 ++ (space ++ (b'h' ∷ b'.' ∷ b'e' ∷ [])))))
    ≡ some (5, 443, ensure_dot (b'h' ∷ b'.' ∷ b'e' ∷ []))
parse_srv_content-rdata_example =
    parse_srv_content-rdata 5 443 b'h' (b'.' ∷ b'e' ∷ []) (omega arith) (omega arith)
      (refl, (refl, (refl, tt)))
