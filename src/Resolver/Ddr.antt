-- ===== src/Resolver/Ddr.antt =====
-- The special-use domain resolver.arpa and the name of the designated resolver, and the minimal answer
-- to ANY: internal/resolver/resolver.go.
use splitdns.Prelude.{
  ℕ, Bool, true, ◌&&◌, ◌||◌, not, none, some, List, [], ◌∷◌, ◌++◌, map, if◌then◌else◌, ◌==◌, filter,
}
use splitdns.Netmatch.{Addr, v4, v6, is_valid}
use splitdns.Dns.{
  Name, name_eq, has_suffix, Msg, Rr, Body, SvcbParam, alpn, port, ipv4_hint, ipv6_hint, doh_path,
  type_any,
}
use splitdns.Model.{DdrAdvert, Snapshot}
use splitdns.Model.Render.{Library}
use splitdns.Resolver.Helpers.{reply, authoritative_reply, is_empty}
use splitdns.Resolver.Zone.{type_a, type_aaaa}
use splitdns.Resolver.Scope.{type_svcb}

abbrev pub ddr_ttl : ℕ
ddr_ttl = 300

abbrev pub minimal_any_ttl : ℕ
minimal_any_ttl = 3600

abbrev pub type_hinfo : ℕ
type_hinfo = 13

abbrev pub ddr_name : Name
ddr_name =
    (b'_' ∷ b'd' ∷ b'n' ∷ b's' ∷ b'.' ∷ b'r' ∷ b'e' ∷ b's' ∷ b'o' ∷ b'l' ∷ b'v' ∷ b'e' ∷ b'r' ∷ b'.'
      ∷ b'a' ∷ b'r' ∷ b'p' ∷ b'a' ∷ b'.' ∷ [])

-- the test of step 1b of `Resolve`
unfoldable pub in_resolver_arpa : Name → Bool
unfolding name_eq has_suffix
in_resolver_arpa name =
    if name_eq name (
      b'r' ∷ b'e' ∷ b's' ∷ b'o' ∷ b'l' ∷ b'v' ∷ b'e' ∷ b'r' ∷ b'.' ∷ b'a' ∷ b'r' ∷ b'p' ∷ b'a'
      ∷ b'.' ∷ [])
    then true
    else has_suffix name (
        b'.' ∷ b'r' ∷ b'e' ∷ b's' ∷ b'o' ∷ b'l' ∷ b'v' ∷ b'e' ∷ b'r' ∷ b'.' ∷ b'a' ∷ b'r' ∷ b'p'
        ∷ b'a' ∷ b'.' ∷ [])

-- the bytes of an address carry no IPv6 zone
abbrev to_ip : Addr → Addr
to_ip (v6 n _) = v6 n []
to_ip a = a

-- `toIPs`
unfoldable pub to_ips : List Addr → List Addr
to_ips addrs = map to_ip (filter is_valid addrs)

abbrev one_if : List Addr → (List Addr → SvcbParam) → List SvcbParam
one_if [] make = []
one_if (a ∷ rest) make = make (a ∷ rest) ∷ []

-- `ddrSVCB`
unfoldable pub ddr_svcb : DdrAdvert → ℕ → List Name → ℕ → Name → Rr
unfolding to_ips
ddr_svcb d priority protocols endpoint_port path = record {
  hdr = record { name = ddr_name; rrtype = type_svcb; ttl = ddr_ttl };
  body = Body.svcb priority d.adn (
      alpn protocols
      ∷ port endpoint_port
      ∷ ((if is_empty path then [] else doh_path path ∷ [])
          ++ (one_if (to_ips d.v4_hints) ipv4_hint ++ one_if (to_ips d.v6_hints) ipv6_hint)));
}

-- the designations of `resolverArpa`: DoT first, then DoH, numbered from 1
unfoldable pub designations : DdrAdvert → List Rr
unfolding ddr_svcb
designations d = elim d.dot [
  | none ↦ elim d.doh [
    | none ↦ []
    | some h ↦
        ddr_svcb d 1 ((b'h' ∷ b'2' ∷ []) ∷ []) h.port
          (h.path ++ (b'{' ∷ b'?' ∷ b'd' ∷ b'n' ∷ b's' ∷ b'}' ∷ []))
        ∷ []
  ]
  | some t ↦ elim d.doh [
    | none ↦ ddr_svcb d 1 ((b'd' ∷ b'o' ∷ b't' ∷ []) ∷ []) t.port [] ∷ []
    | some h ↦
        ddr_svcb d 1 ((b'd' ∷ b'o' ∷ b't' ∷ []) ∷ []) t.port []
        ∷ ddr_svcb d 2 ((b'h' ∷ b'2' ∷ []) ∷ []) h.port
            (h.path ++ (b'{' ∷ b'?' ∷ b'd' ∷ b'n' ∷ b's' ∷ b'}' ∷ []))
        ∷ []
  ]
]

-- `resolverArpa`
unfoldable pub resolver_arpa : Library → Snapshot → Msg → Name → ℕ → Msg
unfolding authoritative_reply name_eq designations
resolver_arpa lib snap req name qtype =
    let resp = authoritative_reply lib req in
    elim snap.ddr [
      | none ↦ resp
      | some d ↦
          if not (name_eq name ddr_name) || (not (qtype == type_svcb) && not (qtype == type_any))
          then resp
          else record resp { answer = resp.answer ++ designations d }
    ]

abbrev host_records : Name → List Addr → List Rr
host_records name [] = []
host_records name (v4 n ∷ rest) =
    record {
      hdr = record { name = name; rrtype = type_a; ttl = ddr_ttl };
      body = Body.host4 (some (v4 n));
    }
    ∷ host_records name rest
host_records name (_ ∷ rest) = host_records name rest

abbrev host6_records : Name → List Addr → List Rr
host6_records name [] = []
host6_records name (v6 n _ ∷ rest) =
    record {
      hdr = record { name = name; rrtype = type_aaaa; ttl = ddr_ttl };
      body = Body.host6 (some (v6 n []));
    }
    ∷ host6_records name rest
host6_records name (_ ∷ rest) = host6_records name rest

-- `ddrADNReply`
unfoldable pub ddr_adn_reply : Library → DdrAdvert → Msg → Name → ℕ → Msg
unfolding authoritative_reply
ddr_adn_reply lib d req name qtype =
    let resp = authoritative_reply lib req in
    let any = qtype == type_any in
    let v4s = if qtype == type_a || any then host_records name d.v4_hints else [] in
    let v6s = if qtype == type_aaaa || any then host6_records name d.v6_hints else [] in
    record resp { answer = resp.answer ++ (v4s ++ v6s) }

-- `minimalANY`
unfoldable pub minimal_any : Library → Msg → Name → Msg
unfolding reply
minimal_any lib req name =
    let resp = reply lib req in
    let hinfo : Rr = record {
      hdr = record { name = name; rrtype = type_hinfo; ttl = minimal_any_ttl };
      body = Body.hinfo (b'R' ∷ b'F' ∷ b'C' ∷ b'8' ∷ b'4' ∷ b'8' ∷ b'2' ∷ []);
    } in
    record resp { answer = resp.answer ++ (hinfo ∷ []) }
