-- ===== src/Mirror/Build.antt =====
-- The building of a zone from Cloudflare's records, internal/mirror/mirror.go. What the API returns and
-- what the tunnel resolver answers are arguments. A priority, a floating-point number there, is the
-- number that `CoercePriority` makes of it, if it accepts it; a TTL below 0 is as one of 0.
use splitdns.Prelude.{
  ℕ, ◌-◌, ◌%◌, ◌^◌, Bool, false, ◌&&◌, ◌||◌, Option, none, some, List, [], ◌∷◌, ◌++◌, map,
  if◌then◌else◌, leb, ◌==◌, any,
}
use splitdns.Netmatch.{Addr, v6}
use splitdns.Dns.{Name, name_eq, to_lower, has_suffix, trim_suffix, class_inet}
use splitdns.Model.{get, put, ModelRr, ByType, rrsets, Zone}
use splitdns.Model.Render.{Library, type_mx, type_srv, to_miekg, parse_srv_content}
use splitdns.Resolver.Zone.{type_a, type_cname, type_aaaa}
use splitdns.Resolver.Reverse.{type_ptr}
use splitdns.Resolver.Dnssd.{type_txt}

abbrev pub type_ns : ℕ
type_ns = 2

abbrev pub type_soa : ℕ
type_soa = 6

abbrev pub type_tlsa : ℕ
type_tlsa = 52

abbrev pub type_caa : ℕ
type_caa = 257

-- `cfapi.Record`, with what the mirror reads
pub record CfRecord : Type 0 where
  pub kind : Name
  pub name : Name
  pub content : Name
  pub ttl : ℕ
  pub priority : Option ℕ

-- `ttlOr`
unfoldable pub ttl_or : ℕ → ℕ
ttl_or ttl = if leb ttl 1 then 300 else ttl % 2 ^ 32

-- `strings.ReplaceAll` of a byte by itself behind a backslash
abbrev escape : ℕ → Name → Name
escape d [] = []
escape d (c ∷ cs) = if c == d then 92 ∷ c ∷ escape d cs else c ∷ escape d cs

-- `quoteTXT`; 34 is the quote and 92 the backslash
unfoldable pub quote_txt : Name → Name
quote_txt [] = 34 ∷ 34 ∷ []
quote_txt (c ∷ cs) = if c == 34 then c ∷ cs else 34 ∷ (escape 34 (escape 92 (c ∷ cs)) ++ (34 ∷ []))

abbrev is_plain_content : ℕ → Bool
is_plain_content t = t == type_a || (t == type_aaaa || (t == type_caa || t == type_tlsa))

abbrev is_name_content : ℕ → Bool
is_name_content t = t == type_cname || (t == type_ns || t == type_ptr)

-- a record that renders, as `toModelRR` checks at its end
abbrev if_it_renders : Library → ModelRr → Option ModelRr
if_it_renders lib rr = elim (to_miekg lib rr) [ none ↦ none | some _ ↦ some rr ]

abbrev or_zero : Option ℕ → ℕ
or_zero none = 0
or_zero (some n) = n

-- `toModelRR`, with the type of the record
unfoldable pub model_rr : Library → CfRecord → ℕ → Option ModelRr
unfolding ttl_or to_lower quote_txt parse_srv_content to_miekg
model_rr lib r typ =
    let base : ModelRr = record {
      name = lib.fqdn (to_lower r.name);
      rtype = typ;
      ttl = ttl_or r.ttl;
      class = class_inet;
      content = [];
      priority = 0;
      weight = 0;
      port = 0;
      target = [];
      trusted = false;
    } in
    let host = lib.fqdn r.content in
    if is_plain_content typ
    then if_it_renders lib (record base { content = r.content })
    else if is_name_content typ
    then if_it_renders lib (record base { content = host; target = host })
    else if typ == type_mx
    then elim r.priority [
      | none ↦ none
      | some p ↦ if_it_renders lib (record base { priority = p; target = host })
    ]
    else if typ == type_srv
    then elim (parse_srv_content r.content) [
      | none ↦ none
      | some (w, p, t) ↦
          if_it_renders lib
            (record base { priority = or_zero r.priority; weight = w; port = p; target = t })
    ]
    else if typ == type_txt
    then if_it_renders lib (record base { content = quote_txt r.content })
    else none

-- `strings.ToUpper` on ASCII
abbrev to_upper : Name → Name
to_upper = map (λ c. if leb b'a' c && leb c b'z' then c - 32 else c)

-- `toModelRR`; `types` is the library's table `StringToType`
unfoldable pub to_model_rr : Library → (Name → Option ℕ) → CfRecord → Option ModelRr
unfolding model_rr
to_model_rr lib types r = elim (types (to_upper r.kind)) [
  | none ↦ none
  | some typ ↦ model_rr lib r typ
]

-- `isTunnelTarget`
unfoldable pub is_tunnel_target : Library → Name → List Name → Bool
unfolding to_lower has_suffix
is_tunnel_target lib content suffixes =
    any (λ s. has_suffix (lib.fqdn (to_lower content)) s) suffixes

-- `relOwner`
unfoldable pub rel_owner : Library → Name → Name → Name
unfolding to_lower name_eq trim_suffix
rel_owner lib name apex =
    let n = lib.fqdn (to_lower name) in
    if name_eq n apex then [] else trim_suffix (trim_suffix n apex) (b'.' ∷ [])

-- `wildcardProbe`
abbrev pub wildcard_probe : Name
wildcard_probe =
    (b'_' ∷ b'_' ∷ b's' ∷ b'p' ∷ b'l' ∷ b'i' ∷ b't' ∷ b'd' ∷ b'n' ∷ b's' ∷ b'_' ∷ b'w' ∷ b'i' ∷ b'l'
      ∷ b'd' ∷ b'c' ∷ b'a' ∷ b'r' ∷ b'd' ∷ b'_' ∷ b'p' ∷ b'r' ∷ b'o' ∷ b'b' ∷ b'e' ∷ b'_' ∷ b'_'
      ∷ [])

-- `ownerFQDN`
unfoldable pub owner_fqdn : Name → Name → Name
unfolding name_eq
owner_fqdn [] apex = apex
owner_fqdn (c ∷ cs) apex =
    if name_eq (c ∷ cs) (b'*' ∷ [])
    then wildcard_probe ++ (b'.' ∷ apex)
    else c ∷ cs ++ (b'.' ∷ apex)

-- `synthSOA`
unfoldable pub synth_soa : Name → ModelRr
synth_soa apex = record {
  name = apex;
  rtype = type_soa;
  ttl = 3600;
  class = class_inet;
  content =
      apex
      ++ (32
          ∷ ((b'h' ∷ b'o' ∷ b's' ∷ b't' ∷ b'm' ∷ b'a' ∷ b's' ∷ b't' ∷ b'e' ∷ b'r' ∷ b'.' ∷ [])
              ++ (apex
                  ++ (32
                      ∷ (b'1' ∷ 32 ∷ b'7' ∷ b'2' ∷ b'0' ∷ b'0' ∷ 32 ∷ b'3' ∷ b'6' ∷ b'0' ∷ b'0' ∷ 32
                          ∷ b'1' ∷ b'2' ∷ b'0' ∷ b'9' ∷ b'6' ∷ b'0' ∷ b'0' ∷ 32 ∷ b'3' ∷ b'0' ∷ b'0'
                          ∷ [])))));
  priority = 0;
  weight = 0;
  port = 0;
  target = [];
  trusted = false;
}

-- `append(m[t], rr)`, written back
unfoldable pub add_rr : ModelRr → ByType → ByType
add_rr rr [] = (rr.rtype, rr ∷ []) ∷ []
add_rr rr ((t, rrs) ∷ rest) =
    let later = add_rr rr rest in
    if rr.rtype == t then (t, rrs ++ (rr ∷ [])) ∷ rest else (t, rrs) ∷ later

-- the zone so far, and the owners of tunnels
abbrev pub Building : Type 0
Building = Zone × List Name

-- the body of the first loop of `BuildZone`
unfoldable pub add_record : Library → (Name → Option ℕ) → List Name → Building → CfRecord → Building
unfolding to_model_rr rel_owner is_tunnel_target add_rr get put name_eq
add_record lib types suffixes (z, tunnels) r =
    let owner = rel_owner lib r.name z.apex in
    elim (to_model_rr lib types r) [
      | none ↦ (z, tunnels)
      | some rr ↦
          if rr.rtype == type_cname && is_tunnel_target lib rr.content suffixes
          then (z, owner ∷ tunnels)
          else if name_eq owner (b'*' ∷ [])
          then (record z { wildcards = add_rr rr z.wildcards }, tunnels)
          else (
            record z { records = put owner (add_rr rr (rrsets (get owner z.records))) z.records },
            tunnels,
          )
    ]

-- `addrRR`, of the mirror
unfoldable pub tunnel_rr : Library → Addr → ModelRr
tunnel_rr lib a = record {
  name = [];
  rtype = elim a [ v6 _ _ ↦ type_aaaa | _ ↦ type_a ];
  ttl = 300;
  class = class_inet;
  content = lib.show_addr a;
  priority = 0;
  weight = 0;
  port = 0;
  target = [];
  trusted = false;
}
