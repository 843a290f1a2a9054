-- ===== src/Mirror/Zones.antt =====
-- The rest of `BuildZone` of internal/mirror/mirror.go: the tunnels, the empty non-terminals and the
-- serial of the SOA record.
pub mod Interior
use splitdns.Prelude.{
  ℕ, Bool, true, false, ◌&&◌, ◌||◌, not, Option, none, some, List, [], ◌∷◌, ◌++◌, if◌then◌else◌,
  ◌==◌, length,
}
use splitdns.Netmatch.{Addr}
use splitdns.Dns.{Name, name_eq, to_lower}
use splitdns.Model.{get, put, member, ModelRr, ByType, Zone}
use splitdns.Model.Render.{Library, decimal, fields}
use splitdns.Resolver.Zone.{is_some}
use splitdns.Mirror.Build.{CfRecord, owner_fqdn, synth_soa, Building, add_record, add_rr, tunnel_rr}

-- what follows each dot of an owner: `strings.Join(labels[i:], ".")` for each i from 1
unfoldable pub ancestors : Name → List Name
ancestors [] = []
ancestors (c ∷ cs) = let rest = ancestors cs in if c == b'.' then cs ∷ rest else rest

abbrev pub is_nil : Name → Bool
is_nil [] = true
is_nil (_ ∷ _) = false

-- the ancestors of one owner that have no records of their own, marked
unfoldable pub mark : List (Name × ByType) → List Name → List Name → List Name
unfolding get
mark records ent [] = ent
mark records ent (anc ∷ ancs) =
    mark records (if not (is_nil anc) && not (is_some (get anc records)) then anc ∷ ent else ent)
      ancs

-- the second loop of `deriveENT`
unfoldable pub mark_all : List (Name × ByType) → List Name → List (Name × ByType) → List Name
unfolding ancestors mark
mark_all records ent [] = ent
mark_all records ent ((owner, m) ∷ rest) =
    mark_all records (mark records ent (ancestors owner)) rest

-- `deriveENT`
unfoldable pub derive_ent : Zone → Zone
unfolding mark_all
derive_ent z = record z { ent = mark_all z.records z.ent z.records }

-- the records of some addresses, by type
abbrev by_type : Library → ByType → List Addr → ByType
by_type lib m [] = m
by_type lib m (a ∷ rest) = by_type lib (add_rr (tunnel_rr lib a) m) rest

-- what the tunnel resolver answers for a name: IPv4 and IPv6 addresses, or an error
abbrev pub Tunnels : Type 0
Tunnels = Name → Option (List Addr × List Addr)

abbrev no_rrsets : ByType → Bool
no_rrsets [] = true
no_rrsets (_ ∷ _) = false

-- the body of the second loop of `BuildZone`
unfoldable pub flatten : Library → Tunnels → Zone → Name → Zone
unfolding owner_fqdn put add_rr tunnel_rr
flatten lib resolve z owner = elim (resolve (owner_fqdn owner z.apex)) [
  | none ↦ z
  | some (v4s, v6s) ↦
      let ta = by_type lib (by_type lib [] v4s) v6s in
      if no_rrsets ta then z else record z { tunnel_addr = put owner ta z.tunnel_addr }
]

-- the second loop of `BuildZone`
unfoldable pub flatten_all : Library → Tunnels → Zone → List Name → Zone
unfolding flatten
flatten_all lib resolve z [] = z
flatten_all lib resolve z (owner ∷ owners) =
    flatten_all lib resolve (flatten lib resolve z owner) owners

-- the first loop of `BuildZone`
unfoldable pub add_records :
    Library → (Name → Option ℕ) → List Name → Building → List CfRecord → Building
unfolding add_record
add_records lib types suffixes b [] = b
add_records lib types suffixes b (r ∷ rs) =
    add_records lib types suffixes (add_record lib types suffixes b r) rs

-- `BuildZone`; the names of tunnels are a set in the code, and a repeated one is resolved again here
unfoldable pub build_zone :
    Library → (Name → Option ℕ) → Tunnels → List Name → Name → List CfRecord → Zone
unfolding to_lower synth_soa add_records flatten_all derive_ent
build_zone lib types resolve suffixes name recs =
    let apex = lib.fqdn (to_lower name) in
    let start : Zone = record {
      apex = apex;
      soa = synth_soa apex;
      records = [];
      wildcards = [];
      ent = [];
      tunnel_addr = [];
    } in
    let (z, owners) = add_records lib types suffixes (start, []) recs in
    derive_ent (flatten_all lib resolve z owners)

abbrev join_spaces : List Name → Name
join_spaces [] = []
join_spaces (f ∷ []) = f
join_spaces (f ∷ g ∷ fs) = f ++ (32 ∷ join_spaces (g ∷ fs))

abbrev with_third : Name → List Name → List Name
with_third s (a ∷ b ∷ _ ∷ rest) = a ∷ b ∷ s ∷ rest
with_third s fs = fs

-- `withSOASerial`
unfoldable pub with_soa_serial : ModelRr → ℕ → ModelRr
unfolding fields decimal
with_soa_serial soa serial =
    let f = fields soa.content in
    if not (length f == 7)
    then soa
    else record soa { content = join_spaces (with_third (decimal serial) f) }
