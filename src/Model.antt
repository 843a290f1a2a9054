-- ===== src/Model.antt =====
-- The immutable data that the resolver reads: internal/model/rr.go and internal/model/snapshot.go. A
-- map is the list of its entries, in some order in which it may be ranged over; its keys are
-- distinct. A set, a `map[string]bool`, is the list of the keys that are true. A nil inner map is
-- taken for a missing one, as the code takes it.
pub mod Render
use splitdns.Prelude.{
  ℕ, Bool, true, false, Option, none, some, List, [], ◌∷◌, if◌then◌else◌, ◌==◌, any,
}
use splitdns.Netmatch.{Addr}
use splitdns.Dns.{Name, name_eq}

-- a lookup in a map keyed by names
unfoldable pub get : {A : Type 0} → Name → List (Name × A) → Option A
get k [] = none
get k ((n, a) ∷ rest) = if name_eq k n then some a else get k rest

-- an entry of a map, written
unfoldable pub put : {A : Type 0} → Name → A → List (Name × A) → List (Name × A)
unfolding name_eq
put k a [] = (k, a) ∷ []
put k a ((n, b) ∷ rest) =
    let later = put k a rest in if name_eq k n then (n, a) ∷ rest else (n, b) ∷ later

-- a lookup in a set
unfoldable pub member : Name → List Name → Bool
member k names = any (λ n. name_eq k n) names

-- `RR`, less the fields that are never read while a query is answered
pub record ModelRr : Type 0 where
  pub name : Name
  pub rtype : ℕ
  pub ttl : ℕ
  pub class : ℕ
  pub content : Name
  pub priority : ℕ
  pub weight : ℕ
  pub port : ℕ
  pub target : Name
  pub trusted : Bool

-- `map[uint16][]RR`
abbrev pub ByType : Type 0
ByType = List (ℕ × List ModelRr)

-- the RRset of a type; nil where there is none
unfoldable pub of_type : ℕ → ByType → List ModelRr
of_type t [] = []
of_type t ((u, rrs) ∷ rest) = if t == u then rrs else of_type t rest

-- `Zone`, with what a query reads
pub record Zone : Type 0 where
  pub apex : Name
  pub soa : ModelRr
  pub records : List (Name × ByType)
  pub wildcards : ByType
  pub ent : List Name
  pub tunnel_addr : List (Name × ByType)

-- `RevZone`
pub record RevZone : Type 0 where
  pub apex : Name
  pub soa : ModelRr

-- `DDREndpoint`
pub record Endpoint : Type 0 where
  pub port : ℕ
  pub path : Name

-- `DDRAdvert`
pub record DdrAdvert : Type 0 where
  pub adn : Name
  pub v4_hints : List Addr
  pub v6_hints : List Addr
  pub dot : Option Endpoint
  pub doh : Option Endpoint

-- `Snapshot`, with what a query reads; a zone may be a nil pointer, and the targets of a stub zone are
-- the texts of its address and port
pub record Snapshot : Type 0 where
  pub zones : List (Name × Option Zone)
  pub stub_zones : List (Name × List Name)
  pub reverse_z : List (Name × RevZone)
  pub vhosts : List Name
  pub excluded : List Name
  pub static : List (Name × List ModelRr)
  pub ddns_eligible : List Name
  pub local_domain : Name
  pub serve_dnssd : Bool
  pub vhost_v4 : Addr
  pub vhost_v6 : Addr
  pub ddr : Option DdrAdvert

-- `MDNSService`
pub record MdnsService : Type 0 where
  pub kind : Name
  pub port : ℕ
  pub text : List Name

-- `MDNSView`, with what a query reads
pub record MdnsView : Type 0 where
  pub forward : List (Name × List ModelRr)
  pub reverse : List (Name × List ModelRr)
  pub services : List (Name × List MdnsService)

-- an entry that is a slice; nil where there is none
abbrev pub slice : {A : Type 0} → Option (List A) → List A
slice none = []
slice (some xs) = xs

-- an entry that is a map of RRsets; nil where there is none
abbrev pub rrsets : Option ByType → ByType
rrsets none = []
rrsets (some m) = m
