-- ===== src/Resolver/Dnssd.antt =====
-- internal/resolver/dnssd.go: DNS-SD nodes, projected from the services that the mDNS view holds.
use splitdns.Prelude.{
  ℕ, Bool, false, ◌&&◌, ◌||◌, not, Option, none, some, List, [], ◌∷◌, ◌++◌, if◌then◌else◌, ltb,
  ◌==◌, any, length, drop,
}
use splitdns.Dns.{Name, name_eq, Msg, Rr, Body, type_any}
use splitdns.Model.{get, slice, ModelRr, MdnsService, MdnsView}
use splitdns.Model.Render.{type_srv}
use splitdns.Resolver.Helpers.{is_empty}
use splitdns.Resolver.Reverse.{name_lt, type_ptr}

abbrev pub type_txt : ℕ
type_txt = 16

abbrev pub dnssd_ttl : ℕ
dnssd_ttl = 120

abbrev pub dnssd_meta : Name
dnssd_meta =
    (b'_' ∷ b's' ∷ b'e' ∷ b'r' ∷ b'v' ∷ b'i' ∷ b'c' ∷ b'e' ∷ b's' ∷ b'.' ∷ b'_' ∷ b'd' ∷ b'n' ∷ b's'
      ∷ b'-' ∷ b's' ∷ b'd' ∷ b'.' ∷ b'_' ∷ b'u' ∷ b'd' ∷ b'p' ∷ [])

-- `strings.Split` at the dots
unfoldable pub split_dots : Name → List Name
split_dots [] = [] ∷ []
split_dots (c ∷ cs) =
    let rest = split_dots cs in
    if c == b'.' then [] ∷ rest else elim rest [ [] ↦ (c ∷ []) ∷ [] | l ∷ ls ↦ (c ∷ l) ∷ ls ]

-- `strings.Join` with dots
unfoldable pub join_dots : List Name → Name
join_dots [] = []
join_dots (l ∷ []) = l
join_dots (l ∷ m ∷ ls) = l ++ (b'.' ∷ join_dots (m ∷ ls))

-- the kinds of `parseDNSSD`, with what it returns for each
pub data Node : Type 0 where
  not_a_node : Node
  meta : Node
  type_node : Name → Node
  instance_node : Name → Name → Node

abbrev underscored : Name → Bool
underscored [] = false
underscored (c ∷ _) = c == b'_'

-- the labels before the last two, and these
abbrev last_two : List Name → Option (List Name × Name × Name)
last_two [] = none
last_two (_ ∷ []) = none
last_two (a ∷ b ∷ []) = some ([], a, b)
last_two (a ∷ b ∷ c ∷ ls) = elim (last_two (b ∷ c ∷ ls)) [
  | none ↦ none
  | some (before, x, y) ↦ some (a ∷ before, x, y)
]

abbrev node_of : List Name → Name → Node
node_of [] typ = type_node typ
node_of (l ∷ ls) typ = instance_node (join_dots (l ∷ ls)) typ

-- `parseDNSSD`
unfoldable pub parse_dnssd : Name → Node
unfolding name_eq split_dots join_dots
parse_dnssd label = if name_eq label dnssd_meta then meta else elim (last_two (split_dots label)) [
  | none ↦ not_a_node
  | some (before, service, proto) ↦
      if not (name_eq proto (b'_' ∷ b't' ∷ b'c' ∷ b'p' ∷ []))
        && not (name_eq proto (b'_' ∷ b'u' ∷ b'd' ∷ b'p' ∷ []))
      then not_a_node
      else if not (underscored service)
      then not_a_node
      else node_of before (service ++ (b'.' ∷ proto))
]

-- `sdAppend`
unfoldable pub sd_append : Msg → ℕ → Rr → Msg
sd_append resp qtype rr =
    if qtype == type_any || qtype == rr.hdr.rrtype
    then record resp { answer = resp.answer ++ (rr ∷ []) }
    else resp

-- the first TTL of some records that is not 0
abbrev first_ttl : List ModelRr → ℕ
first_ttl [] = dnssd_ttl
first_ttl (rr ∷ rest) = let later = first_ttl rest in if ltb 0 rr.ttl then rr.ttl else later

-- `hostTTL`
unfoldable pub host_ttl : MdnsView → Name → ℕ
unfolding get
host_ttl view host = first_ttl (slice (get host view.forward))

-- a name put in its place
unfoldable pub insert_sorted : Name → List Name → List Name
unfolding name_lt
insert_sorted n [] = n ∷ []
insert_sorted n (m ∷ ms) =
    let rest = insert_sorted n ms in if name_lt m n then m ∷ rest else n ∷ m ∷ ms

-- `sort.Strings`
unfoldable pub sort_names : List Name → List Name
unfolding insert_sorted
sort_names [] = []
sort_names (n ∷ ns) = insert_sorted n (sort_names ns)

-- the distinct names of a list, as the keys of a map
unfoldable pub distinct : List Name → List Name
unfolding name_eq
distinct [] = []
distinct (n ∷ ns) = let rest = distinct ns in if any (λ m. name_eq n m) rest then rest else n ∷ rest

-- `sortedSet`
unfoldable pub sorted_set : List Name → List Name
unfolding sort_names distinct
sorted_set ns = sort_names (distinct ns)

abbrev types_of : List MdnsService → List Name
types_of [] = []
types_of (s ∷ ss) = s.kind ∷ types_of ss

abbrev all_types : List (Name × List MdnsService) → List Name
all_types [] = []
all_types ((_, svcs) ∷ rest) = types_of svcs ++ all_types rest

abbrev instances : Name → Name → List (Name × List MdnsService) → List Name
instances typ suffix [] = []
instances typ suffix ((h, svcs) ∷ rest) =
    let later = instances typ suffix rest in
    if any (λ s. name_eq s.kind typ) svcs then (h ++ (b'.' ∷ (typ ++ suffix))) ∷ later else later

abbrev add_ptrs : Msg → ℕ → Name → List Name → Msg
add_ptrs resp qtype name [] = resp
add_ptrs resp qtype name (target ∷ rest) =
    add_ptrs
      (sd_append resp qtype (record {
        hdr = record { name = name; rrtype = type_ptr; ttl = dnssd_ttl };
        body = Body.ptr target;
      }))
      qtype name rest

abbrev with_suffix : Name → List Name → List Name
with_suffix suffix [] = []
with_suffix suffix (t ∷ ts) = (t ++ suffix) ∷ with_suffix suffix ts

-- the SRV and TXT records of one service of an instance
unfoldable pub add_service : Msg → ℕ → Name → Name → ℕ → MdnsService → Msg
unfolding sd_append
add_service resp qtype name target ttl s =
    let with_srv = sd_append resp qtype (record {
      hdr = record { name = name; rrtype = type_srv; ttl = ttl };
      body = Body.srv s.port target;
    }) in
    if is_empty s.text
    then with_srv
    else sd_append with_srv qtype (record {
      hdr = record { name = name; rrtype = type_txt; ttl = ttl };
      body = Body.txt s.text;
    })

-- the services of an instance that are of a type
unfoldable pub add_services : Msg → ℕ → Name → Name → ℕ → Name → List MdnsService → Msg
unfolding add_service name_eq
add_services resp qtype name target ttl typ [] = resp
add_services resp qtype name target ttl typ (s ∷ ss) =
    add_services (if name_eq s.kind typ then add_service resp qtype name target ttl s else resp)
      qtype name target ttl typ ss

-- `answerDNSSD`; none where the label is not a node
unfoldable pub answer_dnssd : MdnsView → Msg → Name → Name → ℕ → Option Msg
unfolding parse_dnssd sorted_set sort_names sd_append add_services host_ttl get
answer_dnssd view resp name label qtype =
    let suffix = drop (length label) name in
    elim (parse_dnssd label) [
      | not_a_node ↦ none
      | meta ↦
          some
            (add_ptrs resp qtype name (with_suffix suffix (sorted_set (all_types view.services))))
      | type_node typ ↦
          some (add_ptrs resp qtype name (sort_names (instances typ suffix view.services)))
      | instance_node host typ ↦ some (
          add_services resp qtype name (host ++ suffix) (host_ttl view host) typ
            (slice (get host view.services)))
    ]
