-- ===== src/Mdns/View.antt =====
-- `View` of internal/mdns/cache.go, in the fields of `MDNSView` that a query reads. `reverse_addr` is
-- `ReverseAddr` of the DNS library. The seconds of a duration are exact here.
use splitdns.Prelude.{
  ℕ, ◌/◌, ◌%◌, ◌^◌, Bool, true, false, ◌&&◌, Option, none, some, List, [], ◌∷◌, ◌++◌, if◌then◌else◌,
  ltb, any, Instant, second, seconds, since, ltb_ℤ, pos_part,
}
use splitdns.Netmatch.{Addr, v6}
use splitdns.Dns.{Name, name_eq, class_inet}
use splitdns.Model.{get, put, slice, ModelRr, MdnsService, MdnsView}
use splitdns.Model.Render.{Library}
use splitdns.Ddns.Plan.{name_lt, sort_by}
use splitdns.Resolver.Zone.{type_a, type_aaaa}
use splitdns.Resolver.Reverse.{type_ptr}
use splitdns.Mdns.{SvcInfo, HostEntry, HostCache, addr_eq, sorted}
use splitdns.Mdns.Trusted.{trusted_addrs}

abbrev pub trusted_ttl : ℕ
trusted_ttl = 120

abbrev pub stale_serve_ttl : ℕ
stale_serve_ttl = 30

-- `ttlUntil`
unfoldable pub ttl_until : Instant → Instant → ℕ
ttl_until expiry now =
    let d = since expiry now in if ltb_ℤ d (seconds 1) then 1 else (pos_part d / second) % 2 ^ 32

-- the TTL of the addresses that a host announced itself
unfoldable pub served_ttl : HostEntry → Instant → ℕ
unfolding ttl_until
served_ttl e now =
    if ltb e.fresh_until now
    then (let rem = ttl_until e.expiry now in
        if ltb rem stale_serve_ttl then rem else stale_serve_ttl)
    else ttl_until e.fresh_until now

-- `append(m[k], rr)`, written back
unfoldable pub push : Name → ModelRr → List (Name × List ModelRr) → List (Name × List ModelRr)
unfolding get put
push k rr m = put k (slice (get k m) ++ (rr ∷ [])) m

module _ (lib : Library) (reverse_addr : Name → Option Name) where
  -- `emit`
  unfoldable pub emit : Name → Name → ℕ → Bool → MdnsView → Addr → MdnsView
  unfolding push
  emit host fqdn ttl trusted v a =
      let fwd : ModelRr = record {
        name = fqdn;
        rtype = elim a [ v6 _ _ ↦ type_aaaa | _ ↦ type_a ];
        ttl = ttl;
        class = class_inet;
        content = lib.show_addr a;
        priority = 0;
        weight = 0;
        port = 0;
        target = [];
        trusted = trusted;
      } in
      let v1 = record v { forward = push host fwd v.forward } in
      elim (reverse_addr (lib.show_addr a)) [
        | none ↦ v1
        | some arpa ↦
            let ptr : ModelRr = record {
              name = arpa;
              rtype = type_ptr;
              ttl = ttl;
              class = class_inet;
              content = fqdn;
              priority = 0;
              weight = 0;
              port = 0;
              target = fqdn;
              trusted = false;
            } in
            record v1 { reverse = push arpa ptr v1.reverse }
      ]

  -- the loops over the addresses of a host, but for those in a set
  unfoldable pub emit_all : Name → Name → ℕ → Bool → List Addr → MdnsView → List Addr → MdnsView
  unfolding emit addr_eq
  emit_all host fqdn ttl trusted skip v [] = v
  emit_all host fqdn ttl trusted skip v (a ∷ rest) =
      emit_all host fqdn ttl trusted skip
        (if any (λ b. addr_eq a b) skip then v else emit host fqdn ttl trusted v a) rest

  abbrev services_of : List (Name × SvcInfo) → List MdnsService
  services_of [] = []
  services_of ((t, si) ∷ rest) =
      record { kind = t; port = si.port; text = si.text } ∷ services_of rest

  abbrev has_some : {A : Type 0} → List A → Bool
  has_some [] = false
  has_some (_ ∷ _) = true

  -- what a host announced itself
  unfoldable pub add_volatile : HostCache → Instant → Name → List Addr → MdnsView → MdnsView
  unfolding get put served_ttl sorted emit_all sort_by name_lt
  add_volatile c now host trusted v = elim (get host c.hosts) [
    | none ↦ v
    | some e ↦
        if ltb e.expiry now
        then v
        else (let fqdn = host ++ (b'.' ∷ b'l' ∷ b'o' ∷ b'c' ∷ b'a' ∷ b'l' ∷ b'.' ∷ []) in
            let v1 = emit_all host fqdn (served_ttl e now) false trusted v (sorted e.addrs) in
            if has_some e.services && has_some e.addrs
            then record v1 {
              services =
                  put host
                    (sort_by (λ (s t : MdnsService). name_lt s.kind t.kind)
                      (services_of e.services))
                    v1.services;
            }
            else v1)
  ]

  -- a round of the loop over the hosts
  unfoldable pub add_host : HostCache → Instant → MdnsView → Name → MdnsView
  unfolding trusted_addrs sorted emit_all add_volatile
  add_host c now v host =
      let fqdn = host ++ (b'.' ∷ b'l' ∷ b'o' ∷ b'c' ∷ b'a' ∷ b'l' ∷ b'.' ∷ []) in
      let trusted = trusted_addrs c host now in
      add_volatile c now host trusted (emit_all host fqdn trusted_ttl true [] v (sorted trusted))

  abbrev keys : {A : Type 0} → List (Name × A) → List Name → List Name
  keys [] names = names
  keys ((n, _) ∷ rest) names = keys rest (if any (λ m. name_eq n m) names then names else n ∷ names)

  -- the loop over the hosts
  unfoldable pub add_hosts : HostCache → Instant → MdnsView → List Name → MdnsView
  unfolding add_host
  add_hosts c now v [] = v
  add_hosts c now v (h ∷ hs) = add_hosts c now (add_host c now v h) hs

  -- `View`
  unfoldable pub view : HostCache → Instant → MdnsView
  unfolding add_hosts name_eq
  view c now =
      add_hosts c now (record { forward = []; reverse = []; services = [] })
        (keys c.trusted (keys c.hosts []))
