-- ===== src/Tests/Planes.antt =====
-- The planes of the resolver, and the server in front of it, at concrete names.
use splitdns.Prelude.{◌≡◌, refl, Bool, true, false, ◌||◌, none, some, [], ◌∷◌, inl, inr}
use splitdns.Netmatch.{v4, Access}
use splitdns.Dns.{name_eq, Question, to_lower}
use splitdns.Model.{member, Zone, MdnsView}
use splitdns.Resolver.Helpers.{is_arpa, longest_zone_suffix, relative_owner}
use splitdns.Resolver.Zone.{exists_at}
use splitdns.Resolver.Scope.{mdns_zone_reply}
use splitdns.Resolver.Local.{recover_local_host, local_label}
use splitdns.Resolver.Vhost.{vhost_reply}
use splitdns.Resolver.Inherits.{
  tamed, mdns_zone_reply-tamed, vhost_reply-tamed, recovered_or_zone-tainted,
}
use splitdns.Resolver.Resolve.{recovered_or_zone, resolve_name}
use splitdns.Resolver.Resolve.Public.{IsPublic}
use splitdns.Resolver.Resolve.Shielded.{IsManaged, resolve_name-shielded}
use splitdns.Server.{Wire, Query}
use splitdns.Server.Leaks.{serve_query, serve_query-private}
use splitdns.Tests.Library.{library}
use splitdns.Tests.Resolver.{rr, zone, snap, view, ask, by_key, no_reverse}

-- a host that announces itself as m, a name that dynamic DNS writes
abbrev spoofed : MdnsView
spoofed = record view { forward = ((b'm' ∷ []), rr 1 120 (b'9' ∷ []) ∷ []) ∷ [] }

no_arpa : is_arpa (b'm' ∷ b'.' ∷ b'e' ∷ b'.' ∷ []) ≡ false
unfolding is_arpa
no_arpa = refl

or_true : (b : Bool) → b || true ≡ true
or_true true = refl
or_true false = refl

written : IsManaged snap (b'm' ∷ b'.' ∷ b'e' ∷ b'.' ∷ [])
unfolding longest_zone_suffix relative_owner member
written z e = or_true (exists_at z (b'm' ∷ []))

untainted : (recover_local_host snap (b'm' ∷ b'.' ∷ b'e' ∷ b'.' ∷ [])).1 ≡ false
unfolding recover_local_host
untainted = refl

unlocal : local_label snap (b'm' ∷ b'.' ∷ b'e' ∷ b'.' ∷ []) ≡ none
unfolding local_label
unlocal = refl

resolve_name-shielded_example :
    resolve_name library snap spoofed
      (ask (b'm' ∷ b'.' ∷ b'e' ∷ b'.' ∷ []) 1)
      (b'm' ∷ b'.' ∷ b'e' ∷ b'.' ∷ [])
      1
    ≡ resolve_name library snap view
        (ask (b'm' ∷ b'.' ∷ b'e' ∷ b'.' ∷ []) 1)
        (b'm' ∷ b'.' ∷ b'e' ∷ b'.' ∷ [])
        1
resolve_name-shielded_example =
    resolve_name-shielded library snap spoofed view (ask (b'm' ∷ b'.' ∷ b'e' ∷ b'.' ∷ []) 1)
      (b'm' ∷ b'.' ∷ b'e' ∷ b'.' ∷ []) 1 refl no_arpa written (λ t. absurd (cc (t, untainted)))
      (λ l. absurd (l unlocal))

-- the zone with a wildcard that points to the public
abbrev wild : Zone
wild = record zone {
  wildcards =
      (5, rr 5 60 (b'x' ∷ b'.' ∷ b'y' ∷ b'.' ∷ []) ∷ []) ∷ (1, rr 1 60 (b'8' ∷ []) ∷ []) ∷ [];
  tunnel_addr = ((b'*' ∷ []), (1, rr 1 60 (b'8' ∷ []) ∷ []) ∷ []) ∷ [];
}

mdns_zone_reply-tamed_example :
    mdns_zone_reply library
      (tamed wild)
      (ask (b'q' ∷ b'.' ∷ b'e' ∷ b'.' ∷ []) 255)
      (b'q' ∷ b'.' ∷ b'e' ∷ b'.' ∷ [])
      255
      (rr 1 120 (b'9' ∷ []) ∷ [])
    ≡ mdns_zone_reply library wild
        (ask (b'q' ∷ b'.' ∷ b'e' ∷ b'.' ∷ []) 255)
        (b'q' ∷ b'.' ∷ b'e' ∷ b'.' ∷ [])
        255
        (rr 1 120 (b'9' ∷ []) ∷ [])
mdns_zone_reply-tamed_example =
    mdns_zone_reply-tamed library wild (ask (b'q' ∷ b'.' ∷ b'e' ∷ b'.' ∷ []) 255)
      (b'q' ∷ b'.' ∷ b'e' ∷ b'.' ∷ []) 255 (rr 1 120 (b'9' ∷ []) ∷ [])

vhost_reply-tamed_example :
    vhost_reply library snap
      (ask (b'v' ∷ b'.' ∷ b'e' ∷ b'.' ∷ []) 255)
      (b'v' ∷ b'.' ∷ b'e' ∷ b'.' ∷ [])
      (b'v' ∷ [])
      255
      (some (tamed wild))
    ≡ vhost_reply library snap
        (ask (b'v' ∷ b'.' ∷ b'e' ∷ b'.' ∷ []) 255)
        (b'v' ∷ b'.' ∷ b'e' ∷ b'.' ∷ [])
        (b'v' ∷ [])
        255
        (some wild)
vhost_reply-tamed_example =
    vhost_reply-tamed library snap (ask (b'v' ∷ b'.' ∷ b'e' ∷ b'.' ∷ []) 255)
      (b'v' ∷ b'.' ∷ b'e' ∷ b'.' ∷ []) (b'v' ∷ []) 255 wild (λ e. cc e)

tainted :
    (recover_local_host snap (b'h' ∷ b'.' ∷ b'l' ∷ b'a' ∷ b'n' ∷ b'.' ∷ b'e' ∷ b'.' ∷ [])).1 ≡ true
unfolding recover_local_host
tainted = refl

unpublished : exists_at zone (b'h' ∷ b'.' ∷ b'l' ∷ b'a' ∷ b'n' ∷ []) ≡ false
unfolding exists_at name_eq
unpublished = refl

unpublished_too :
    exists_at
      (record zone { wildcards = wild.wildcards; tunnel_addr = wild.tunnel_addr })
      (b'h' ∷ b'.' ∷ b'l' ∷ b'a' ∷ b'n' ∷ [])
    ≡ false
unfolding exists_at name_eq
unpublished_too = refl

not_ent : member (b'h' ∷ b'.' ∷ b'l' ∷ b'a' ∷ b'n' ∷ []) zone.ent ≡ false
unfolding member name_eq
not_ent = refl

recovered_or_zone-tainted_example :
    recovered_or_zone library snap view
      (ask (b'h' ∷ b'.' ∷ b'l' ∷ b'a' ∷ b'n' ∷ b'.' ∷ b'e' ∷ b'.' ∷ []) 1)
      (b'h' ∷ b'.' ∷ b'l' ∷ b'a' ∷ b'n' ∷ b'.' ∷ b'e' ∷ b'.' ∷ [])
      (b'h' ∷ b'.' ∷ b'l' ∷ b'a' ∷ b'n' ∷ [])
      1
      (record zone { wildcards = wild.wildcards; tunnel_addr = wild.tunnel_addr })
    ≡ recovered_or_zone library snap view
        (ask (b'h' ∷ b'.' ∷ b'l' ∷ b'a' ∷ b'n' ∷ b'.' ∷ b'e' ∷ b'.' ∷ []) 1)
        (b'h' ∷ b'.' ∷ b'l' ∷ b'a' ∷ b'n' ∷ b'.' ∷ b'e' ∷ b'.' ∷ [])
        (b'h' ∷ b'.' ∷ b'l' ∷ b'a' ∷ b'n' ∷ [])
        1
        zone
recovered_or_zone-tainted_example =
    recovered_or_zone-tainted library snap view
      (ask (b'h' ∷ b'.' ∷ b'l' ∷ b'a' ∷ b'n' ∷ b'.' ∷ b'e' ∷ b'.' ∷ []) 1)
      (b'h' ∷ b'.' ∷ b'l' ∷ b'a' ∷ b'n' ∷ b'.' ∷ b'e' ∷ b'.' ∷ [])
      (b'h' ∷ b'.' ∷ b'l' ∷ b'a' ∷ b'n' ∷ []) 1 zone wild.wildcards wild.tunnel_addr tainted
      unpublished unpublished_too not_ent

abbrev wire : Wire
wire = record {
  edns = λ m. none;
  set_edns0 = λ n d m. m;
  truncate = λ n m. m;
  set_rcode = λ req rcode. record req { rcode = rcode; answer = []; ns = []; extra = [] };
}

abbrev query : Query
query = record {
  wire = wire;
  has_forwarder = true;
  allow = [];
  tcp = false;
  req = ask (b'a' ∷ b'.' ∷ b'e' ∷ b'.' ∷ []) 1;
}

abbrev access : Access
access = record { allow = none; refuse = none }

private :
    (question : Question)
    → query.req.question ≡ question ∷ []
    → IsPublic snap (to_lower (library.fqdn question.name)) question.qtype
    → ⊥
unfolding library is_arpa to_lower
private question e public =
    let same : question
        ≡ record { name = (b'a' ∷ b'.' ∷ b'e' ∷ b'.' ∷ []); qtype = 1; qclass = 1 } =
      cc e in
    let (_, _, _, last) : IsPublic snap (b'a' ∷ b'.' ∷ b'e' ∷ b'.' ∷ []) 1 = rw same at public in
    elim last [
      | inl (arpa, _) ↦ cc arpa
      | inr (_, _, _, outside, _) ↦ outside (b'e' ∷ b'.' ∷ []) (inl refl) (inr ((b'a' ∷ []), refl))
    ]

serve_query-private_example :
    serve_query library snap view none query access
      (v4 7)
      false
      none
      none
      (some (ask (b'a' ∷ b'.' ∷ b'e' ∷ b'.' ∷ []) 1))
      0
      0
    ≡ serve_query library snap view none query access (v4 7) false none none none 0 0
serve_query-private_example =
    serve_query-private library snap view none query access (v4 7) false none none
      (some (ask (b'a' ∷ b'.' ∷ b'e' ∷ b'.' ∷ []) 1)) none 0 0 by_key no_reverse private
