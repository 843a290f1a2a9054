-- ===== src/Resolver/Local/Trust.antt =====
-- Who may place an address on the local plane of internal/resolver/resolver.go.
use splitdns.Prelude.{
  ℕ, ◌≡◌, refl, sym, ap, ◌∙◌, Bool, true, not, List, [], ◌∷◌, if◌then◌else◌, filter, Bool-cases,
  inl, inr,
}
use splitdns.Dns.{Name, Msg}
use splitdns.Model.{get, slice, ModelRr, Zone, Snapshot, MdnsView}
use splitdns.Model.Render.{Library}
use splitdns.Resolver.Helpers.{is_empty}
use splitdns.Resolver.Zone.{type_a, type_aaaa}
use splitdns.Resolver.Local.{
  is_candidate, restricted_label, local_serve_addrs, local_host_addrs, local_recovered_zone_reply,
  recovered_reply,
}

filter_comm :
    {A : Type 0} (p q : A → Bool) (xs : List A) → filter p (filter q xs) ≡ filter q (filter p xs)
filter_comm p q [] = refl
filter_comm p q (x ∷ xs) =
    let rest = filter_comm p q xs in
    elim (Bool-cases (p x)) [
      | inl a ↦ elim (Bool-cases (q x)) [ inl b ↦ simp (a, b, rest) | inr b ↦ simp (a, b, rest) ]
      | inr a ↦ elim (Bool-cases (q x)) [ inl b ↦ simp (a, b, rest) | inr b ↦ simp (a, b, rest) ]
    ]

-- The records of a host that came by the trusted channel.
abbrev pub trusted_of : MdnsView → Name → List ModelRr
trusted_of view host = filter (λ r. r.trusted) (slice (get host view.forward))

or_else : {A : Type 0} (xs : List A) → (if not (is_empty xs) then xs else []) ≡ xs
or_else [] = refl
or_else (x ∷ xs) = refl

module _ (lib : Library) (view : MdnsView) (host : Name) where
  -- Only trusted records are served for a restricted name, and all that can be.
  local_serve_addrs-restricted :
      (qtype : ℕ) (scope : Bool)
      → local_serve_addrs lib view host qtype true scope
        ≡ filter (is_candidate lib qtype scope) (trusted_of view host)
  unfolding local_serve_addrs
  local_serve_addrs-restricted qtype scope =
      or_else (
        filter (λ r. r.trusted)
          (filter (is_candidate lib qtype scope) (slice (get host view.forward))))
      ∙ filter_comm (λ r. r.trusted) (is_candidate lib qtype scope) (slice (get host view.forward))

-- Two views with the same trusted records of a restricted host give it the same addresses.
pub local_host_addrs-trusted :
    (lib : Library) (snap : Snapshot) (v w : MdnsView) (host : Name) (scope : Bool)
    → restricted_label snap host ≡ true
    → trusted_of v host ≡ trusted_of w host
    → local_host_addrs lib snap v host scope ≡ local_host_addrs lib snap w host scope
unfolding local_host_addrs
local_host_addrs-trusted lib snap v w host scope r same =
    let family : (qtype : ℕ)
        → local_serve_addrs lib v host qtype (restricted_label snap host) scope
          ≡ local_serve_addrs lib w host qtype (restricted_label snap host) scope =
      λ qtype. rw r (
        local_serve_addrs-restricted lib v host qtype scope
        ∙ (ap (filter (is_candidate lib qtype scope)) same
            ∙ sym (local_serve_addrs-restricted lib w host qtype scope))) in
    λ i. (family type_a i, family type_aaaa i, restricted_label snap host)

pub local_recovered_zone_reply-trusted :
    (lib : Library) (snap : Snapshot) (v w : MdnsView) (req : Msg) (name host : Name) (qtype : ℕ)
    (zone : Zone)
    → restricted_label snap host ≡ true
    → trusted_of v host ≡ trusted_of w host
    → local_recovered_zone_reply lib snap v req name host qtype zone
      ≡ local_recovered_zone_reply lib snap w req name host qtype zone
unfolding local_recovered_zone_reply
local_recovered_zone_reply-trusted lib snap v w req name host qtype zone r same =
    ap (recovered_reply lib req name qtype zone)
      (local_host_addrs-trusted lib snap v w host true r same)
