-- ===== src/Resolver/Zone/Wildcards.antt =====
-- What the wildcard of a zone answers: `wildcardOrNX` of internal/resolver/zone.go.
use splitdns.Prelude.{
  ℕ, ◌≡◌, refl, ◌∙◌, inl, inr, Bool, false, ◌&&◌, ◌||◌, not, [], ◌∷◌, ◌==◌, arith, Bool-cases,
  if_elim,
}
use splitdns.Dns.{Name, Msg, type_any, rcode_success, rcode_name_error}
use splitdns.Model.{get, ByType, of_type, rrsets, Zone}
use splitdns.Model.Render.{Library}
use splitdns.Resolver.Helpers.{append_matching, is_empty, set_negative_soa}
use splitdns.Resolver.Zone.{star, type_cname, is_address, append_all, keep_all, wildcard_or_nx}

pub rcode_append_all :
    (lib : Library) (resp : Msg) (skip : ℕ → Bool) (m : ByType) (name : Name)
    → (append_all lib resp skip m name).rcode ≡ resp.rcode
unfolding append_all append_matching
rcode_append_all lib resp skip [] name = refl
rcode_append_all lib resp skip ((t, rrs) ∷ rest) name = elim (Bool-cases (skip t)) [
  | inl e ↦ rw (e, append_all) (rcode_append_all lib resp skip rest name)
  | inr e ↦
      rw (e, append_all) (rcode_append_all lib (append_matching lib resp rrs name t) skip rest name)
]

module _ (lib : Library) (resp : Msg) (ok : resp.rcode ≡ rcode_success) (zone : Zone)
    (name : Name) where
  -- Without a wildcard the name is denied, with the SOA record of the zone.
  pub wildcard_or_nx-denies :
      (qtype : ℕ)
      → zone.wildcards ≡ []
      → rrsets (get star zone.tunnel_addr) ≡ []
      → wildcard_or_nx lib resp zone name qtype
        ≡ set_negative_soa lib resp zone.soa zone.apex rcode_name_error
  unfolding wildcard_or_nx of_type
  wildcard_or_nx-denies qtype no_wc no_wt =
      let nx = set_negative_soa lib resp zone.soa zone.apex rcode_name_error in
      let Denied : Msg → Type 0 = λ m. m ≡ nx in
      rw (no_wc, no_wt, wildcard_or_nx)
        (if_elim Denied (qtype == type_any) (λ _. refl)
          (λ _.
            if_elim Denied (is_address qtype && false) (λ e. absurd (ground arith)) (λ _. refl)))

  -- A wildcard denies nothing.
  pub wildcard_or_nx-grants :
      (qtype : ℕ)
      → is_empty zone.wildcards && is_empty (rrsets (get star zone.tunnel_addr)) ≡ false
      → (wildcard_or_nx lib resp zone name qtype).rcode ≡ rcode_success
  unfolding wildcard_or_nx append_matching set_negative_soa
  wildcard_or_nx-grants qtype some_of =
      let wc = zone.wildcards in
      let wt = rrsets (get star zone.tunnel_addr) in
      let Good : Msg → Type 0 = λ m. m.rcode ≡ rcode_success in
      if_elim Good (qtype == type_any)
        (λ _.
          if_elim Good (is_empty wc && is_empty wt) (λ e. absurd (ground arith))
            (λ _.
              rcode_append_all lib
                (append_all lib resp (λ t. t == type_cname && not (is_empty wt)) wc name) keep_all
                wt name
              ∙ (rcode_append_all lib resp (λ t. t == type_cname && not (is_empty wt)) wc name
                  ∙ ok)))
        (λ _.
          if_elim Good (is_address qtype && not (is_empty (of_type qtype wt))) (λ _. ok)
            (λ _.
              if_elim Good (not (is_empty (of_type qtype wc))) (λ _. ok)
                (λ _.
                  if_elim Good (not (is_empty wc) || not (is_empty wt)) (λ _. refl)
                    (λ e. absurd (ground arith)))))
