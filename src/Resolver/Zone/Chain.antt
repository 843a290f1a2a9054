-- ===== src/Resolver/Zone/Chain.antt =====
-- The chain of CNAME records within a zone: `chaseCNAME` of internal/resolver/zone.go.
use splitdns.Prelude.{
  ℕ, zero, suc, ◌+◌, ◌*◌, ◌≤◌, ◌<◌, ◌≡◌, refl, sym, ap, ◌∙◌, inl, inr, true, false, ◌&&◌, not, some,
  List, [], ◌∷◌, ◌++◌, length, length-append, ◌==◌, arith, Bool-cases, Option-cases, List-cases,
  if_elim,
}
use mathlib.Core.List.{append_assoc}
use native.Mathlib.Nat.{suc-mul}
use splitdns.Dns.{Name, Msg, Rr, type_any, rcode_success}
use splitdns.Model.{ModelRr, Zone}
use splitdns.Model.Render.{Library, IsLibrary}
use splitdns.Resolver.Helpers.{
  authoritative_reply, is_suffix_label, relative_owner, to_rr, matching, is_empty,
}
use splitdns.Resolver.Zone.{
  type_cname, max_cname_chain, is_address, target_of, rrset, tunnel, chase, chase_cname,
  answer_in_zone, answer_authoritative,
}

-- An owner whose first CNAME record points to a target within the zone.
abbrev pub IsLink : Library → Zone → Name → Name → Type 0
IsLink lib zone owner target =
    (c : ModelRr) × (cn : List ModelRr) × (rrset zone owner type_cname ≡ c ∷ cn)
    × (target_of lib c ≡ target)
    × (is_suffix_label target zone.apex ≡ true)

-- From an owner, over some number of further owners that have nothing of a type but a CNAME record,
-- to a target within the zone that has records of the type.
pub data Leads (lib : Library) (zone : Zone) (qtype : ℕ) : Name → Name → ℕ → Type 0 where
  ends :
      {owner target : Name}
      → IsLink lib zone owner target
      → is_empty (rrset zone (relative_owner target zone.apex) qtype) ≡ false
      → Leads lib zone qtype owner target 0
  hops :
      {owner target final : Name} {n : ℕ}
      → IsLink lib zone owner target
      → is_empty (rrset zone (relative_owner target zone.apex) qtype) ≡ true
      → is_empty (tunnel zone (relative_owner target zone.apex) qtype) ≡ true
      → Leads lib zone qtype (relative_owner target zone.apex) final n
      → Leads lib zone qtype owner final (suc n)

module _ (lib : Library) (zone : Zone) (qtype : ℕ) where
  Leads-cname :
      (owner final : Name) (n : ℕ)
      → Leads lib zone qtype owner final n
      → is_empty (rrset zone owner type_cname) ≡ false
  Leads-cname owner final _ (ends (c, cn, e, _, _) h) = ap is_empty e
  Leads-cname owner final _ (hops (c, cn, e, _, _) h h' l) = ap is_empty e

  chase-Leads :
      (owner final name : Name) (n fuel : ℕ)
      → Leads lib zone qtype owner final n
      → n < fuel
      → (links : List Rr) × (chase lib zone owner name qtype fuel
          ≡ links ++ matching lib (rrset zone (relative_owner final zone.apex) qtype) final qtype)
  unfolding chase
  chase-Leads owner final name _ (suc fuel) (ends (c, cn, e, t, s) h) lt =
      (matching lib (c ∷ cn) name type_cname, rw (e, t, s, h, chase) refl)
  chase-Leads owner final name _ (suc fuel) (hops {target = target} (c, cn, e, t, s) h h' l) lt =
      let (links, q) =
        chase-Leads (relative_owner target zone.apex) final target _ fuel l (omega arith) in
      let more = Leads-cname _ final _ l in
      let link = matching lib (c ∷ cn) name type_cname in
      let onward = chase lib zone (relative_owner target zone.apex) target qtype fuel in
      let step : chase lib zone owner name qtype (suc fuel) ≡ link ++ onward =
        elim (Bool-cases (is_address qtype)) [
          | inl b ↦ rw (e, t, s, h, h', more, b, chase) refl
          | inr b ↦ rw (e, t, s, h, h', more, b, chase) refl
        ] in
      (link ++ links, step ∙ (ap (λ x. link ++ x) q ∙ sym (append_assoc link links _)))
  chase-Leads owner final name n zero l lt = absurd (omega arith)

one_fits : (l : List Rr) (k n : ℕ) → length l ≤ k → length l ≤ suc n * k
one_fits l k n h = omega (arith, suc-mul n k)

both_fit : (l m : List Rr) (k n : ℕ) → length l ≤ k → length m ≤ n * k → length (l ++ m) ≤ suc n * k
both_fit l m k n h h' = omega (arith, suc-mul n k, length-append l m)

length-matching :
    (lib : Library) (recs : List ModelRr) (name : Name) (qtype : ℕ)
    → length (matching lib recs name qtype) ≤ length recs
unfolding matching
length-matching lib [] name qtype = omega arith
length-matching lib (r ∷ recs) name qtype =
    let rest = length-matching lib recs name qtype in
    elim (Bool-cases (not (qtype == type_any) && not (r.rtype == qtype))) [
      | inl b ↦ rw (b, matching) (omega (arith, rest))
      | inr b ↦ elim (Option-cases (to_rr lib r name)) [
        | inl n ↦ rw (b, n, matching) (omega (arith, rest))
        | inr (rr, n) ↦ rw (b, n, matching) (omega (arith, rest))
      ]
    ]

length-chase-le :
    (lib : Library) (zone : Zone) (qtype k : ℕ)
    → ((owner : Name) (t : ℕ)
        → (length (rrset zone owner t) ≤ k) × (length (tunnel zone owner t) ≤ k))
    → (fuel : ℕ) (owner name : Name) → length (chase lib zone owner name qtype fuel) ≤ suc fuel * k
unfolding chase
length-chase-le lib zone qtype k small zero owner name = omega arith
length-chase-le lib zone qtype k small (suc fuel) owner name =
    elim (List-cases (rrset zone owner type_cname)) [
      | inl e ↦ rw (e, chase) (omega arith)
      | inr (c, cn, e) ↦
          let target = target_of lib c in
          let t_owner = relative_owner target zone.apex in
          let link = matching lib (c ∷ cn) name type_cname in
          let onward = chase lib zone t_owner target qtype fuel in
          let rest = length-chase-le lib zone qtype k small fuel t_owner target in
          let head : length (c ∷ cn) ≤ k = rw e at ((small owner type_cname).0) in
          let shown = length-matching lib (c ∷ cn) name type_cname in
          let here : length link ≤ k = omega (arith, head, shown) in
          let Fits : List Rr → Type 0 = λ l. length l ≤ suc (suc fuel) * k in
          let alone : Fits link = one_fits link k (suc fuel) here in
          let final : (recs : List ModelRr)
              → length recs ≤ k
              → Fits (link ++ matching lib recs target qtype) =
            λ recs le.
              let all = length-matching lib recs target qtype in
              both_fit link (matching lib recs target qtype) k (suc fuel) here
                (one_fits (matching lib recs target qtype) k fuel (omega (arith, le, all))) in
          rw (e, chase)
            (if_elim Fits (not (is_suffix_label target zone.apex)) (λ _. alone)
              (λ _.
                if_elim Fits (not (is_empty (rrset zone t_owner qtype)))
                  (λ _. final (rrset zone t_owner qtype) ((small t_owner qtype).0))
                  (λ _.
                    if_elim Fits (is_address qtype && not (is_empty (tunnel zone t_owner qtype)))
                      (λ _. final (tunnel zone t_owner qtype) ((small t_owner qtype).1))
                      (λ _.
                        if_elim Fits (not (is_empty (rrset zone t_owner type_cname)))
                          (λ _. both_fit link onward k (suc fuel) here rest) (λ _. alone)))))
    ]

-- However the CNAME records of a zone point at each other, in loops too, what is appended for a
-- chain is at most ten RRsets: nine links and what the last one points to.
pub length-chase_cname-le :
    (lib : Library) (resp : Msg) (zone : Zone) (owner name : Name) (qtype k : ℕ)
    → ((o : Name) (t : ℕ) → (length (rrset zone o t) ≤ k) × (length (tunnel zone o t) ≤ k))
    → length (chase_cname lib resp zone owner name qtype).answer ≤ length resp.answer + 10 * k
unfolding chase_cname
length-chase_cname-le lib resp zone owner name qtype k small =
    let all = length-chase-le lib zone qtype k small (suc max_cname_chain) owner name in
    let sum = length-append resp.answer (chase lib zone owner name qtype (suc max_cname_chain)) in
    omega (arith, all, sum)

-- An address that an owner has only by CNAME records is found: where at most nine of them lead, within
-- the zone and over owners that have nothing of the type themselves, to an owner with records of the
-- type, the answer ends with these records, under the name of that owner, and is a success.
pub answer_authoritative-Leads :
    (lib : Library)
    → IsLibrary lib
    → (req : Msg) (zone : Zone) (name owner final : Name) (qtype n : ℕ) → is_address qtype ≡ true
    → is_empty (rrset zone owner qtype) ≡ true
    → is_empty (tunnel zone owner qtype) ≡ true
    → Leads lib zone qtype owner final n
    → n ≤ max_cname_chain
    → ((answer_authoritative lib req (some zone) name owner qtype).rcode ≡ rcode_success)
      × ((links : List Rr) × ((answer_authoritative lib req (some zone) name owner qtype).answer
            ≡ links
              ++ matching lib (rrset zone (relative_owner final zone.apex) qtype) final qtype))
unfolding answer_authoritative answer_in_zone chase_cname
answer_authoritative-Leads lib law req zone name owner final qtype n a no_rrs no_tunnel l le =
    let resp = authoritative_reply lib req in
    let (links, q) =
      chase-Leads lib zone qtype owner final name n (suc max_cname_chain) l (omega arith) in
    let not_cname : qtype == type_cname ≡ false = ground arith in
    let step : answer_in_zone lib resp zone name owner qtype
        ≡ chase_cname lib resp zone owner name qtype =
      rw
        (
          not_cname,
          a,
          no_rrs,
          no_tunnel,
          Leads-cname lib zone qtype owner final n l,
          answer_in_zone,
        )
        refl in
    (
      ap (λ m. m.rcode) step ∙ ap (λ x. x) (law.rcode_set_reply req),
      (
        resp.answer ++ links,
        ap (λ m. m.answer) step
            ∙ (ap (λ x. resp.answer ++ x) q ∙ sym (append_assoc resp.answer links _)),
      ),
    )
