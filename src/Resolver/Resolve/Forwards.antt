-- ===== src/Resolver/Resolve/Forwards.antt =====
-- Which queries `Resolve` sends to the public resolvers.
use splitdns.Prelude.{
  ℕ, ◌≡◌, ◌≢◌, ◌↔◌, refl, sym, ◌∙◌, inl, inr, true, none, some, some-injective, [], ◌∷◌, ◌==◌,
  arith, Bool-cases, Option-cases,
}
use splitdns.Dns.{Name, to_lower, Question, Msg, type_any}
use splitdns.Model.{get, Snapshot, MdnsView, DdrAdvert}
use splitdns.Model.Render.{Library}
use splitdns.Resolver.Helpers.{is_arpa, longest_zone_suffix, longest_reverse_zone}
use splitdns.Resolver.Helpers.Suffix.{IsKey, longest_suffix-none_iff, longest_reverse-none_iff}
use splitdns.Resolver.Resolve.Public.{
  IsOutside, IsPublic, empty_cases, is_empty_of_ne, pos_of_ne, is_adn_iff, question-cases,
  in_resolver_arpa_iff, local_label-none_iff,
}
use splitdns.Resolver.Ddr.{in_resolver_arpa}
use splitdns.Resolver.Local.{local_label}
use splitdns.Resolver.Reverse.{answer_reverse}
use splitdns.Resolver.Resolve.{
  answer_static, stub_match, resolve_public, resolve_planes, is_adn, resolve_adn, resolve_name,
  resolve,
}
use splitdns.Resolver.Resolve.Stays.{answer_local-stays}

answer_reverse_iff :
    (lib : Library) (snap : Snapshot) (view : MdnsView) (req : Msg) (name : Name) (qtype : ℕ)
    → ((answer_reverse lib snap view req name qtype).forward ≡ true)
      ↔ (longest_reverse_zone name snap.reverse_z ≡ none)
unfolding answer_reverse
answer_reverse_iff lib snap view req name qtype =
    elim (Option-cases (longest_reverse_zone name snap.reverse_z)) [
      | inl n ↦ (λ h. n, λ h. rw (n, answer_reverse) refl)
      | inr (z, n) ↦ (λ h. absurd (cc (rw (n, answer_reverse) at h)), λ h. absurd (cc (n, h)))
    ]

resolve_public_iff :
    (lib : Library) (snap : Snapshot) (view : MdnsView) (req : Msg) (name : Name) (qtype : ℕ)
    → ((resolve_public lib snap view req name qtype).forward ≡ true) ↔ (
        (stub_match snap name ≡ [])
        × (longest_zone_suffix name snap.zones ≡ [])
        × (qtype ≢ type_any))
unfolding resolve_public
resolve_public_iff lib snap view req name qtype = elim (empty_cases (stub_match snap name)) [
  | inr s ↦ (λ h. absurd (cc (rw (pos_of_ne _ s, resolve_public) at h)), λ (e, _, _). absurd (s e))
  | inl s ↦ elim (empty_cases (longest_zone_suffix name snap.zones)) [
    | inr z ↦ (
      λ h. absurd (cc (rw (s, is_empty_of_ne _ z, resolve_public) at h)),
      λ (_, e, _). absurd (z e),
    )
    | inl z ↦ elim (Bool-cases (qtype == type_any)) [
      | inl a ↦ (
        λ h. absurd (cc (rw (s, z, a, resolve_public) at h)),
        λ (_, _, e). absurd (e (ground (arith, a))),
      )
      | inr a ↦ (λ h. (s, z, ground (arith, a)), λ h. rw (s, z, a, resolve_public) refl)
    ]
  ]
]

module _ (lib : Library) (snap : Snapshot) (view : MdnsView) (req : Msg)
    (no_zone : IsKey [] snap.zones → ⊥) (no_reverse : IsKey [] snap.reverse_z → ⊥) where
  resolve_planes_iff :
      (name : Name) (qtype : ℕ)
      → ((resolve_planes lib snap view req name qtype).forward ≡ true)
        ↔ ((get name snap.static ≡ none) × IsOutside snap name qtype)
  unfolding resolve_planes longest_zone_suffix longest_reverse_zone answer_static
  resolve_planes_iff name qtype = elim (Option-cases (get name snap.static)) [
    | inr (recs, s) ↦ (λ h. absurd (cc (rw (s, resolve_planes) at h)), λ (e, _). absurd (cc (s, e)))
    | inl s ↦ elim (Bool-cases (is_arpa name)) [
      | inl a ↦
          let rev = answer_reverse_iff lib snap view req name qtype in
          let none_iff = longest_reverse-none_iff name snap.reverse_z no_reverse in
          (
            λ h. (s, inl (a, none_iff.0 (rev.0 (rw (s, a, resolve_planes) at h)))),
            λ (_, o). elim o [
              | inl (_, nothing) ↦ rw (s, a, resolve_planes) (rev.1 (none_iff.1 nothing))
              | inr (b, _, _, _, _) ↦ absurd (cc (a, b))
            ],
          )
      | inr a ↦ elim (Option-cases (local_label snap name)) [
        | inr (lbl, l) ↦ (
          λ h. absurd (
              cc (
                answer_local-stays lib snap view req name lbl qtype,
                rw (s, a, l, resolve_planes) at h,
              )),
          λ (_, o). elim o [
            | inl (b, _) ↦ absurd (cc (a, b))
            | inr (_, away, _, _, _) ↦ absurd (cc (l, (local_label-none_iff snap name).1 away))
          ],
        )
        | inl l ↦
            let open_iff = resolve_public_iff lib snap view req name qtype in
            let none_iff = longest_suffix-none_iff name snap.zones no_zone in
            (
              λ h.
                  let (t, z, q) = open_iff.0 (rw (s, a, l, resolve_planes) at h) in
                  (s, inr (a, (local_label-none_iff snap name).0 l, t, none_iff.0 z, q)),
              λ (_, o). elim o [
                | inl (b, _) ↦ absurd (cc (a, b))
                | inr (_, _, t, nothing, q) ↦
                    rw (s, a, l, resolve_planes) (open_iff.1 (t, none_iff.1 nothing, q))
              ],
            )
      ]
    ]
  ]

  resolve_adn_iff :
      (name : Name) (qtype : ℕ)
      → ((resolve_adn lib snap view req name qtype).forward ≡ true) ↔ (
          ((d : DdrAdvert) → snap.ddr ≡ some d → d.adn ≢ [] → name ≢ d.adn)
          × (get name snap.static ≡ none)
          × IsOutside snap name qtype)
  unfolding resolve_adn is_adn
  resolve_adn_iff name qtype =
      let planes = resolve_planes_iff name qtype in
      elim (Option-cases snap.ddr) [
        | inl n ↦ (
          λ h.
              let (s, o) = planes.0 (rw (n, resolve_adn) at h) in (λ d e. absurd (cc (n, e)), s, o),
          λ (_, s, o). rw (n, resolve_adn) (planes.1 (s, o)),
        )
        | inr (d, n) ↦ elim (Bool-cases (is_adn d name)) [
          | inl a ↦ (
            λ h. absurd (cc (rw (n, a, resolve_adn) at h)),
            λ (other, _, _). let (ne, same) = (is_adn_iff d name).0 a in absurd (other d n ne same),
          )
          | inr a ↦ (
            λ h.
                let (s, o) = planes.0 (rw (n, a, resolve_adn) at h) in
                (
                  λ d' e some_name same.
                      let mine : d ≡ d' = some-injective d d' (sym n ∙ e) in
                      let yes =
                        (is_adn_iff d name).1 (rw (sym mine) at some_name, rw (sym mine) at same) in
                      cc (a, yes),
                  s,
                  o,
                ),
            λ (_, s, o). rw (n, a, resolve_adn) (planes.1 (s, o)),
          )
        ]
      ]

  resolve_name_iff :
      (name : Name) (qtype : ℕ)
      → ((resolve_name lib snap view req name qtype).forward ≡ true) ↔ IsPublic snap name qtype
  unfolding resolve_name
  resolve_name_iff name qtype =
      let adn = resolve_adn_iff name qtype in
      let arpa = in_resolver_arpa_iff name in
      elim (Bool-cases (in_resolver_arpa name)) [
        | inl a ↦ (
          λ h. absurd (cc (rw (a, resolve_name) at h)),
          λ (away, _, _, _). absurd (cc (a, arpa.1 away)),
        )
        | inr a ↦ (
          λ h. let (d, s, o) = adn.0 (rw (a, resolve_name) at h) in (arpa.0 a, d, s, o),
          λ (_, d, s, o). rw (a, resolve_name) (adn.1 (d, s, o)),
        )
      ]

  -- A query is forwarded to the public resolvers exactly when it has one question and that is, with its
  -- name in lower case, none of what is answered or resolved locally: a reverse name under no
  -- configured reverse zone is forwarded whatever its type, ANY too, and any other name that is
  -- forwarded is not asked for ANY. The maps of mirrored and of reverse zones have no empty key.
  pub resolve-forward_iff : ((resolve lib snap view req).forward ≡ true) ↔ (
      (q : Question) × (req.question ≡ q ∷ []) × IsPublic snap (to_lower (lib.fqdn q.name)) q.qtype)
  unfolding resolve
  resolve-forward_iff = elim (question-cases req.question) [
    | inl (q, e) ↦
        let named = resolve_name_iff (to_lower (lib.fqdn q.name)) q.qtype in
        (
          λ h. (q, e, named.0 (rw (e, resolve) at h)),
          λ (q', e', public).
              let same : q' ≡ q = cc (e, e') in rw (e, resolve) (named.1 (rw same at public)),
        )
    | inr (inl e) ↦ (λ h. absurd (cc (rw (e, resolve) at h)), λ (_, e', _). absurd (cc (e, e')))
    | inr (inr (q, r, rest, e)) ↦
        (λ h. absurd (cc (rw (e, resolve) at h)), λ (_, e', _). absurd (cc (e, e')))
  ]
