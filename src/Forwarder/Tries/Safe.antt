-- ===== src/Forwarder/Tries/Safe.antt =====
-- What `Forward` and `ForwardTo` of internal/forwarder/forwarder.go never do.
use splitdns.Prelude.{
  ◌≡◌, refl, sym, ap, ◌∙◌, Bool, true, false, not, List, [], ◌∷◌, All, arith, inl, inr, if_elim,
}
use splitdns.Dns.{Name}
use splitdns.Model.{member}
use splitdns.Forwarder.Upstreams.{Upstream, Settings, State, World, is_tls, is_nil}
use splitdns.Forwarder.Tries.{skipped, try_all, forward, forward_to, stub_upstreams}
use splitdns.Forwarder.Tries.Asked.{Grows, Grows-trans, AtEnd, AtEnd-map, Round-cases}
use splitdns.Forwarder.Tries.Loops.{Askable, try_all-Grows}

-- not disabled by hand
abbrev pub IsEnabled : List Name → Upstream → Type 0
IsEnabled d u = member u.addr d ≡ false

IsEnabled-Askable :
    (d : List Name) (sni : Bool) (ups : List Upstream) (s : State)
    → s.disabled ≡ d
    → All (Askable (IsEnabled d) sni s) ups
unfolding skipped
IsEnabled-Askable d sni [] s e = tt
IsEnabled-Askable d sni (u ∷ us) s e =
    let here : Askable (IsEnabled d) sni s u = λ k.
      let free : member u.addr s.disabled ≡ false = ground (arith, k) in
      let kept : member u.addr d ≡ false = ap (λ x. member u.addr x) (sym e) ∙ free in
      (kept, λ _. kept) in
    (here, IsEnabled-Askable d sni us s e)

module _ (f : Settings) (w : World) (s : State) where
  try_all-IsEnabled :
      (sni : Bool) (ups : List Upstream) (t : State)
      → t.disabled ≡ s.disabled
      → AtEnd
          (λ v. Grows (IsEnabled s.disabled) t v × (v.disabled ≡ s.disabled))
          (try_all f w sni t ups)
  try_all-IsEnabled sni ups =
      try_all-Grows (IsEnabled s.disabled) f w sni s.disabled ups
        (IsEnabled-Askable s.disabled sni ups)

  -- An upstream that is disabled by hand is never asked: not while its breaker is closed, nor when all
  -- breakers are open and the loop asks regardless, nor as a fallback, nor for a stub zone; and no
  -- request disables or enables an upstream.
  pub forward-IsEnabled :
      (targets : List Name)
      → AtEnd (Grows (IsEnabled s.disabled) s) (forward f w s)
        × AtEnd (Grows (IsEnabled s.disabled) s) (forward_to f w s targets)
  unfolding forward forward_to
  forward-IsEnabled targets =
      let P = IsEnabled s.disabled in
      let Both : State → Type 0 = λ v. Grows P s v × (v.disabled ≡ s.disabled) in
      let first = try_all-IsEnabled true f.primary s refl in
      (
        elim (Round-cases (try_all f w true s f.primary)) [
          | inl r ↦ rw (r, forward) tt
          | inr (inl (t, m, r)) ↦ rw (r, forward) ((rw r at first).0)
          | inr (inr (t, a, x, r)) ↦
              let (g, q) : Both t = rw r at first in
              rw (r, forward)
                (if_elim (AtEnd (Grows P s)) (not x) (λ _. g)
                  (λ _.
                    if_elim (AtEnd (Grows P s)) (not f.cleartext) (λ _. g)
                      (λ _.
                        AtEnd-map (λ v. Grows P t v × (v.disabled ≡ s.disabled)) (Grows P s)
                          (try_all f w false t f.fallback) (λ v (g', _). Grows-trans P s t v g g')
                          (try_all-IsEnabled false f.fallback t q))))
        ],
        AtEnd-map Both (Grows P s) (try_all f w false s (stub_upstreams targets)) (λ v (g, _). g)
            (try_all-IsEnabled false (stub_upstreams targets) s refl),
      )

-- an exchange that can be read by nobody else: over TLS, with a name to check the certificate by
abbrev pub IsSealed : Upstream → Type 0
IsSealed u = (is_tls u.net ≡ true) × (is_nil u.server_name ≡ false)

IsSealed-Askable :
    (ups : List Upstream) (s : State)
    → All (λ u. is_tls u.net ≡ true) ups
    → All (Askable IsSealed true s) ups
unfolding skipped is_tls
IsSealed-Askable [] s tls = tt
IsSealed-Askable (u ∷ us) s (t, ts) =
    let here : Askable IsSealed true s u = λ k. (
      (t, ground (arith, t, k)),
      λ e. let clear : is_tls u.net ≡ false = ap is_tls e in absurd (cc (t, clear)),
    ) in
    (here, IsSealed-Askable us s ts)

-- While the fallback to clear text is off and the primary upstreams are those of TLS, as `Build` makes
-- them, no exchange of `Forward` is in clear text, nor with an upstream whose certificate could not
-- be checked: each is over TLS and has a server name.
pub forward-IsSealed :
    (f : Settings) (w : World) (s : State)
    → f.cleartext ≡ false
    → All (λ u. is_tls u.net ≡ true) f.primary
    → AtEnd (Grows IsSealed s) (forward f w s)
unfolding forward
forward-IsSealed f w s closed tls =
    let first =
      try_all-Grows IsSealed f w true s.disabled f.primary (λ t _. IsSealed-Askable f.primary t tls)
        s refl in
    elim (Round-cases (try_all f w true s f.primary)) [
      | inl r ↦ rw (r, forward) tt
      | inr (inl (t, m, r)) ↦ rw (r, forward) ((rw r at first).0)
      | inr (inr (t, a, x, r)) ↦
          let (g, _) : Grows IsSealed s t × (t.disabled ≡ s.disabled) = rw r at first in
          rw (r, forward)
            (if_elim (AtEnd (Grows IsSealed s)) (not x) (λ _. g)
              (λ _.
                if_elim (AtEnd (Grows IsSealed s)) (not f.cleartext) (λ _. g)
                  (λ opened. absurd (ground (arith, closed, opened)))))
    ]
