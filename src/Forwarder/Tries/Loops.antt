-- ===== src/Forwarder/Tries/Loops.antt =====
-- What the loops of `tryAll` of internal/forwarder/forwarder.go ask, whatever the network answers.
use splitdns.Prelude.{
  ◌≡◌, refl, ◌∙◌, Bool, false, ◌&&◌, not, List, [], ◌∷◌, All, Bool-cases, if_elim, inl, inr,
}
use splitdns.Dns.{Name}
use splitdns.Forwarder.Breaker.{allow}
use splitdns.Forwarder.Upstreams.{
  udp, Upstream, Settings, State, World, now, breaker_for, set_breaker, Round, ask,
}
use splitdns.Forwarder.Tries.{skipped, gated, guarded, forced, each, try_all}
use splitdns.Forwarder.Tries.Asked.{
  Grows, Grows-trans, AtEnd, AtEnd-map, Round-cases, begun, over_tcp, ask-Grows, each-Grows,
}

module _ (P : Upstream → Type 0) where
  -- what a round asks if the upstream is not skipped
  abbrev pub Askable : Bool → State → Upstream → Type 0
  Askable sni s u = skipped sni s u ≡ false → P u × (u.net ≡ udp → P (over_tcp u))

  from_begun : (s : State) (u : Upstream) → P u → (t : State) → Grows P (begun s u) t → Grows P s t
  from_begun s u p t g = Grows-trans P s (begun s u) t ((u ∷ [], refl, (p, tt)), refl) g

  pub asked-Grows :
      (f : Settings) (w : World) (s : State) (u : Upstream)
      → P u × (u.net ≡ udp → P (over_tcp u))
      → AtEnd (Grows P s) (ask f w s u)
  asked-Grows f w s u (p, up) =
      AtEnd-map (Grows P (begun s u)) (Grows P s) (ask f w s u) (from_begun s u p)
        (ask-Grows P f w s u up)

  pub gated-Grows :
      (f : Settings) (w : World) (s : State) (a : Bool) (u : Upstream)
      → P u × (u.net ≡ udp → P (over_tcp u))
      → AtEnd (Grows P s) (gated f w s a u)
  unfolding gated
  gated-Grows f w s a u p =
      let b = (allow (breaker_for f s u) (now w s)).0 in
      if_elim (AtEnd (Grows P s)) (not f.breaker_enabled) (λ _. asked-Grows f w s u p)
        (λ _.
          if_elim (AtEnd (Grows P s)) (allow (breaker_for f s u) (now w s)).1
            (λ _. asked-Grows f w (set_breaker s u b) u p) (λ _. (([], refl, tt), refl)))

  with_disabled :
      (d : List Name) (s : State) (r : Round)
      → s.disabled ≡ d
      → AtEnd (Grows P s) r
      → AtEnd (λ t. Grows P s t × (t.disabled ≡ d)) r
  with_disabled d s r e g =
      AtEnd-map (Grows P s) (λ t. Grows P s t × (t.disabled ≡ d)) r (λ t g'. (g', g'.1 ∙ e)) g

  pub guarded-Grows :
      (f : Settings) (w : World) (sni : Bool) (s : State) (a e : Bool) (u : Upstream)
      → Askable sni s u
      → AtEnd (Grows P s) (guarded f w sni s a e u)
  unfolding guarded
  guarded-Grows f w sni s a e u h = elim (Bool-cases (skipped sni s u)) [
    | inl k ↦ rw (k, guarded) (([], refl, tt), refl)
    | inr k ↦ rw (k, guarded) (gated-Grows f w s a u (h k))
  ]

  pub forced-Grows :
      (f : Settings) (w : World) (sni : Bool) (s : State) (a e : Bool) (u : Upstream)
      → Askable sni s u
      → AtEnd (Grows P s) (forced f w sni s a e u)
  unfolding forced
  forced-Grows f w sni s a e u h = elim (Bool-cases (skipped sni s u)) [
    | inl k ↦ rw (k, forced) (([], refl, tt), refl)
    | inr k ↦ rw (k, forced) (asked-Grows f w s u (h k))
  ]

All-map :
    {A : Type 0} (P Q : A → Type 0) (xs : List A) → ((x : A) → P x → Q x) → All P xs → All Q xs
All-map P Q [] h p = tt
All-map P Q (x ∷ xs) h (p, ps) = (h x p, All-map P Q xs h ps)

module _ (P : Upstream → Type 0) (f : Settings) (w : World) (sni : Bool) (d : List Name) where
  -- Whatever the breakers and the network do, `tryAll` asks only upstreams that it does not skip.
  pub try_all-Grows :
      (ups : List Upstream)
      → ((s : State) → s.disabled ≡ d → All (Askable P sni s) ups)
      → (s : State) → s.disabled ≡ d
      → AtEnd (λ t. Grows P s t × (t.disabled ≡ d)) (try_all f w sni s ups)
  unfolding try_all
  try_all-Grows ups may s e =
      let Q : State → Type 0 = λ t. t.disabled ≡ d in
      let first =
        each-Grows P (guarded f w sni) Q ups
          (λ t a x q.
            All-map (Askable P sni t)
              (λ u. AtEnd (λ v. Grows P t v × Q v) (guarded f w sni t a x u)) ups
              (λ u h.
                with_disabled P d t (guarded f w sni t a x u) q (guarded-Grows P f w sni t a x u h))
              (may t q))
          s false false e in
      elim (Round-cases (each (guarded f w sni) s false false ups)) [
        | inl r ↦ rw (r, try_all) tt
        | inr (inl (t, m, r)) ↦ rw (r, try_all) (rw r at first)
        | inr (inr (t, a, x, r)) ↦
            let (g, q) : Grows P s t × Q t = rw r at first in
            elim (Bool-cases (f.breaker_enabled && not a)) [
              | inr b ↦ rw (r, b, try_all) (g, q)
              | inl b ↦
                  let second =
                    each-Grows P (forced f w sni) Q ups
                      (λ t' a' x' q'.
                        All-map (Askable P sni t')
                          (λ u. AtEnd (λ v. Grows P t' v × Q v) (forced f w sni t' a' x' u)) ups
                          (λ u h.
                            with_disabled P d t' (forced f w sni t' a' x' u) q'
                              (forced-Grows P f w sni t' a' x' u h))
                          (may t' q'))
                      t a x q in
                  rw (r, b, try_all)
                    (AtEnd-map (λ v. Grows P t v × Q v) (λ v. Grows P s v × Q v)
                      (each (forced f w sni) t a x ups)
                      (λ v (g', q'). (Grows-trans P s t v g g', q')) second)
            ]
      ]
