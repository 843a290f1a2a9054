-- ===== src/Forwarder/Tries/Told.antt =====
-- What the first loop of `tryAll` of internal/forwarder/forwarder.go knows of its exchanges.
use splitdns.Prelude.{
  ℕ, ◌≤◌, ◌<◌, ◌≡◌, ap, ◌∙◌, Bool, true, not, List, [], ◌∷◌, ◌++◌, length, length-append, arith,
  inl, inr, if_elim,
}
use splitdns.Dns.{Name}
use splitdns.Forwarder.Breaker.{allow}
use splitdns.Forwarder.Upstreams.{
  Upstream, Settings, State, World, now, breaker_for, set_breaker, Round, go, answer, hang, ask,
}
use splitdns.Forwarder.Tries.{skipped, gated, guarded, each}
use splitdns.Forwarder.Tries.Asked.{Grows, AtEnd, AtEnd-map, Round-cases, begun, ask-Grows}

abbrev Anything : Upstream → Type 0
Anything u = Unit

-- After an exchange with an upstream, more were made, and none was disabled.
pub ask_more :
    (f : Settings) (w : World) (s : State) (u : Upstream)
    → AtEnd (λ t. (length s.asked < length t.asked) × (t.disabled ≡ s.disabled)) (ask f w s u)
ask_more f w s u =
    AtEnd-map (Grows Anything (begun s u))
      (λ t. (length s.asked < length t.asked) × (t.disabled ≡ s.disabled)) (ask f w s u)
      (λ t ((new, e, _), d).
        let n : length t.asked ≡ length (new ++ (u ∷ s.asked)) = ap (λ x. length x) e in
        (omega (arith, n, length-append new (u ∷ s.asked)), d))
      (ask-Grows Anything f w s u (λ _. tt))

-- What a round of the first loop leaves: whether any upstream was allowed tells of an exchange.
abbrev pub Told : ℕ → List Name → Round → Type 0
Told n d (go t a _) = (n ≤ length t.asked) × (a ≡ true → n < length t.asked) × (t.disabled ≡ d)
Told n d (answer t _) = n < length t.asked
Told n d hang = Unit

ask-Told :
    (f : Settings) (w : World) (s : State) (u : Upstream) (n : ℕ) (d : List Name)
    → n ≤ length s.asked
    → s.disabled ≡ d
    → Told n d (ask f w s u)
ask-Told f w s u n d le e =
    let more = ask_more f w s u in
    elim (Round-cases (ask f w s u)) [
      | inl r ↦ rw r tt
      | inr (inl (t, m, r)) ↦
          let (lt, _) : (length s.asked < length t.asked) × (t.disabled ≡ s.disabled) =
            rw r at more in
          rw r (omega (arith, lt, le))
      | inr (inr (t, a, x, r)) ↦
          let (lt, q) : (length s.asked < length t.asked) × (t.disabled ≡ s.disabled) =
            rw r at more in
          rw r (omega (arith, lt, le), λ _. omega (arith, lt, le), q ∙ e)
    ]

-- The first loop tells the truth.
guarded-Told :
    (f : Settings) (w : World) (sni : Bool) (s : State) (a x : Bool) (u : Upstream) (n : ℕ)
    (d : List Name)
    → Told n d (go s a x)
    → Told n d (guarded f w sni s a x u)
unfolding guarded gated
guarded-Told f w sni s a x u n d (le, grew, e) =
    let b = (allow (breaker_for f s u) (now w s)).0 in
    if_elim (Told n d) (skipped sni s u) (λ _. (le, grew, e))
      (λ _.
        if_elim (Told n d) (not f.breaker_enabled) (λ _. ask-Told f w s u n d le e)
          (λ _.
            if_elim (Told n d) (allow (breaker_for f s u) (now w s)).1
              (λ _. ask-Told f w (set_breaker s u b) u n d le e) (λ _. (le, grew, e))))

pub each-Told :
    (f : Settings) (w : World) (sni : Bool) (ups : List Upstream) (s : State) (a x : Bool) (n : ℕ)
    (d : List Name)
    → Told n d (go s a x)
    → Told n d (each (guarded f w sni) s a x ups)
unfolding each
each-Told f w sni [] s a x n d told = told
each-Told f w sni (u ∷ us) s a x n d told =
    let here = guarded-Told f w sni s a x u n d told in
    elim (Round-cases (guarded f w sni s a x u)) [
      | inl r ↦ rw (r, each) tt
      | inr (inl (t, m, r)) ↦ rw (r, each) (rw r at here)
      | inr (inr (t, a', x', r)) ↦ rw (r, each) (each-Told f w sni us t a' x' n d (rw r at here))
    ]
