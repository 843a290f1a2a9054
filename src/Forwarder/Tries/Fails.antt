-- ===== src/Forwarder/Tries/Fails.antt =====
-- `tryAll` of internal/forwarder/forwarder.go gives up only after it asked: the breakers never make an
-- answer impossible that they leave out.
use splitdns.Prelude.{
  ℕ, suc, ◌≤◌, ◌<◌, ◌≡◌, refl, ap, ◌∙◌, Bool, true, false, ◌&&◌, ◌||◌, not, List, [], ◌∷◌, length,
  any, arith, Bool-cases, inl, inr, if_elim,
}
use splitdns.Dns.{Name}
use splitdns.Model.{member}
use splitdns.Forwarder.Upstreams.{
  Upstream, Settings, State, World, is_tls, is_nil, Round, go, answer, hang, ask,
}
use splitdns.Forwarder.Tries.{skipped, guarded, forced, each, try_all}
use splitdns.Forwarder.Tries.Asked.{AtEnd, AtEnd-map, Round-cases}
use splitdns.Forwarder.Tries.Told.{ask_more, Told, each-Told}

-- an upstream that is not asked while some are disabled
abbrev pub barred : Bool → List Name → Upstream → Bool
barred sni d u = (sni && (is_tls u.net && is_nil u.server_name)) || member u.addr d

abbrev AtLeast : ℕ → List Name → State → Type 0
AtLeast n d t = (n ≤ length t.asked) × (t.disabled ≡ d)

-- Nothing is taken back, and there is no answer without an exchange.
abbrev Kept : ℕ → List Name → Round → Type 0
Kept n d (go t _ _) = AtLeast n d t
Kept n d (answer t _) = AtLeast (suc n) d t
Kept n d hang = Unit

Kept-weaken : (m n : ℕ) (d : List Name) (r : Round) → n ≤ m → Kept m d r → Kept n d r
Kept-weaken m n d (go t _ _) le (k, e) = (omega (arith, le, k), e)
Kept-weaken m n d (answer t _) le (k, e) = (omega (arith, le, k), e)
Kept-weaken m n d hang le k = tt

Kept-AtEnd : (n : ℕ) (d : List Name) (r : Round) → Kept n d r → AtEnd (AtLeast n d) r
Kept-AtEnd n d (go t _ _) k = k
Kept-AtEnd n d (answer t _) (k, e) = (omega (arith, k), e)
Kept-AtEnd n d hang k = tt

AtEnd-Kept : (n : ℕ) (d : List Name) (r : Round) → AtEnd (AtLeast (suc n) d) r → Kept n d r
AtEnd-Kept n d (go t _ _) (k, e) = (omega (arith, k), e)
AtEnd-Kept n d (answer t _) k = k
AtEnd-Kept n d hang k = tt

-- The loop over such rounds, where one of them asks if its upstream is not barred.
module _ (round : State → Bool → Bool → Upstream → Round) (sni : Bool) (d : List Name)
    (stays : (s : State) (a x : Bool) (u : Upstream)
      → s.disabled ≡ d
      → Kept (length s.asked) d (round s a x u))
    (asks : (s : State) (a x : Bool) (u : Upstream)
      → s.disabled ≡ d
      → barred sni d u ≡ false
      → AtEnd (AtLeast (suc (length s.asked)) d) (round s a x u)) where
  each_stays :
      (ups : List Upstream) (s : State) (a x : Bool) (n : ℕ)
      → AtLeast n d s
      → Kept n d (each round s a x ups)
  unfolding each
  each_stays [] s a x n l = l
  each_stays (u ∷ us) s a x n (le, e) =
      let here = Kept-weaken (length s.asked) n d (round s a x u) le (stays s a x u e) in
      elim (Round-cases (round s a x u)) [
        | inl r ↦ rw (r, each) tt
        | inr (inl (t, m, r)) ↦ rw (r, each) (rw r at here)
        | inr (inr (t, a', x', r)) ↦ rw (r, each) (each_stays us t a' x' n (rw r at here))
      ]

  each_asks :
      (ups : List Upstream) (s : State) (a x : Bool) (n : ℕ)
      → any (λ u. not (barred sni d u)) ups ≡ true
      → AtLeast n d s
      → AtEnd (AtLeast (suc n) d) (each round s a x ups)
  unfolding each
  each_asks [] s a x n some_of l = absurd (cc some_of)
  each_asks (u ∷ us) s a x n some_of (le, e) = elim (Bool-cases (barred sni d u)) [
    | inr free ↦
        let here =
          AtEnd-map (AtLeast (suc (length s.asked)) d) (AtLeast (suc n) d) (round s a x u)
            (λ t (le', e'). (omega (arith, le, le'), e')) (asks s a x u e free) in
        elim (Round-cases (round s a x u)) [
          | inl r ↦ rw (r, each) tt
          | inr (inl (t, m, r)) ↦ rw (r, each) (rw r at here)
          | inr (inr (t, a', x', r)) ↦
              rw (r, each)
                (Kept-AtEnd (suc n) d (each round t a' x' us)
                  (each_stays us t a' x' (suc n) (rw r at here)))
        ]
    | inl out ↦
        let later : any (λ v. not (barred sni d v)) us ≡ true = rw out at some_of in
        let here = Kept-weaken (length s.asked) n d (round s a x u) le (stays s a x u e) in
        elim (Round-cases (round s a x u)) [
          | inl r ↦ rw (r, each) tt
          | inr (inl (t, m, r)) ↦ rw (r, each) (rw r at here)
          | inr (inr (t, a', x', r)) ↦ rw (r, each) (each_asks us t a' x' n later (rw r at here))
        ]
  ]

module _ (f : Settings) (w : World) (sni : Bool) (d : List Name) where
  ask_asks :
      (s : State) (u : Upstream)
      → s.disabled ≡ d
      → AtEnd (AtLeast (suc (length s.asked)) d) (ask f w s u)
  ask_asks s u e =
      AtEnd-map (λ t. (length s.asked < length t.asked) × (t.disabled ≡ s.disabled))
        (AtLeast (suc (length s.asked)) d) (ask f w s u) (λ t (lt, q). (omega (arith, lt), q ∙ e))
        (ask_more f w s u)

  forced_stays :
      (s : State) (a x : Bool) (u : Upstream)
      → s.disabled ≡ d
      → Kept (length s.asked) d (forced f w sni s a x u)
  unfolding forced
  forced_stays s a x u e =
      if_elim (Kept (length s.asked) d) (skipped sni s u) (λ _. (omega arith, e))
        (λ _. AtEnd-Kept (length s.asked) d (ask f w s u) (ask_asks s u e))

  forced_asks :
      (s : State) (a x : Bool) (u : Upstream)
      → s.disabled ≡ d
      → barred sni d u ≡ false
      → AtEnd (AtLeast (suc (length s.asked)) d) (forced f w sni s a x u)
  unfolding forced skipped
  forced_asks s a x u e free =
      let open_to : skipped sni s u ≡ false =
        ap (λ ds. (sni && (is_tls u.net && is_nil u.server_name)) || member u.addr ds) e ∙ free in
      if_elim (AtEnd (AtLeast (suc (length s.asked)) d)) (skipped sni s u)
        (λ k. absurd (cc (k, open_to))) (λ _. ask_asks s u e)

-- With the breakers on, `tryAll` ends only after an exchange with some upstream, whatever the breakers
-- say, if there is an upstream that has a name to check its certificate by, where that is required,
-- and that is not disabled.
pub try_all_fails_open :
    (f : Settings) (w : World) (sni : Bool) (s : State) (ups : List Upstream)
    → f.breaker_enabled ≡ true
    → any (λ u. not (barred sni s.disabled u)) ups ≡ true
    → AtEnd (λ t. length s.asked < length t.asked) (try_all f w sni s ups)
unfolding try_all
try_all_fails_open f w sni s ups on some_of =
    let n = length s.asked in
    let d = s.disabled in
    let first = each-Told f w sni ups s false false n d (omega arith, λ e. absurd (cc e), refl) in
    elim (Round-cases (each (guarded f w sni) s false false ups)) [
      | inl r ↦ rw (r, try_all) tt
      | inr (inl (t, m, r)) ↦ rw (r, try_all) (rw r at first)
      | inr (inr (t, a, x, r)) ↦
          let told : Told n d (go t a x) = rw r at first in
          let second =
            each_asks (forced f w sni) sni d (forced_stays f w sni d) (forced_asks f w sni d) ups t
              a x n some_of (told.0, told.2) in
          rw (r, try_all)
            (if_elim (AtEnd (λ v. n < length v.asked)) (f.breaker_enabled && not a)
              (λ _.
                AtEnd-map (AtLeast (suc n) d) (λ v. n < length v.asked)
                  (each (forced f w sni) t a x ups) (λ v (lt, _). omega (arith, lt)) second)
              (λ passed. told.1 (ground (arith, on, passed))))
    ]
