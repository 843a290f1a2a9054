-- ===== src/Forwarder/Tries/Asked.antt =====
-- Which upstreams `tryAll` and `Forward` of internal/forwarder/forwarder.go ask.
use splitdns.Prelude.{
  ◌≡◌, ◌⊎◌, refl, sym, ap, ◌∙◌, Bool, true, ◌&&◌, some, some-injective, List, [], ◌∷◌, ◌++◌, All,
  length, arith, Bool-cases, Option-cases, inl, inr, since,
}
use mathlib.Core.List.{append_assoc}
use splitdns.Dns.{Msg}
use splitdns.Forwarder.Breaker.{record_outcome}
use splitdns.Forwarder.Upstreams.{
  Transport, tcp_tls, udp, tcp, is_udp, is_some, Upstream, Settings, State, World, now, breaker_for,
  set_breaker, exchange, upgraded, attempted, attempt, note_attempt, recorded, Round, go, answer,
  hang, finish, ask,
}
use splitdns.Forwarder.Tries.{each}

All-append : {A : Type 0} (P : A → Type 0) (xs ys : List A) → All P xs → All P ys → All P (xs ++ ys)
All-append P [] ys p q = q
All-append P (x ∷ xs) ys (p, ps) q = (p, All-append P xs ys ps q)

-- More upstreams were asked, each of which has a property, and none was disabled or enabled.
abbrev pub Grows : (Upstream → Type 0) → State → State → Type 0
Grows P s s' =
    ((new : List Upstream) × (s'.asked ≡ new ++ s.asked) × All P new) × (s'.disabled ≡ s.disabled)

-- a property of the state at the end of a round, if it ends
abbrev pub AtEnd : (State → Type 0) → Round → Type 0
AtEnd Q (go s _ _) = Q s
AtEnd Q (answer s _) = Q s
AtEnd Q hang = Unit

-- the exchange over TCP that a truncated answer over UDP leads to
abbrev pub over_tcp : Upstream → Upstream
over_tcp u = record { addr = u.addr; net = tcp; server_name = [] }

-- the state after the first exchange with an upstream
abbrev pub begun : State → Upstream → State
begun s u = record s { asked = u ∷ s.asked }

is_udp-udp : (t : Transport) → is_udp t ≡ true → t ≡ udp
is_udp-udp tcp_tls h = absurd (cc h)
is_udp-udp udp h = refl
is_udp-udp tcp h = absurd (cc h)

pub Round-cases :
    (r : Round)
    → (r ≡ hang)
      ⊎ (((s : State) × (m : Msg) × (r ≡ answer s m))
          ⊎ ((s : State) × (a : Bool) × (e : Bool) × (r ≡ go s a e)))
Round-cases hang = inl refl
Round-cases (answer s m) = inr (inl (s, m, refl))
Round-cases (go s a e) = inr (inr (s, a, e, refl))

-- A property at the end of a round follows from another.
pub AtEnd-map :
    (Q R : State → Type 0) (r : Round) → ((s : State) → Q s → R s) → AtEnd Q r → AtEnd R r
AtEnd-map Q R (go s a e) h q = h s q
AtEnd-map Q R (answer s m) h q = h s q
AtEnd-map Q R hang h q = tt

module _ (P : Upstream → Type 0) where
  pub Grows-trans : (s t u : State) → Grows P s t → Grows P t u → Grows P s u
  Grows-trans s t u ((new, e, p), d) ((more, e', p'), d') = (
    (
      more ++ new,
      e' ∙ (ap (λ x. more ++ x) e ∙ sym (append_assoc more new s.asked)),
      All-append P more new p' p,
    ),
    d' ∙ d,
  )

  attempt-Grows :
      (w : World) (s : State) (u : Upstream)
      → (u.net ≡ udp → P (over_tcp u))
      → Grows P (begun s u) (attempt w s u).0
  unfolding attempt attempted exchange upgraded
  attempt-Grows w s u up = elim (Option-cases (w.exchange (length s.asked) u)) [
    | inl n ↦ rw (n, attempt) (([], refl, tt), refl)
    | inr (m, n) ↦ elim (Bool-cases (m.truncated && is_udp u.net)) [
      | inr b ↦ rw (n, b, attempt) (([], refl, tt), refl)
      | inl b ↦
          let more = up (is_udp-udp u.net (ground (arith, b))) in
          let both : Grows P (begun s u) (record s { asked = over_tcp u ∷ u ∷ s.asked }) =
            ((over_tcp u ∷ [], refl, (more, tt)), refl) in
          elim (Option-cases (w.exchange (length (u ∷ s.asked)) (over_tcp u))) [
            | inl n' ↦ rw (n, b, n', attempt) both
            | inr (m', n') ↦ rw (n, b, n', attempt) both
          ]
    ]
  ]

  recorded-Grows :
      (f : Settings) (w : World) (s s' : State) (u : Upstream) (ok : Bool)
      → recorded f w s u ok ≡ some s'
      → (s'.asked ≡ s.asked) × (s'.disabled ≡ s.disabled)
  unfolding recorded
  recorded-Grows f w s s' u ok h = elim (Bool-cases f.breaker_enabled) [
    | inr e ↦
        let same : s ≡ s' = some-injective s s' (rw (e, recorded) at h) in
        (ap (λ x. x.asked) (sym same), ap (λ x. x.disabled) (sym same))
    | inl e ↦ elim (Option-cases (record_outcome (breaker_for f s u) ok (now w s))) [
      | inl n ↦ absurd (cc (rw (e, n, recorded) at h))
      | inr (b, n) ↦
          let same : set_breaker s u b ≡ s' =
            some-injective (set_breaker s u b) s' (rw (e, n, recorded) at h) in
          (ap (λ x. x.asked) (sym same), ap (λ x. x.disabled) (sym same))
    ]
  ]

  pub ask-Grows :
      (f : Settings) (w : World) (s : State) (u : Upstream)
      → (u.net ≡ udp → P (over_tcp u))
      → AtEnd (Grows P (begun s u)) (ask f w s u)
  unfolding ask note_attempt finish
  ask-Grows f w s u up =
      let r = (attempt w s u).1 in
      let s2 =
        note_attempt (attempt w s u).0 u (is_some r) (since (now w (attempt w s u).0) (now w s)) in
      let grown : Grows P (begun s u) s2 = attempt-Grows w s u up in
      elim (Option-cases (recorded f w s2 u (is_some r))) [
        | inl n ↦ rw (n, ask) tt
        | inr (s3, n) ↦
            let (e, d) = recorded-Grows f w s2 s3 u (is_some r) n in
            let ((new, e', q), d') = grown in
            let done : Grows P (begun s u) s3 = ((new, e ∙ e', q), d ∙ d') in
            elim (Option-cases r) [ inl m ↦ rw (n, m, ask) done | inr (x, m) ↦ rw (n, m, ask) done ]
      ]

  -- A loop over upstreams asks only what its rounds ask.
  pub each-Grows :
      (round : State → Bool → Bool → Upstream → Round) (Q : State → Type 0)
      → (ups : List Upstream)
      → ((s : State) (a e : Bool)
          → Q s
          → All (λ u. AtEnd (λ t. Grows P s t × Q t) (round s a e u)) ups)
      → (s : State) (a e : Bool) → Q s
      → AtEnd (λ t. Grows P s t × Q t) (each round s a e ups)
  unfolding each
  each-Grows round Q [] h s a e q = ((([], refl, tt), refl), q)
  each-Grows round Q (u ∷ us) h s a e q = elim (Round-cases (round s a e u)) [
    | inl r ↦ rw (r, each) tt
    | inr (inl (t, m, r)) ↦ rw (r, each) (rw r at ((h s a e q).0))
    | inr (inr (t, a', e', r)) ↦
        let (g, q') : Grows P s t × Q t = rw r at ((h s a e q).0) in
        let rest = each-Grows round Q us (λ s' x y q''. (h s' x y q'').1) t a' e' q' in
        rw (r, each)
          (AtEnd-map (λ x. Grows P t x × Q x) (λ x. Grows P s x × Q x) (each round t a' e' us)
            (λ x (g', q''). (Grows-trans s t x g g', q'')) rest)
  ]
