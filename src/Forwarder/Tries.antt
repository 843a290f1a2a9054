-- ===== src/Forwarder/Tries.antt =====
-- The loops over upstreams of internal/forwarder/forwarder.go: `tryAll`, `Forward` and `ForwardTo`, and
-- the manual disabling of an upstream.
pub mod Asked
pub mod Loops
pub mod Safe
pub mod Told
pub mod Fails
use splitdns.Prelude.{
  Bool, true, false, ◌&&◌, ◌||◌, not, Option, none, some, List, [], ◌∷◌, if◌then◌else◌,
}
use splitdns.Dns.{Name, name_eq}
use splitdns.Model.{member, put}
use splitdns.Forwarder.Breaker.{allow}
use splitdns.Forwarder.Upstreams.{
  tcp_tls, udp, tcp, Upstream, Settings, State, World, is_tls, is_nil, now, key, breaker_for,
  set_breaker, Round, go, answer, hang, ask,
}

-- an upstream that is not asked in any case: no name to check its certificate by, or disabled
unfoldable pub skipped : Bool → State → Upstream → Bool
unfolding is_tls member
skipped require_sni s u =
    (require_sni && (is_tls u.net && is_nil u.server_name)) || member u.addr s.disabled

-- the first loop of `tryAll`, behind the tests that skip an upstream
unfoldable pub gated : Settings → World → State → Bool → Upstream → Round
unfolding breaker_for put key allow ask
gated f w s allowed_any u =
    if not f.breaker_enabled
    then ask f w s u
    else (let (b, passes) = allow (breaker_for f s u) (now w s) in
        if passes then ask f w (set_breaker s u b) u else go (set_breaker s u b) allowed_any true)

-- a round of the first loop of `tryAll`
unfoldable pub guarded : Settings → World → Bool → State → Bool → Bool → Upstream → Round
unfolding skipped gated
guarded f w require_sni s allowed_any err u =
    if skipped require_sni s u then go s allowed_any true else gated f w s allowed_any u

-- a round of the second loop of `tryAll`, which does not ask the breakers
unfoldable pub forced : Settings → World → Bool → State → Bool → Bool → Upstream → Round
unfolding skipped ask
forced f w require_sni s allowed_any err u =
    if skipped require_sni s u then go s allowed_any err else ask f w s u

-- a loop over upstreams
unfoldable pub each :
    (State → Bool → Bool → Upstream → Round) → State → Bool → Bool → List Upstream → Round
each round s allowed_any err [] = go s allowed_any err
each round s allowed_any err (u ∷ us) = elim (round s allowed_any err u) [
  | go s' a e ↦ each round s' a e us
  | answer s' m ↦ answer s' m
  | hang ↦ hang
]

-- `tryAll`
unfoldable pub try_all : Settings → World → Bool → State → List Upstream → Round
unfolding each guarded forced
try_all f w require_sni s ups = elim (each (guarded f w require_sni) s false false ups) [
  | go s1 allowed_any err ↦
      if f.breaker_enabled && not allowed_any
      then each (forced f w require_sni) s1 allowed_any err ups
      else go s1 allowed_any err
  | answer s1 m ↦ answer s1 m
  | hang ↦ hang
]

-- `Forward`; a round that goes on without an error is the nil answer without an error, that `tryAll`
-- returns for no upstreams
unfoldable pub forward : Settings → World → State → Round
unfolding try_all
forward f w s = elim (try_all f w true s f.primary) [
  | answer s1 m ↦ answer s1 m
  | hang ↦ hang
  | go s1 a err ↦
      if not err
      then go s1 a err
      else if not f.cleartext
      then go s1 a true
      else try_all f w false s1 f.fallback
]

abbrev stub_upstreams : List Name → List Upstream
stub_upstreams [] = []
stub_upstreams (t ∷ ts) = record { addr = t; net = udp; server_name = [] } ∷ stub_upstreams ts

-- `ForwardTo`
unfoldable pub forward_to : Settings → World → State → List Name → Round
unfolding try_all
forward_to f w s targets = try_all f w false s (stub_upstreams targets)

abbrev known_in : Name → List Upstream → Bool
known_in addr [] = false
known_in addr (u ∷ us) = let rest = known_in addr us in if name_eq u.addr addr then true else rest

-- `knownAddr`
unfoldable pub known_addr : Settings → Name → Bool
unfolding name_eq
known_addr f addr = known_in addr f.primary || known_in addr f.fallback

abbrev without : Name → List Name → List Name
without n [] = []
without n (m ∷ ms) = let rest = without n ms in if name_eq n m then rest else m ∷ rest

-- `SetBackendEnabled`
unfoldable pub set_backend_enabled : Settings → State → Name → Bool → State × Bool
unfolding known_addr member name_eq
set_backend_enabled f s addr enabled =
    if not (known_addr f addr)
    then (s, false)
    else if enabled
    then (record s { disabled = without addr s.disabled }, true)
    else (record s { disabled = addr ∷ s.disabled }, true)

-- `ResetBackends`
unfoldable pub reset_backends : State → State
reset_backends s = record s { disabled = [] }
